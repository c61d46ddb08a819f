-- ===== src/Runtime/StreamBuffer.antt =====
-- runtime/core/src/cy_exec/utils/stream_buffer.py, class `StreamBuffer`.
--
-- Every method holds the condition's lock, so one pass of a method's loop is one step. A call that
-- reaches `self._cond.wait` is `waiting`; `push_pass` and `pop_pass` are the loop that it runs
-- again once it is woken. `expired` says that the timeout has run out (`remaining <= 0`); it is
-- `false` for a call with no timeout. The threshold is the fraction `warn_num / warn_den`.
pub mod Schedule
pub mod Text
pub mod Closing
mod Examples
use cyrene_reactor.Prelude.{
  ℕ, zero, suc, ◌+◌, ◌*◌, min, ◌≡◌, Bool, true, false, not, ◌&&◌, Option, none, some, List, [], ◌∷◌,
  ◌++◌, ltb, leb, length, take, drop, if◌then◌else◌,
}

pub record Buffer (A : Type 0) : Type 0 where
  pub queue : List A
  pub max_size : ℕ
  pub warn_num : ℕ
  pub warn_den : ℕ
  pub closed : Bool
  pub pushed : ℕ
  pub popped : ℕ
  pub dropped : ℕ

-- The reasons of `BufferClosed`.
pub data Reason : Type 0 where
  push_closed drained empty_nonblocking timed_out : Reason

pub data Progress (A : Type 0) : Type 0 where
  returned : A → Progress A
  raised : Reason → Progress A
  waiting : Progress A

-- The two `ValueError`s of the constructor.
pub data Rejected : Type 0 where
  size_not_positive threshold_out_of_range : Rejected

-- `usage` is the fraction of the two numbers, numerator first.
pub record Stats : Type 0 where
  pub size : ℕ
  pub max_size : ℕ
  pub usage : ℕ × ℕ
  pub near_capacity : Bool
  pub pushed : ℕ
  pub popped : ℕ
  pub dropped : ℕ
  pub closed : Bool

drain_count : Option ℕ → ℕ → ℕ
drain_count none size = size
drain_count (some max_items) size = min size max_items

module _ {A : Type 0} where
  pub fresh : ℕ → ℕ → ℕ → Buffer A
  fresh max_size warn_num warn_den = record {
    queue = [];
    max_size = max_size;
    warn_num = warn_num;
    warn_den = warn_den;
    closed = false;
    pushed = 0;
    popped = 0;
    dropped = 0;
  }

  -- `__init__`
  pub create : ℕ → ℕ → ℕ → Option (Buffer A) × Option Rejected
  unfolding fresh
  create max_size warn_num warn_den =
      if leb max_size 0
      then (none, some size_not_positive)
      else if not (ltb 0 warn_num && leb warn_num warn_den)
      then (none, some threshold_out_of_range)
      else (some (fresh max_size warn_num warn_den), none)

  -- The loop of `push` and what follows it.
  pub push_pass : Buffer A → A → Bool → Bool → Buffer A × Progress Bool
  push_pass b item block expired =
      if leb b.max_size (length b.queue)
      then (if block && not expired
          then (b, waiting)
          else (record b { dropped = b.dropped + 1 }, returned false))
      else (record b { queue = b.queue ++ item ∷ []; pushed = b.pushed + 1 }, returned true)

  pub push : Buffer A → A → Bool → Bool → Buffer A × Progress Bool
  unfolding push_pass
  push b item block expired =
      if b.closed then (b, raised push_closed) else push_pass b item block expired

  pop_queue : List A → Buffer A → Bool → Bool → Buffer A × Progress A
  pop_queue (item ∷ rest) b block expired =
      (record b { queue = rest; popped = b.popped + 1 }, returned item)
  pop_queue [] b block expired =
      if b.closed
      then (b, raised drained)
      else if not block
      then (b, raised empty_nonblocking)
      else if expired
      then (b, raised timed_out)
      else (b, waiting)

  -- `pop`; a woken call goes through the same loop.
  pub pop_pass : Buffer A → Bool → Bool → Buffer A × Progress A
  unfolding pop_queue
  pop_pass b = pop_queue b.queue b

  pub close : Buffer A → Buffer A
  close b = record b { closed = true }

  pub drain : Buffer A → Option ℕ → Buffer A × List A
  unfolding drain_count
  drain b max_items =
      let count = drain_count max_items (length b.queue) in
      let items = take count b.queue in
      (record b { queue = drop count b.queue; popped = b.popped + length items }, items)

  pub stats : Buffer A → Stats
  stats b = record {
    size = length b.queue;
    max_size = b.max_size;
    usage = (length b.queue, b.max_size);
    near_capacity = leb (b.warn_num * b.max_size) (length b.queue * b.warn_den);
    pushed = b.pushed;
    popped = b.popped;
    dropped = b.dropped;
    closed = b.closed;
  }

  extend_after :
      (ℕ → Buffer A → Buffer A × Progress ℕ) → ℕ → Buffer A × Progress Bool → Buffer A × Progress ℕ
  extend_after go accepted (b, returned true) = go (accepted + 1) b
  extend_after go accepted (b, returned false) = (b, returned accepted)
  extend_after go accepted (b, raised r) = (b, raised r)
  extend_after go accepted (b, waiting) = (b, waiting)

  extend_from : List A → Bool → ℕ → Buffer A → Buffer A × Progress ℕ
  unfolding extend_after
  extend_from [] block accepted b = (b, returned accepted)
  extend_from (item ∷ items) block accepted b =
      extend_after (extend_from items block) accepted (push b item block false)

  -- A blocked `push` blocks the whole call, and a raise goes through it.
  pub extend : Buffer A → List A → Bool → Buffer A × Progress ℕ
  unfolding extend_from
  extend b items block = extend_from items block 0 b
