-- ===== src/Runtime/StreamBuffer/Text.antt =====
-- The text interface of `StreamBuffer` (`write` to `read_blocking`): chunks of code points that
-- accumulate in `_text_buffer` under their own lock. The list that `_ensure_text_buffer` creates on
-- the first use is the empty list here.
use cyrene_reactor.Prelude.{
  ℕ, ◌+◌, ◌≡◌, ◌∙◌, refl, ap, Bool, true, false, Option, none, some, List, [], ◌∷◌, ◌++◌, arith,
  length, length-append,
}
use mathlib.Core.List.{append_assoc, append-nil}

abbrev pub Chunk : Type 0
Chunk = List ℕ

abbrev pub TextBuffer : Type 0
TextBuffer = List Chunk

-- `write`, and `write_chunk`, which calls it.
pub write : TextBuffer → Chunk → TextBuffer
write chunks text = chunks ++ text ∷ []

-- "".join(chunks)
pub join : TextBuffer → Chunk
join [] = []
join (c ∷ cs) = c ++ join cs

-- `read`, and `read_all`, which calls it.
pub read : TextBuffer → TextBuffer × Option Chunk
read [] = ([], none)
read (c ∷ cs) = ([], some (join (c ∷ cs)))

pub iter_chunks : TextBuffer → List Chunk
iter_chunks chunks = chunks

pub clear : TextBuffer → TextBuffer
clear chunks = []

pub is_empty : TextBuffer → Bool
is_empty [] = true
is_empty (c ∷ cs) = false

pub size : TextBuffer → ℕ
size [] = 0
size (c ∷ cs) = length c + size cs

-- One round of the polling loop of `read_blocking`: the chunks that other threads wrote since the
-- round before, and whether the deadline has passed.
pub record Round : Type 0 where
  pub arrived : List Chunk
  pub late : Bool

-- A round returns what it read; with nothing read it returns `None` when late, else it polls again.
after_read :
    TextBuffer × Option (Option Chunk)
    → Bool
    → TextBuffer × Option Chunk
    → TextBuffer × Option (Option Chunk)
after_read again late (chunks, some text) = (chunks, some (some text))
after_read again true (chunks, none) = (chunks, some none)
after_read again false (chunks, none) = again

-- The loop over the rounds given; `none` when it would go on polling.
pub read_blocking : List Round → TextBuffer → TextBuffer × Option (Option Chunk)
unfolding after_read
read_blocking [] chunks = (chunks, none)
read_blocking (r ∷ rounds) chunks =
    let again = read_blocking rounds [] in after_read again r.late (read (chunks ++ r.arrived))

-- Writes of all the chunks, in order.
pub write_all : TextBuffer → List Chunk → TextBuffer
write_all chunks [] = chunks
write_all chunks (c ∷ cs) = write_all (write chunks c) cs

write_all-append : (chunks cs : TextBuffer) → write_all chunks cs ≡ chunks ++ cs
unfolding write_all write
write_all-append chunks [] = rw append-nil
write_all-append chunks (c ∷ cs) = rw (write_all-append (chunks ++ c ∷ []) cs, append_assoc)

join-append : (xs ys : TextBuffer) → join (xs ++ ys) ≡ join xs ++ join ys
unfolding join
join-append [] ys = refl
join-append (x ∷ xs) ys = rw (join-append xs ys, append_assoc)

size-eq-length-join : (chunks : TextBuffer) → size chunks ≡ length (join chunks)
unfolding size join
size-eq-length-join [] = refl
size-eq-length-join (c ∷ cs) = omega (arith, size-eq-length-join cs, length-append c (join cs))

-- After any writes to a buffer, one read returns everything unread followed by the new texts, in
-- order, and empties the buffer; `size` before the read is the length of what it returns; and the
-- next read returns nothing.
pub read-write_all :
    (chunks : TextBuffer) (c : Chunk) (cs : List Chunk)
    → (read (write_all chunks (c ∷ cs)) ≡ ([], some (join chunks ++ join (c ∷ cs))))
      × (size (write_all chunks (c ∷ cs)) ≡ length (join chunks ++ join (c ∷ cs)))
      × (read (read (write_all chunks (c ∷ cs))).0 ≡ ([], none))
unfolding read join
read-write_all chunks c cs = rw (write_all-append chunks (c ∷ cs)) (
  read_joined chunks,
  size-eq-length-join (chunks ++ c ∷ cs) ∙ ap length (join-append chunks (c ∷ cs)),
  rw (read_joined chunks),
)
  where
    read_joined : (xs : TextBuffer) → read (xs ++ c ∷ cs) ≡ ([], some (join xs ++ join (c ∷ cs)))
    read_joined [] = refl
    read_joined (x ∷ xs) = rw (← join-append (x ∷ xs) (c ∷ cs))
