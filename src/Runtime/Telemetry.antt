-- ===== src/Runtime/Telemetry.antt =====
-- runtime/core/src/cy_exec/core/telemetry.py: the request counters and the latencies of a server.
--
-- Latencies are whole milliseconds, so that the factor 1000 of a snapshot is gone, and arithmetic on
-- floats is exact: the average is a fraction (numerator and denominator), a percentile a number of
-- hundredths. Each method holds the lock.
pub mod Percentiles
pub mod Counters
mod Examples
use cyrene_reactor.Prelude.{
  ◌%◌, min, false, ◌/◌, zero, leb, true, ◌*◌, suc, if◌then◌else◌, ◌-◌, ◌++◌, ◌∷◌, Bool, drop,
  length, List, ◌+◌, [], ℕ,
}

pub record Telemetry : Type 0 where
  pub requests_inflight : ℕ
  pub requests_success : ℕ
  pub requests_failed : ℕ
  pub tokens_total : ℕ
  pub latencies : List ℕ

abbrev pub window : ℕ
window = 512

-- `deque(maxlen=512).append`
pub push : ℕ → List ℕ → List ℕ
push x xs = drop (length (xs ++ x ∷ []) - window) (xs ++ x ∷ [])

-- `__init__`
abbrev pub create : Telemetry
create = record {
  requests_inflight = 0;
  requests_success = 0;
  requests_failed = 0;
  tokens_total = 0;
  latencies = [];
}

pub track_request_start : Telemetry → Telemetry
track_request_start t = record t { requests_inflight = t.requests_inflight + 1 }

-- `max(0, n - 1)` is the subtraction of the native numbers.
pub track_request_end : ℕ → Bool → Telemetry → Telemetry
unfolding push
track_request_end latency true t = record t {
  requests_inflight = t.requests_inflight - 1;
  requests_success = t.requests_success + 1;
  latencies = push latency t.latencies;
}
track_request_end latency false t = record t {
  requests_inflight = t.requests_inflight - 1;
  requests_failed = t.requests_failed + 1;
  latencies = push latency t.latencies;
}

pub track_token_generated : ℕ → Telemetry → Telemetry
track_token_generated tokens t = record t { tokens_total = t.tokens_total + tokens }

pub reset : Telemetry → Telemetry
reset t = record {
  requests_inflight = 0;
  requests_success = 0;
  requests_failed = 0;
  tokens_total = 0;
  latencies = [];
}

-- `sorted`
insert : ℕ → List ℕ → List ℕ
insert x [] = x ∷ []
insert x (y ∷ ys) = let rest = insert x ys in if leb x y then x ∷ y ∷ ys else y ∷ rest

pub sorted : List ℕ → List ℕ
unfolding insert
sorted [] = []
sorted (x ∷ xs) = insert x (sorted xs)

-- `data[i]`, for an index in range.
pub item : List ℕ → ℕ → ℕ
item [] i = 0
item (x ∷ xs) zero = x
item (x ∷ xs) (suc i) = item xs i

-- `_percentile`, in hundredths, for a whole percentage: `position` is (len - 1) * p / 100.
pub percentile : List ℕ → ℕ → ℕ
unfolding item
percentile [] p = 0
percentile (x ∷ xs) p =
    let lower = (length xs * p) / 100 in
    let upper = min (lower + 1) (length xs) in
    100 * item (x ∷ xs) lower
    + ((length xs * p) % 100) * (item (x ∷ xs) upper - item (x ∷ xs) lower)

pub sum : List ℕ → ℕ
sum [] = 0
sum (x ∷ xs) = x + sum xs

-- `sum(data) / len(data) if data else 0.0`
pub average : List ℕ → ℕ × ℕ
unfolding sum
average [] = (0, 1)
average (x ∷ xs) = (sum (x ∷ xs), length (x ∷ xs))

pub record Snapshot : Type 0 where
  pub requests_inflight : ℕ
  pub requests_success : ℕ
  pub requests_failed : ℕ
  pub latency_avg_ms : ℕ × ℕ
  pub latency_p50_ms : ℕ
  pub latency_p95_ms : ℕ
  pub latency_p99_ms : ℕ
  pub tokens_total : ℕ

unfoldable pub snapshot : Telemetry → Snapshot
unfolding sorted percentile average
snapshot t = record {
  requests_inflight = t.requests_inflight;
  requests_success = t.requests_success;
  requests_failed = t.requests_failed;
  latency_avg_ms = average (sorted t.latencies);
  latency_p50_ms = percentile (sorted t.latencies) 50;
  latency_p95_ms = percentile (sorted t.latencies) 95;
  latency_p99_ms = percentile (sorted t.latencies) 99;
  tokens_total = t.tokens_total;
}
