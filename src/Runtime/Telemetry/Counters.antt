-- ===== src/Runtime/Telemetry/Counters.antt =====
-- The counters after a run of requests.
use mathlib.Core.List.{append-nil, append_assoc}
use cyrene_reactor.Prelude.{
  refl, sym, ap, ◌∙◌, drop, drop-drop, drop-append_one, ltb→lt, and_true, ◌&&◌, ◌<◌, ltb,
  length-append, ◌++◌, ◌-◌, length-drop, arith, false, ◌+◌, [], ◌≡◌, length, true, ◌∷◌, Bool, List,
  ℕ,
}
use cyrene_reactor.Runtime.Telemetry.{
  Bool, List, ℕ, Telemetry, track_request_start, track_request_end, track_token_generated, reset,
  push, window,
}

pub data Event : Type 0 where
  starts : Event
  ends : ℕ → Bool → Event
  generates : ℕ → Event

pub track : Event → Telemetry → Telemetry
unfolding track_request_start track_request_end track_token_generated
track starts t = track_request_start t
track (ends latency success) t = track_request_end latency success t
track (generates tokens) t = track_token_generated tokens t

unfoldable pub run : List Event → Telemetry → Telemetry
unfolding track
run [] t = t
run (e ∷ es) t = run es (track e t)

-- What happened, counted without a telemetry.
abbrev pub started : Event → ℕ
started starts = 1
started (ends latency success) = 0
started (generates tokens) = 0

abbrev pub ended : Bool → Event → ℕ
ended true (ends latency true) = 1
ended false (ends latency false) = 1
ended _ _ = 0

abbrev pub generated : Event → ℕ
generated starts = 0
generated (ends latency success) = 0
generated (generates tokens) = tokens

abbrev pub total : (Event → ℕ) → List Event → ℕ
total count [] = 0
total count (e ∷ es) = count e + total count es

-- With so many requests open, none ends that has not started.
abbrev pub is_balanced : ℕ → List Event → Bool
is_balanced open_requests [] = true
is_balanced open_requests (starts ∷ es) = is_balanced (open_requests + 1) es
is_balanced open_requests (ends latency success ∷ es) =
    ltb 0 open_requests && is_balanced (open_requests - 1) es
is_balanced open_requests (generates tokens ∷ es) = is_balanced open_requests es

balanced_end :
    (n latency : ℕ) (success : Bool) (es : List Event)
    → is_balanced n (ends latency success ∷ es) ≡ true
    → (0 < n) × (is_balanced (n - 1) es ≡ true)
balanced_end n latency success es h =
    let (positive, later) = and_true (ltb 0 n) (is_balanced (n - 1) es) h in
    (ltb→lt 0 n positive, later)

run-counts :
    (es : List Event) (t : Telemetry)
    → is_balanced t.requests_inflight es ≡ true
    → ((run es t).requests_inflight + total (ended true) es + total (ended false) es
        ≡ t.requests_inflight + total started es)
      × ((run es t).requests_success ≡ t.requests_success + total (ended true) es)
      × ((run es t).requests_failed ≡ t.requests_failed + total (ended false) es)
      × ((run es t).tokens_total ≡ t.tokens_total + total generated es)
unfolding run
run-counts [] t h = (omega arith, omega arith, omega arith, omega arith)
run-counts (starts ∷ es) t h =
    let (open_, success, failed, tokens) = run-counts es (track_request_start t) h in
    (omega (arith, open_), omega (arith, success), omega (arith, failed), omega (arith, tokens))
run-counts (ends latency true ∷ es) t h =
    let (positive, later) = balanced_end t.requests_inflight latency true es h in
    let (open_, success, failed, tokens) = run-counts es (track_request_end latency true t) later in
    (
      omega (arith, open_, positive),
      omega (arith, success),
      omega (arith, failed),
      omega (arith, tokens),
    )
run-counts (ends latency false ∷ es) t h =
    let (positive, later) = balanced_end t.requests_inflight latency false es h in
    let (open_, success, failed, tokens) =
      run-counts es (track_request_end latency false t) later in
    (
      omega (arith, open_, positive),
      omega (arith, success),
      omega (arith, failed),
      omega (arith, tokens),
    )
run-counts (generates n ∷ es) t h =
    let (open_, success, failed, tokens) = run-counts es (track_token_generated n t) h in
    (omega (arith, open_), omega (arith, success), omega (arith, failed), omega (arith, tokens))

abbrev pub latencies_of : List Event → List ℕ
latencies_of [] = []
latencies_of (starts ∷ es) = latencies_of es
latencies_of (ends latency success ∷ es) = latency ∷ latencies_of es
latencies_of (generates tokens ∷ es) = latencies_of es

-- The last `n` items.
abbrev pub newest : ℕ → List ℕ → List ℕ
newest n xs = drop (length xs - n) xs

push-newest : (x : ℕ) (xs : List ℕ) → push x (newest window xs) ≡ newest window (xs ++ x ∷ [])
unfolding push
push-newest x xs =
    let k = length xs - window in
    let size = length-append xs (x ∷ []) in
    let places : k + (length (drop k (xs ++ x ∷ [])) - window) ≡ length (xs ++ x ∷ []) - window =
      omega (arith, size, length-drop k (xs ++ x ∷ [])) in
    ap (λ (ys : List ℕ). drop (length ys - window) ys) (sym (drop-append_one k xs x (omega arith)))
    ∙ drop-drop k (length (drop k (xs ++ x ∷ [])) - window) (xs ++ x ∷ [])
    ∙ ap (λ (n : ℕ). drop n (xs ++ x ∷ [])) places

-- With the latencies `xs` before it, a run keeps the newest of these and of its own.
run-latencies :
    (es : List Event) (t : Telemetry) (xs : List ℕ)
    → t.latencies ≡ newest window xs
    → (run es t).latencies ≡ newest window (xs ++ latencies_of es)
unfolding run
run-latencies [] t xs h = h ∙ ap (newest window) (sym (append-nil xs))
run-latencies (starts ∷ es) t xs h = run-latencies es (track_request_start t) xs h
run-latencies (ends latency true ∷ es) t xs h =
    run-latencies es (track_request_end latency true t) (xs ++ latency ∷ [])
      (ap (push latency) h ∙ push-newest latency xs)
    ∙ ap (newest window) (append_assoc xs (latency ∷ []) (latencies_of es))
run-latencies (ends latency false ∷ es) t xs h =
    run-latencies es (track_request_end latency false t) (xs ++ latency ∷ [])
      (ap (push latency) h ∙ push-newest latency xs)
    ∙ ap (newest window) (append_assoc xs (latency ∷ []) (latencies_of es))
run-latencies (generates tokens ∷ es) t xs h =
    run-latencies es (track_token_generated tokens t) xs h

-- After a reset and any events of which no request ends without having started: every request that
-- started is in flight, succeeded or failed; the counters are those of the ends and of the tokens;
-- and the latencies are those of the last 512 ends, in their order.
pub run-reset-counts :
    (es : List Event) (t : Telemetry)
    → is_balanced 0 es ≡ true
    → ((run es (reset t)).requests_inflight + total (ended true) es + total (ended false) es
        ≡ total started es)
      × ((run es (reset t)).requests_success ≡ total (ended true) es)
      × ((run es (reset t)).requests_failed ≡ total (ended false) es)
      × ((run es (reset t)).tokens_total ≡ total generated es)
      × ((run es (reset t)).latencies ≡ newest window (latencies_of es))
unfolding reset
run-reset-counts es t h =
    let (open_, success, failed, tokens) = run-counts es (reset t) h in
    (
      omega (arith, open_),
      omega (arith, success),
      omega (arith, failed),
      omega (arith, tokens),
      run-latencies es (reset t) [] refl,
    )
