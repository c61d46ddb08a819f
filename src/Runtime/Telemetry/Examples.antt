-- ===== src/Runtime/Telemetry/Examples.antt =====
-- Telemetry of two requests, one of which fails, and a third that is still open.
use cyrene_reactor.Prelude.{false, arith, refl, [], true, ◌*◌, ◌≡◌, ◌∷◌, ◌+◌, List, ◌≤◌}
use cyrene_reactor.Runtime.Telemetry.Counters.{
  newest, latencies_of, Event, run, total, started, ended, generated, run-reset-counts, starts,
  ends, generates,
}
use cyrene_reactor.Runtime.Telemetry.Percentiles.{snapshot-IsWithin}
use cyrene_reactor.Runtime.Telemetry.{
  ◌*◌, ◌∷◌, ◌+◌, List, create, reset, snapshot, window, Telemetry,
}

abbrev events : List Event
events = starts ∷ starts ∷ generates 7 ∷ ends 30 true ∷ starts ∷ ends 10 false ∷ []

run-reset-counts_example :
    ((run events (reset create)).requests_inflight
        + total (ended true) events
        + total (ended false) events
      ≡ total started events)
    × ((run events (reset create)).requests_success ≡ total (ended true) events)
    × ((run events (reset create)).requests_failed ≡ total (ended false) events)
    × ((run events (reset create)).tokens_total ≡ total generated events)
    × ((run events (reset create)).latencies ≡ newest window (latencies_of events))
run-reset-counts_example = run-reset-counts events create refl

abbrev filled : Telemetry
filled = record create { latencies = 30 ∷ 10 ∷ 20 ∷ [] }

-- The median of 10, 20, 30, and nine tenths of the way from 20 to 30.
median : (snapshot filled).latency_p50_ms ≡ 2000
unfolding snapshot
median = refl

high_percentile : (snapshot filled).latency_p95_ms ≡ 2900
unfolding snapshot
high_percentile = refl

mean : (snapshot filled).latency_avg_ms ≡ (60, 3)
unfolding snapshot
mean = refl

snapshot-IsWithin_example :
    (100 * 10 ≤ (snapshot filled).latency_p50_ms)
    × ((snapshot filled).latency_p50_ms ≤ (snapshot filled).latency_p95_ms)
    × ((snapshot filled).latency_p95_ms ≤ (snapshot filled).latency_p99_ms)
    × ((snapshot filled).latency_p99_ms ≤ 100 * 30)
snapshot-IsWithin_example =
    snapshot-IsWithin 10 30 filled
      ((omega arith, omega arith), ((omega arith, omega arith), ((omega arith, omega arith), tt)))
      (omega arith)
