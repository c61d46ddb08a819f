-- ===== src/Runtime/CapabilitySeam/Translation.antt =====
-- `_translate_direct_error`: what became of a direct invocation, as the failure's status tells it.
use cyrene_reactor.Prelude.Keys.{nat_eq, string_eq, ◌==◌}
use cyrene_reactor.Prelude.{true, false, not, ◌||◌, ◌&&◌, ◌≡◌, Bool}
use cyrene_reactor.Runtime.CapabilitySeam.{
  DirectPluginError, invocation_cancelled, deadline_exceeded, protocol_error, failure,
  transport_error, unspecific, ServingPortFailure,
}

-- The invocation was cancelled.
abbrev pub was_cancelled : DirectPluginError → Bool
was_cancelled invocation_cancelled = true
was_cancelled deadline_exceeded = false
was_cancelled protocol_error = false
was_cancelled (failure e) = e.is_cancelled
was_cancelled (transport_error name) = name == "CANCELLED"
was_cancelled unspecific = false

-- It was not, and ran out of time.
abbrev pub was_late : DirectPluginError → Bool
was_late invocation_cancelled = false
was_late deadline_exceeded = true
was_late protocol_error = false
was_late (failure e) = not e.is_cancelled && e.code == 4
was_late (transport_error name) = not (name == "CANCELLED") && name == "DEADLINE_EXCEEDED"
was_late unspecific = false

-- The plugin answered with a failure of its own, or against the protocol.
abbrev pub was_answered : DirectPluginError → Bool
was_answered protocol_error = true
was_answered (failure e) = not e.is_cancelled && not (e.code == 4) && not (e.code == 6)
was_answered _ = false

-- The plugin's own failure asks for another try.
abbrev pub asks_retry : DirectPluginError → Bool
asks_retry (failure e) = e.retryable
asks_retry _ = false

abbrev pub IsPortFailure : DirectPluginError → ServingPortFailure → Type 0
IsPortFailure error f =
    ((f.status == 499) ≡ was_cancelled error)
    × ((f.status == 504) ≡ was_late error)
    × ((f.status == 502) ≡ was_answered error)
    × ((f.status == 503) ≡ not (was_cancelled error || was_late error || was_answered error))
    × (f.retryable ≡ (not (was_cancelled error) && (not (was_answered error) || asks_retry error)))
