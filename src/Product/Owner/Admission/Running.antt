-- ===== src/Product/Owner/Admission/Running.antt =====
-- What `_validate_runtime_status` has shown of a running binding.
use cyrene_reactor.Prelude.Keys.{nat_eq}
use cyrene_reactor.Product.Owner.{is_binding_id, is_value}
use cyrene_reactor.Product.Receipts.{RuntimeStatus}
use cyrene_reactor.Prelude.{is_some, ◌&&◌, and_true, ◌∙◌, ap, some, true, ◌≡◌, String, Bool}
use cyrene_reactor.Product.Exec.{ok}
use cyrene_reactor.Product.Owner.Texts.{is_binding_id, required_string}
use cyrene_reactor.Product.Owner.Admission.{
  positive, is_value, validate_runtime_status, RuntimeStatus, String, Bool, Reading, read,
  live_status, needs, or_blocked, reading,
}
use cyrene_reactor.Product.Owner.Admission.Inversion.{
  bind-ok, ok_injective, needs-ok, or_blocked-ok, reading-ok,
}

-- A running binding, as one reading shows it.
abbrev pub IsRunning : Reading RuntimeStatus → String → RuntimeStatus → String → Type 0
IsRunning answer binding status installation =
    (answer ≡ read status)
    × (is_value status.binding_id binding ≡ true)
    × (is_value status.state "RUNNING" ≡ true)
    × (required_string status.installation_id ≡ some installation)

-- The test of `_validate_runtime_status`.
abbrev is_live : RuntimeStatus → String → String → Bool
is_live st binding id =
    is_value st.binding_id binding
    && is_value st.state "RUNNING"
    && is_binding_id id
    && is_some (positive st.generation)

validated :
    (st : RuntimeStatus) (binding id : String)
    → validate_runtime_status st binding ≡ ok id
    → (is_value st.binding_id binding ≡ true)
      × (is_value st.state "RUNNING" ≡ true)
      × (required_string st.installation_id ≡ some id)
unfolding validate_runtime_status
validated st binding id h =
    let (id', is_id, h₁) =
      bind-ok (or_blocked (required_string st.installation_id) "PACKAGE_RUNTIME_RECEIPT_INVALID") _
        id h in
    let (u, fine, h₂) =
      bind-ok (needs (is_live st binding id') "PACKAGE_RUNTIME_NOT_RUNNING") _ id h₁ in
    let (ref, is_ref, h₃) =
      bind-ok (or_blocked (required_string st.connection_ref) "PACKAGE_RUNTIME_RECEIPT_INVALID") _
        id h₂ in
    let (three, _) = and_true _ _ (needs-ok _ _ u fine) in
    let (two, _) =
      and_true (is_value st.binding_id binding && is_value st.state "RUNNING") _ three in
    let (bound, live) =
      and_true (is_value st.binding_id binding) (is_value st.state "RUNNING") two in
    (bound, live, or_blocked-ok _ _ id' is_id ∙ ap some (ok_injective id' id h₃))

pub live_status-IsRunning :
    (answer : Reading RuntimeStatus) (binding : String) (status : RuntimeStatus)
    (installation : String)
    → live_status answer binding ≡ ok (status, installation)
    → IsRunning answer binding status installation
unfolding live_status validate_runtime_status
live_status-IsRunning answer binding status installation h =
    let (st, is_st, h₁) =
      bind-ok (reading answer "PACKAGE_RUNTIME_RECEIPT_INVALID" "PACKAGE_RUNTIME_OWNER_READ_DENIED")
        _ _ h in
    let (id, valid, h₂) = bind-ok (validate_runtime_status st binding) _ _ h₁ in
    let same = ok_injective (st, id) (status, installation) h₂ in
    let same_status : st ≡ status = ap (λ (q : RuntimeStatus × String). q.0) same in
    let same_id : id ≡ installation = ap (λ (q : RuntimeStatus × String). q.1) same in
    let (bound, live, required) = validated st binding id valid in
    (
      reading-ok answer _ _ st is_st ∙ ap read same_status,
      rw same_status at bound,
      rw same_status at live,
      rw (same_status, same_id) at required,
    )
