-- ===== src/Runtime/Authentication.antt =====
-- runtime/core/src/cy_exec/utils/auth.py: the token between gateway and worker.
--
-- The state is the module's `INTERNAL_TOKEN`. `normal` is `str.lower` followed by `str.strip`, the
-- hexadecimal text of a new UUID is an argument, and metadata are the pairs of the call, or `none`
-- where the context has none or raises. The two `verify_grpc_context` are one function, without
-- their log records: `aborted` is the call of `context.abort`, `passed` the result `True`.
mod Soundness
mod Examples
use cyrene_reactor.Prelude.Keys.{string_eq, ◌==◌}
use cyrene_reactor.Prelude.{
  ◌||◌, not, true, false, [], ◌∷◌, if◌then◌else◌, some, none, Option, Bool, List, String,
}
use Prim.Native.String.{◌++◌ as str_append}

pub record Environment : Type 0 where
  pub app_env : Option String
  pub allow_insecure : Option String
  pub normal : String → String

abbrev or_default : Option String → String → String
or_default none d = d
or_default (some value) d = value

unfoldable pub is_insecure_internal_token_allowed : Environment → Bool
is_insecure_internal_token_allowed env =
    let env_value = env.normal (or_default env.app_env "development") in
    let flag = env.normal (or_default env.allow_insecure "false") in
    not (env_value == "production") || (flag == "1" || flag == "true" || flag == "yes")

-- `expected_token or INTERNAL_TOKEN`
abbrev or_text : Option String → String → String
or_text none other = other
or_text (some value) other = if value == "" then other else value

abbrev pub header : String → String
header token = str_append "Bearer " token

unfoldable pub compare_token : Option String → String → Bool × String
compare_token none expected = (false, "Missing authorization token")
compare_token (some provided) expected =
    if provided == ""
    then (false, "Missing authorization token")
    else if provided == header expected
    then (true, "")
    else (false, "Invalid internal token")

unfoldable pub verify_token : Environment → String → Option String → Option String → Bool × String
verify_token env internal provided expected_token =
    let expected = or_text expected_token internal in
    if expected == ""
    then if is_insecure_internal_token_allowed env
      then (true, "")
      else (false, "Internal token required")
    else compare_token provided expected

-- `dict(metadata).get(key, None)`: of equal keys, the last one counts.
unfoldable pub extract_token_from_metadata : List (String × String) → String → Option String
extract_token_from_metadata [] key = none
extract_token_from_metadata ((k, v) ∷ rest) key =
    let later = extract_token_from_metadata rest key in
    elim later [ some w ↦ some w | none ↦ if k == key then some v else none ]

abbrev pub presented : Option (List (String × String)) → Option String
presented none = none
presented (some metadata) = extract_token_from_metadata metadata "authorization"

pub data Check : Type 0 where
  passed : Check
  aborted : String → Check

abbrev verdict : Bool × String → Check
verdict (true, message) = passed
verdict (false, message) = aborted message

unfoldable pub verify_grpc_context : Environment → String → Option (List (String × String)) → Check
verify_grpc_context env internal metadata =
    verdict (verify_token env internal (presented metadata) none)

-- The token that is returned, or `none` for the `RuntimeError`, and `INTERNAL_TOKEN` after it.
unfoldable pub get_internal_token : Environment → String → String → Option String × String
get_internal_token env hex internal =
    if not (internal == "")
    then (some internal, internal)
    else if is_insecure_internal_token_allowed env
    then (some hex, hex)
    else (none, internal)

-- Whether it returns, and does not raise.
unfoldable pub enforce_internal_token_policy : Environment → String → Bool
enforce_internal_token_policy env internal =
    if not (internal == "") then true else is_insecure_internal_token_allowed env

pub data Request : Type 0 where
  get : String → Request
  enforce : Request
  verify : Option (List (String × String)) → Request

pub data Outcome : Type 0 where
  token : Option String → Outcome
  policy : Bool → Outcome
  checked : Check → Outcome

unfoldable pub step : Environment → Request → String → Outcome × String
step env (get hex) internal =
    let (answer, after) = get_internal_token env hex internal in (token answer, after)
step env enforce internal = (policy (enforce_internal_token_policy env internal), internal)
step env (verify metadata) internal =
    (checked (verify_grpc_context env internal metadata), internal)

-- The calls of one process, with what each returned and the token that is left.
unfoldable pub run : Environment → List Request → String → List (Request × Outcome) × String
run env [] internal = ([], internal)
run env (r ∷ rs) internal =
    let (o, after) = step env r internal in
    let (log, last) = run env rs after in ((r, o) ∷ log, last)
