-- ===== src/Product/Owner/Texts.antt =====
-- package_runtime_owner.py: the tests on texts and the decoding of a connection reference.
--
-- `isalnum` is `str.isalnum` of one code point and `urlsplit` is `urllib.parse.urlsplit` with the
-- attributes read off the result (`none` where it, or the attribute `port`, raises `ValueError`).
use cyrene_reactor.Prelude.Keys.{beq→eq, string_eq, nat_eq, ◌==◌}
use cyrene_reactor.Product.Receipts.{other, number, boolean, text, Value}
use cyrene_reactor.Prelude.{
  leb→le, inr, and_true, inl, Option-cases, Bool-cases, zero, ◌%◌, drop, ◌≤◌, is_some, ◌/◌, ltb,
  ◌||◌, ◌∷◌, refl, none, some, suc, if◌then◌else◌, not, ◌&&◌, length, leb, false, true, [], ◌≡◌,
  Bool, Option, List, ℕ, String,
}
use Prim.Native.Char.{code}
use Prim.Native.String.{◌∷◌, [], String, ◌++◌ as str_append}

-- The code points of a text.
abbrev pub codes : String → List ℕ
codes String.[] = []
codes (String.◌∷◌ c s) = code c ∷ codes s

abbrev pub all_of : (ℕ → Bool) → List ℕ → Bool
all_of p [] = true
all_of p (c ∷ cs) = p c && all_of p cs

abbrev pub any_of : (ℕ → Bool) → List ℕ → Bool
any_of p [] = false
any_of p (c ∷ cs) = p c || any_of p cs

abbrev pub between : ℕ → ℕ → ℕ → Bool
between low high c = leb low c && leb c high

abbrev contains : List ℕ → ℕ → Bool
contains [] c = false
contains (x ∷ xs) c = c == x || contains xs c

abbrev has_length : ℕ → ℕ → List ℕ → Bool
has_length low high cs = between low high (length cs)

-- `_is_safe_request_id`
unfoldable pub is_safe_request_id : (ℕ → Bool) → String → Bool
is_safe_request_id isalnum value =
    has_length 1 128 (codes value)
    && all_of (λ c. isalnum c || contains (codes "-_.:") c) (codes value)

-- `value.strip()` is not empty, where `isspace` is `str.isspace` of a code point.
unfoldable pub has_ink : (ℕ → Bool) → String → Bool
has_ink isspace value = any_of (λ c. not (isspace c)) (codes value)

abbrev is_digit : ℕ → Bool
is_digit = between b'0' b'9'

abbrev is_upper : ℕ → Bool
is_upper = between b'A' b'Z'

abbrev is_lower : ℕ → Bool
is_lower = between b'a' b'z'

-- `_safe_code`, and the regular expression [A-Z0-9_]{1,96} in it.
abbrev is_code : List ℕ → Bool
is_code cs = has_length 1 96 cs && all_of (λ c. is_upper c || is_digit c || c == b'_') cs

unfoldable pub safe_code : String → String
safe_code value = if is_code (codes value) then value else "PACKAGE_RUNTIME_OPERATION_FAILED"

-- `_BINDING_ID`: [A-Za-z0-9][a-z0-9_.-]{1,127}
abbrev matches_binding : List ℕ → Bool
matches_binding [] = false
matches_binding (c ∷ cs) =
    (is_upper c || is_lower c || is_digit c)
    && has_length 1 127 cs
    && all_of (λ x. is_lower x || is_digit x || contains (codes "_.-") x) cs

unfoldable pub is_binding_id : String → Bool
is_binding_id value = matches_binding (codes value)

-- `_PACKAGE_VERSION`: [A-Za-z0-9.+-]{1,128}
unfoldable pub is_package_version : String → Bool
is_package_version value =
    has_length 1 128 (codes value)
    && all_of (λ c. is_upper c || is_lower c || is_digit c || contains (codes ".+-") c)
        (codes value)

-- `_SHA256`: sha256:[0-9a-f]{64}
unfoldable pub is_sha256 : String → Bool
is_sha256 value =
    starts_with (codes "sha256:") (codes value)
    && has_length 64 64 (drop 7 (codes value))
    && all_of (λ c. is_digit c || between b'a' b'f' c) (drop 7 (codes value))
  where
    starts_with : List ℕ → List ℕ → Bool
    starts_with [] cs = true
    starts_with (p ∷ ps) [] = false
    starts_with (p ∷ ps) (c ∷ cs) = p == c && starts_with ps cs

-- `_required_string`: a text of 1 to 2048 characters, none of them a control character.
abbrev is_plain : List ℕ → Bool
is_plain cs = has_length 1 2048 cs && not (any_of (λ c. ltb c 32 || c == 127) cs)

unfoldable pub required_string : Value → Option String
required_string (text value) = if is_plain (codes value) then some value else none
required_string (boolean _) = none
required_string (number _) = none
required_string other = none

abbrev digit : ℕ → String
digit n =
    if n == 0
    then "0"
    else if n == 1
    then "1"
    else if n == 2
    then "2"
    else if n == 3
    then "3"
    else if n == 4
    then "4"
    else if n == 5
    then "5"
    else if n == 6
    then "6"
    else if n == 7
    then "7"
    else if n == 8
    then "8"
    else "9"

-- `f"{n}"`, on fuel: a number has no more digits than itself plus one.
digits : ℕ → ℕ → String
digits zero n = ""
digits (suc fuel) n =
    let before = digits fuel (n / 10) in
    if ltb n 10 then digit n else str_append before (digit (n % 10))

unfoldable pub decimal : ℕ → String
unfolding digits
decimal n = digits (suc n) n

pub record Url : Type 0 where
  pub scheme : String
  pub hostname : Option String
  pub port : Option ℕ
  pub username : Option String
  pub password : Option String
  pub path : String
  pub query : String
  pub fragment : String

abbrev is_host : Option String → Bool
is_host none = false
is_host (some host) = host == "127.0.0.1"

abbrev is_local : Url → Bool
is_local url =
    url.scheme == "cyrene-http-v1"
    && is_host url.hostname
    && not (is_some url.username)
    && not (is_some url.password)
    && url.path == ""
    && url.query == ""
    && url.fragment == ""

abbrev canonical : ℕ → String
canonical port = str_append "cyrene-http-v1://127.0.0.1:" (decimal port)

abbrev url_at : String → Url → Option ℕ → Option String
url_at ref url none = none
url_at ref url (some port) =
    if is_local url && between 1 65535 port && ref == canonical port
    then some (str_append "http://127.0.0.1:" (decimal port))
    else none

-- `control_url_from_connection_ref`; `none` where it raises
-- `PACKAGE_RUNTIME_CONNECTION_REF_INVALID`.
unfoldable pub control_url_from_connection_ref : (String → Option Url) → String → Option String
control_url_from_connection_ref urlsplit ref = elim (urlsplit ref) [
  | none ↦ none
  | some url ↦ url_at ref url url.port
]

-- A port and the references that stand for it.
abbrev pub IsPortOf : String → String → ℕ → Type 0
IsPortOf ref control_url port =
    (1 ≤ port)
    × (port ≤ 65535)
    × (ref ≡ canonical port)
    × (control_url ≡ str_append "http://127.0.0.1:" (decimal port))

url_at-IsPortOf :
    (ref control_url : String) (url : Url) (port : Option ℕ)
    → url_at ref url port ≡ some control_url
    → (n : ℕ) × IsPortOf ref control_url n
url_at-IsPortOf ref control_url url none h = cc
url_at-IsPortOf ref control_url url (some port) h =
    elim (Bool-cases (is_local url && between 1 65535 port && ref == canonical port)) [
      | inl accepted ↦
          let (ported, same) =
            and_true (is_local url && between 1 65535 port) (ref == canonical port) accepted in
          let (_, ranged) = and_true (is_local url) (between 1 65535 port) ported in
          let (low, high) = and_true (leb 1 port) (leb port 65535) ranged in
          (
            port,
            (
              leb→le 1 port low,
              leb→le port 65535 high,
              beq→eq ref (canonical port) same,
              url_of accepted,
            ),
          )
      | inr refused ↦ let no : none ≡ some control_url = rw refused at h in cc
    ]
  where
    url_of :
        (is_local url && between 1 65535 port && ref == canonical port) ≡ true
        → control_url ≡ str_append "http://127.0.0.1:" (decimal port)
    url_of accepted =
        let same : some (str_append "http://127.0.0.1:" (decimal port)) ≡ some control_url =
          rw accepted at h in
        cc

-- A control URL is given only for the canonical reference of a loopback port between 1 and 65535,
-- and it is that port's.
pub control_url-IsPortOf :
    (urlsplit : String → Option Url) (ref control_url : String)
    → control_url_from_connection_ref urlsplit ref ≡ some control_url
    → (port : ℕ) × IsPortOf ref control_url port
unfolding control_url_from_connection_ref
control_url-IsPortOf urlsplit ref control_url h = elim (Option-cases (urlsplit ref)) [
  | inl e ↦ let no : none ≡ some control_url = rw (e, control_url_from_connection_ref) at h in cc
  | inr (url, e) ↦
      url_at-IsPortOf ref control_url url url.port (rw (e, control_url_from_connection_ref) at h)
]

port_text : decimal 65535 ≡ "65535"
unfolding decimal
port_text = refl
