-- ===== src/Product/Domain/Identity.antt =====
-- domain.py: `canonical_model_version`, `model_version_artifact` and the validator
-- `validate_model_identity` of `CreateDeploymentRequest`.
--
-- `sdk` stands for the Yield SDK: `from_dict` or `create`, then `to_dict`; `none` where it raises.
mod Examples
use mathlib.Core.Path.{subst}
use cyrene_reactor.Prelude.Keys.{nat_eq, string_eq, beq→eq, ◌==◌}
use cyrene_reactor.Product.Domain.{
  same_composition, is_full_model, NodeRef, CreateDeploymentRequest, ArtifactRef, ModelVersion,
  ModelComposition, Document,
}
use cyrene_reactor.Prelude.{
  Bool-cases, inl, inr, ◌∙◌, refl, ap, none, ◌||◌, some, arith, ◌&&◌, not, false, true, is_some,
  if◌then◌else◌, ◌≡◌, Bool, String, Option,
}

-- The refusals, by the prefix of their message.
pub data Invalid : Type 0 where
  model_version_invalid model_version_required model_composition_mismatch : Invalid
  model_artifact_mismatch : Invalid

pub data Checked (A : Type 0) : Type 0 where
  valid : A → Checked A
  invalid : Invalid → Checked A

infixl 5 ◌>>=◌
abbrev ◌>>=◌ : {A B : Type 0} → Checked A → (A → Checked B) → Checked B
valid a >>= f = f a
invalid e >>= f = invalid e

as_model_version : Option String → Option ModelComposition → Document → Checked ModelVersion
as_model_version (some id) (some composition) d = valid (record {
  id = id;
  composition = composition;
  full_model_artifact = d.full_model_artifact;
  base_model_artifact = d.base_model_artifact;
  body = d.body;
})
as_model_version none _ d = invalid model_version_invalid
as_model_version (some id) none d = invalid model_version_invalid

pub canonical_model_version : (Document → Option Document) → Document → Checked ModelVersion
unfolding as_model_version
canonical_model_version sdk value = elim (sdk value) [
  | none ↦ invalid model_version_invalid
  | some document ↦ as_model_version document.id document.composition document
]

pub artifact_at : ModelComposition → ModelVersion → Option ArtifactRef
artifact_at ModelComposition.full_model v = v.full_model_artifact
artifact_at ModelComposition.base_plus_lora v = v.base_model_artifact

pub model_version_artifact : ModelVersion → Checked ArtifactRef
unfolding artifact_at
model_version_artifact v = elim (artifact_at v.composition v) [
  | none ↦ invalid model_version_invalid
  | some artifact ↦ valid artifact
]

abbrev option_beq : Option String → Option String → Bool
option_beq none none = true
option_beq (some a) (some b) = a == b
option_beq _ _ = false

pub artifact_beq : ArtifactRef → ArtifactRef → Bool
artifact_beq a b =
    a.uri == b.uri
    && a.digest == b.digest
    && a.size_bytes == b.size_bytes
    && a.kind == b.kind
    && option_beq a.manifest_digest b.manifest_digest

option_beq→eq : (a b : Option String) → option_beq a b ≡ true → a ≡ b
option_beq→eq none none h = refl
option_beq→eq (some a) (some b) h = ap some (beq→eq a b h)
option_beq→eq none (some b) h = cc
option_beq→eq (some a) none h = cc

artifact_beq→eq : (a b : ArtifactRef) → artifact_beq a b ≡ true → a ≡ b
unfolding artifact_beq
artifact_beq→eq a b h = ground (
  arith,
  beq→eq a.uri b.uri,
  beq→eq a.digest b.digest,
  beq→eq a.size_bytes b.size_bytes,
  beq→eq a.kind b.kind,
  option_beq→eq a.manifest_digest b.manifest_digest,
)

-- A request body as it is parsed; `composition_set` is `"composition" in model_fields_set`.
pub record RequestBody : Type 0 where
  pub name : String
  pub model_artifact : Option ArtifactRef
  pub composition : ModelComposition
  pub composition_set : Bool
  pub model_version : Option Document
  pub serving_binding_id : String
  pub node_ref : Option NodeRef

abbrev disagrees : Option ArtifactRef → ArtifactRef → Bool
disagrees none projection = false
disagrees (some artifact) projection = not (artifact_beq artifact projection)

-- The end of the validator: the projection must match an artifact that was given.
project : Option ArtifactRef → ModelVersion → Checked ArtifactRef
project artifact v = do
  projection ← model_version_artifact v
  if disagrees artifact projection then invalid model_artifact_mismatch else valid projection

-- The composition that the request ends with: an explicit one must agree with the document, and
-- the default `FULL_MODEL` gives way to a composed document.
request_composition : ModelComposition → Bool → ModelComposition → Checked ModelComposition
request_composition given explicit version =
    if is_full_model given && not (is_full_model version)
    then (if explicit then invalid model_composition_mismatch else valid version)
    else if not (same_composition version given)
    then invalid model_composition_mismatch
    else valid given

build :
    RequestBody
    → Option ArtifactRef
    → ModelComposition
    → Option ModelVersion
    → CreateDeploymentRequest
build body artifact composition version = record {
  name = body.name;
  model_artifact = artifact;
  composition = composition;
  model_version = version;
  serving_binding_id = body.serving_binding_id;
  node_ref = body.node_ref;
}

validate_document :
    (Document → Option Document) → RequestBody → Option Document → Checked CreateDeploymentRequest
unfolding project request_composition build
validate_document sdk body none =
    if not (is_full_model body.composition) || not (is_some body.model_artifact)
    then invalid model_version_required
    else valid (build body body.model_artifact body.composition none)
validate_document sdk body (some document) = do
  canonical ← canonical_model_version sdk document
  composition ← request_composition body.composition body.composition_set canonical.composition
  projection ← project body.model_artifact canonical
  valid (build body (some projection) composition (some canonical))

-- `CreateDeploymentRequest.validate_model_identity`
pub validate_request : (Document → Option Document) → RequestBody → Checked CreateDeploymentRequest
unfolding validate_document
validate_request sdk body = validate_document sdk body body.model_version

-- What a request that passed says of itself.
abbrev pub Matches : Option ModelVersion → CreateDeploymentRequest → Type 0
Matches none r = r.composition ≡ ModelComposition.full_model
Matches (some v) r =
    (r.composition ≡ v.composition) × (artifact_at v.composition v ≡ r.model_artifact)

pub record IsIdentified (r : CreateDeploymentRequest) : Type 0 where
  pub has_artifact : is_some r.model_artifact ≡ true
  pub agrees : Matches r.model_version r

checked :
    {A B : Type 0} (m : Checked A) (f : A → Checked B) (b : B)
    → (m >>= f) ≡ valid b
    → (a : A) × (m ≡ valid a) × (f a ≡ valid b)
checked (valid a) f b e = (a, refl, e)
checked (invalid x) f b e = cc

valid_of : {A : Type 0} (a b : A) → valid a ≡ valid b → a ≡ b
valid_of a b e = cc

request_composition_lem :
    (given : ModelComposition) (explicit : Bool) (version c : ModelComposition)
    → request_composition given explicit version ≡ valid c
    → c ≡ version
unfolding request_composition
request_composition_lem ModelComposition.full_model explicit ModelComposition.full_model c e = cc
request_composition_lem ModelComposition.full_model true ModelComposition.base_plus_lora c e = cc
request_composition_lem ModelComposition.full_model false ModelComposition.base_plus_lora c e = cc
request_composition_lem ModelComposition.base_plus_lora explicit ModelComposition.full_model c e =
    cc
request_composition_lem ModelComposition.base_plus_lora explicit ModelComposition.base_plus_lora c
      e =
    cc

model_version_artifact_lem :
    (v : ModelVersion) (a : ArtifactRef)
    → model_version_artifact v ≡ valid a
    → artifact_at v.composition v ≡ some a
unfolding model_version_artifact
model_version_artifact_lem v a e = by_artifact (artifact_at v.composition v) e
  where
    by_artifact :
        (o : Option ArtifactRef)
        → (elim o [ none ↦ invalid model_version_invalid | some artifact ↦ valid artifact ])
          ≡ valid a
        → o ≡ some a
    by_artifact none e = cc
    by_artifact (some x) e = cc

project_lem :
    (given : Option ArtifactRef) (v : ModelVersion) (a : ArtifactRef)
    → project given v ≡ valid a
    → artifact_at v.composition v ≡ some a
unfolding project
project_lem given v a e =
    let (projection, found, agreed) = checked (model_version_artifact v) _ a e in
    elim (Bool-cases (disagrees given projection)) [
      | inl other ↦ absurd (cc (rw other at agreed))
      | inr same ↦ model_version_artifact_lem v a (found ∙ rw same at agreed)
    ]

is_full : (c : ModelComposition) → is_full_model c ≡ true → c ≡ ModelComposition.full_model
is_full ModelComposition.full_model h = refl
is_full ModelComposition.base_plus_lora h = cc

plain-IsIdentified :
    (body : RequestBody)
    → (not (is_full_model body.composition) || not (is_some body.model_artifact)) ≡ false
    → IsIdentified (build body body.model_artifact body.composition none)
unfolding build
plain-IsIdentified body h = record {
  has_artifact = ground (arith, h);
  agrees = is_full body.composition (ground (arith, h));
}

composed-IsIdentified :
    (body : RequestBody) (a : ArtifactRef) (c : ModelComposition) (v : ModelVersion)
    → c ≡ v.composition
    → artifact_at v.composition v ≡ some a
    → IsIdentified (build body (some a) c (some v))
unfolding build
composed-IsIdentified body a c v agreed projected = record {
  has_artifact = refl;
  agrees = (agreed, projected);
}

validate_document-IsIdentified :
    (sdk : Document → Option Document) (body : RequestBody) (o : Option Document)
    (r : CreateDeploymentRequest)
    → validate_document sdk body o ≡ valid r
    → IsIdentified r
unfolding validate_document
validate_document-IsIdentified sdk body none r e =
    elim (Bool-cases (not (is_full_model body.composition) || not (is_some body.model_artifact))) [
      | inl refused ↦ let no : invalid model_version_required ≡ valid r = rw refused at e in cc
      | inr passed ↦
          subst IsIdentified (valid_of _ r (rw passed at e)) (plain-IsIdentified body passed)
    ]
validate_document-IsIdentified sdk body (some document) r e =
    let (v, canonical, e₁) = checked (canonical_model_version sdk document) _ r e in
    let (c, agreed, e₂) =
      checked (request_composition body.composition body.composition_set v.composition) _ r e₁ in
    let (a, projected, e₃) = checked (project body.model_artifact v) _ r e₂ in
    subst IsIdentified (valid_of _ r e₃) (
      composed-IsIdentified body a c v
        (request_composition_lem body.composition body.composition_set v.composition c agreed)
        (project_lem body.model_artifact v a projected))

-- A request that validation lets through names its model: it has an artifact; without a document it
-- is a full model; and with one it has the document's composition and the document's artifact.
pub validate_request-IsIdentified :
    (sdk : Document → Option Document) (body : RequestBody) (r : CreateDeploymentRequest)
    → validate_request sdk body ≡ valid r
    → IsIdentified r
unfolding validate_request
validate_request-IsIdentified sdk body r e =
    validate_document-IsIdentified sdk body body.model_version r e
