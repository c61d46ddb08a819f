-- ===== src/Product/Receipts.antt =====
-- What the package runtime's SDK hands to package_runtime_owner.py: runtime statuses, installations
-- and the receipts of binding operations, as far as the owner reads them.
use cyrene_reactor.Prelude.{ℕ, Bool, String, Option, List}

-- A field's value; `other` is any other value, a missing one and a negative number included.
pub data Value : Type 0 where
  text : String → Value
  boolean : Bool → Value
  number : ℕ → Value
  other : Value

pub record RuntimeStatus : Type 0 where
  pub binding_id : Value
  pub installation_id : Value
  pub state : Value
  pub connection_ref : Value
  pub generation : Value

-- `capabilities` is `none` where it is no list, `manifest_digest` is the field of `verification`.
pub record Installation : Type 0 where
  pub installation_id : Value
  pub package_id : Value
  pub package_version : Value
  pub state : Value
  pub record_version : Value
  pub capabilities : Option (List Value)
  pub has_verification : Bool
  pub manifest_digest : Value
  pub artifact_digest : Value
  pub archive_digest : Value

pub record Scope : Type 0 where
  pub binding_id : String
  pub package_id : String
  pub installation_id : String
  pub operation : String

-- `is_dataclass`: `dataclasses.asdict` accepts it.
pub record Receipt : Type 0 where
  pub is_dataclass : Bool
  pub request_id : Value
  pub source_id : Value
  pub protocol_version : Value
  pub catalog_generation : Value
  pub scope : Option Scope
  pub operation_token : Value
  pub gate_generation : Value
  pub already_in_flight : Value
  pub already_completed : Value
