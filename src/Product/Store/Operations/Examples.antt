-- ===== src/Product/Store/Operations/Examples.antt =====
-- A completed package operation, and a late outcome for it.
use cyrene_reactor.Product.Receipts.{boolean, number, text, Receipt, RuntimeStatus}
use cyrene_reactor.Prelude.Table
use cyrene_reactor.Prelude.{false, none, true, [], ◌≡◌, ◌∷◌, some, refl}
use cyrene_reactor.Product.Store.{Receipt, RuntimeStatus, Store, Operation, OperationPhase, empty}
use cyrene_reactor.Product.Store.Operations.{
  package_runtime_operation, mark_package_runtime_unknown, persist_package_runtime_receipt,
  commit_package_runtime_outcome, complete_package_runtime_operation,
}
use cyrene_reactor.Product.Store.Operations.Lifecycle.{completed_is_final}

abbrev running : RuntimeStatus
running = record {
  binding_id = text "local";
  installation_id = text "i";
  state = text "RUNNING";
  connection_ref = text "cyrene-http-v1://127.0.0.1:8000";
  generation = number 1;
}

abbrev receipt : Receipt
receipt = record {
  is_dataclass = true;
  request_id = text "r1";
  source_id = text "cyrene-reactor";
  protocol_version = text "cyrene.runtime-maintenance.binding-operations.v1";
  catalog_generation = number 1;
  scope = none;
  operation_token = text "t";
  gate_generation = number 1;
  already_in_flight = boolean false;
  already_completed = boolean false;
}

abbrev finished : Operation
finished = record {
  request_id = "r1";
  binding_id = "local";
  package_id = "p";
  installation_id = "i";
  operation = "activate";
  phase = OperationPhase.completed;
  runtime_status = some running;
  receipt = some receipt;
  updated_at = 9;
}

abbrev store : Store
store = record empty { operations = finished ∷ [] }

finished_found : package_runtime_operation store "r1" ≡ some finished
unfolding package_runtime_operation Table.get
finished_found = refl

completed_is_final_example :
    (package_runtime_operation (mark_package_runtime_unknown "r1" 10 store).1 "r1" ≡ some finished)
    × (package_runtime_operation (persist_package_runtime_receipt "r1" receipt 10 store).1 "r1"
        ≡ some finished)
    × (package_runtime_operation
          (commit_package_runtime_outcome "r1" running receipt 10 store).1
          "r1"
        ≡ some finished)
    × (package_runtime_operation (complete_package_runtime_operation "r1" 10 store).1 "r1"
        ≡ some finished)
completed_is_final_example =
    completed_is_final store "r1" "r1" finished running receipt 10 finished_found refl
