-- ===== src/Product/Service/Samples.antt =====
-- A host whose engine answers every start with the same process.
use cyrene_reactor.Product.Errors.{foreign}
use cyrene_reactor.Product.Exec.{err, ok}
use cyrene_reactor.Product.Domain.{EngineHandle}
use cyrene_reactor.Prelude.{◌+◌, some, none, true, String, [], Option}
use cyrene_reactor.Product.Service.{foreign, ok, EngineHandle, [], Option, State, Host, Engine}
use cyrene_reactor.Product.Store.{empty}

-- The process says that it loaded `id`.
abbrev pub loaded : Option String → EngineHandle
loaded id = record {
  execution_ref = "run-1";
  endpoint_url = "http://node";
  model = some "chat";
  model_version_id = id;
}

abbrev pub engine_that_loads : Option String → Engine
engine_that_loads id = record {
  accepts = λ k. true;
  on_prepare = λ calls. ok none;
  on_start = λ calls. ok (loaded id);
  on_verify = none;
  on_inspect = λ calls. ok (record { ready = true; detail = "" });
  on_stop = λ calls. ok tt;
  on_import = λ calls. err (foreign 0);
  on_diagnostics = none;
}

abbrev pub host_that_loads : Option String → Host
host_that_loads id = record {
  engine = engine_that_loads id;
  engines = none;
  activity_source = none;
  grants = [];
  now = λ n. n + 5;
  new_id = λ n. n + 4;
  isoformat = λ n. "t";
  request_hash = λ command. "h";
  import_hash = λ command. "h";
  scope_hash = λ scope. "s";
}

abbrev pub at_start : State
at_start = record { store = empty; calls = []; clock = 0; drawn = 0 }
