-- ===== src/Protocol.antt =====
-- crates/workbench-protocol/src/lib.rs: the envelopes of a call. The random identifier of a request
-- is an argument; the result of a response is serialized already.
pub mod Trace
use distributed_workbench.Base.{Str, bytes, Bool, true, false, Option, none, some, ◌++◌}
use distributed_workbench.Json.{Value, null}

abbrev pub rpc_version : Str
rpc_version = bytes "workbench.dev/v1"

pub record RpcError : Type 0 where
  pub code : Str
  pub message : Str
  pub retryable : Bool
  pub details : Value

-- `RpcError::new`
unfoldable pub rpc_error : (code message : Str) → RpcError
rpc_error code message = record {
  code = code;
  message = message;
  retryable = false;
  details = null;
}

pub record Request : Type 0 where
  pub api_version : Str
  pub request_id : Str
  pub correlation_id : Option Str
  pub parent_request_id : Option Str
  pub run_id : Option Str
  pub span_id : Option Str
  pub parent_span_id : Option Str
  pub agent_session_id : Option Str
  pub action : Str
  pub params : Value

-- `Request::new`
unfoldable pub new_request : (action : Str) → Value → (uuid : Str) → Request
new_request action params uuid = record {
  api_version = rpc_version;
  request_id = bytes "req_" ++ uuid;
  correlation_id = some (bytes "req_" ++ uuid);
  parent_request_id = none;
  run_id = none;
  span_id = none;
  parent_span_id = none;
  agent_session_id = none;
  action = action;
  params = params;
}

-- `option.unwrap_or_else(|| default)`
abbrev pub unwrap_or : Option Str → Str → Str
unwrap_or none d = d
unwrap_or (some s) d = s

-- `Request::child`
unfoldable pub child : Request → (action : Str) → Value → (uuid : Str) → Request
child parent action params uuid = record (new_request action params uuid) {
  correlation_id = some (unwrap_or parent.correlation_id parent.request_id);
  parent_request_id = some parent.request_id;
  run_id = parent.run_id;
  parent_span_id = parent.span_id;
  agent_session_id = parent.agent_session_id;
}

pub record Response : Type 0 where
  pub ok : Bool
  pub api_version : Str
  pub request_id : Str
  pub result : Option Value
  pub error : Option RpcError

unfoldable pub success : (request_id : Str) → Value → Response
success request_id result = record {
  ok = true;
  api_version = rpc_version;
  request_id = request_id;
  result = some result;
  error = none;
}

unfoldable pub failure : (request_id : Str) → RpcError → Response
failure request_id error = record {
  ok = false;
  api_version = rpc_version;
  request_id = request_id;
  result = none;
  error = some error;
}
