-- ===== src/Tests/Rules.antt =====
-- The rules of the controller on concrete values.
use distributed_workbench.Base.{
  ℕ, ◌≡◌, ◌≢◌, ◌<◌, Str, bytes, List, [], ◌∷◌, some, none, refl, ok, arith, inl, Str-discrete,
  ℕ_discrete,
}
use distributed_workbench.Controller.{
  executor_execution_fence, command_resources, command_names, command_resource, has_control,
}
use distributed_workbench.Controller.Fences.{executor_execution_fence-lt}
use distributed_workbench.Controller.Generations.{AreAllowed, generation_transition_allowed, moves}
use distributed_workbench.Json.{
  Value, string, array, object, nil, cons, end, field, get, get_field, as_str,
}
use distributed_workbench.Lease.{LeaseTable}
use distributed_workbench.Schema.Generation.{
  GenerationState, reserved, materializing, materialized, validated, failed,
}
use distributed_workbench.Schema.Handoff.{DriverHandoffRequest, requested}
use distributed_workbench.Schema.Lease.{Lease, resource}

abbrev stages : List GenerationState
stages = materializing ∷ materializing ∷ materialized ∷ validated ∷ []

stages-AreAllowed : AreAllowed reserved stages
unfolding generation_transition_allowed moves
stages-AreAllowed = (refl, (refl, (refl, (refl, tt))))

validated_good : validated ≢ failed
validated_good e = cc

executor_execution_fence-lt_example :
    executor_execution_fence 1000 70000 < executor_execution_fence 1001 2
executor_execution_fence-lt_example =
    executor_execution_fence-lt 1000 1001 70000 2 (omega arith) (inl (omega arith))

abbrev no_hash : Str → Str
no_hash s = s

-- Bob asked for Alice's workspace and waited too long.
abbrev request : DriverHandoffRequest
request = record {
  id = bytes "h";
  workspace_session_id = bytes "w";
  resource = bytes "workspace:w";
  requested_by = bytes "bob";
  previous_owner = some (bytes "alice");
  state = requested;
  created_at = 10;
  expires_at = 20;
  completed_at = none;
}

abbrev later_request : DriverHandoffRequest
later_request = record request { expires_at = 90 }

abbrev workspace_lease : Lease
workspace_lease = record {
  id = bytes "lease_a";
  kind = resource;
  resource = bytes "workspace:w";
  owner = bytes "alice";
  token = bytes "token_a";
  fence = 1;
  acquired_at = 5;
  updated_at = 10;
  expires_at = 500;
  handoff_to = some (bytes "bob");
}

abbrev held : LeaseTable
held = record {
  leases = (bytes "workspace:w", workspace_lease) ∷ [];
  fences = (bytes "workspace:w", 1) ∷ [];
}

abbrev clock : DriverHandoffRequest → ℕ
clock r = 31

abbrev input : Value
input = object (
    field (bytes "resources")
      (array (cons (string (bytes "gpu")) (cons (string (bytes "port:80")) nil))) end)

abbrev named : List Str
named = bytes "command:gpu" ∷ bytes "command:port:80" ∷ []

input_named : command_resources input ≡ ok named
unfolding command_resources command_names command_resource has_control get get_field as_str
    Str-discrete ℕ_discrete
input_named = refl
