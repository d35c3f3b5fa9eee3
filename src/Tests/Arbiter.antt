-- ===== src/Tests/Arbiter.antt =====
-- The arbitration of resources on concrete calls.
use distributed_workbench.Base.{
  ◌≡◌, ℕ, Str, bytes, List, [], ◌∷◌, some, none, true, refl, ok, err, arith, str_lt, Str-discrete,
  ℕ_discrete, false,
}
use distributed_workbench.Base.Map.{lookup, insert, remove}
use distributed_workbench.Base.Map.Without.{listed, remove_keys, member}
use distributed_workbench.Json.{Value, string, object, field, end, get, get_field, as_str}
use distributed_workbench.Protocol.{rpc_error}
use distributed_workbench.Resources.{
  Store, Env, open_file, persist, image, available, extend, still_executing, string_param,
}
use distributed_workbench.Resources.Arbitration.{IsSeparate, holders, run_events-IsSeparate}
use distributed_workbench.Resources.Commands.{command, change, lease_change, change_lease}
use distributed_workbench.Resources.Events.{
  Event, Executor, begins, drops, commands, run_events, react,
}
use distributed_workbench.Resources.Granting.{Authority, begin-Authority}
use distributed_workbench.Resources.Permits.{
  begin, claim, check_resource, check_resources, check_scopes, find_grant, sorted_distinct,
  activate, drop_permit,
}
use distributed_workbench.Resources.Restart.{begin_stranded}
use distributed_workbench.Lease

abbrev no_hash : Str → Str
no_hash s = s

abbrev opened : Store
opened = open_file (bytes "f") none

abbrev clock : Str → ℕ
clock key = 500

abbrev wanted : List Str
wanted = bytes "b" ∷ bytes "a" ∷ bytes "b" ∷ []

abbrev permit : List Str
permit = bytes "a" ∷ bytes "b" ∷ []

abbrev running : Store
running = (persist no_hash none (activate permit opened)).1

permit_granted : begin no_hash opened clock none wanted [] ≡ (ok permit, running)
unfolding begin claim check_resources check_resource check_scopes available find_grant extend lookup
    insert open_file persist Lease.get str_lt Str-discrete ℕ_discrete
permit_granted = refl

b_wanted : listed (bytes "b") wanted ≡ true
unfolding listed Str-discrete ℕ_discrete
b_wanted = refl

begin-Authority_example :
    (member (bytes "b") opened.resources.active ≡ false)
    × (member (bytes "b") opened.resources.quarantined ≡ false)
    × Authority no_hash opened.resources 500 (bytes "b") (find_grant (bytes "b") [])
begin-Authority_example =
    begin-Authority no_hash opened running clock none wanted [] permit (bytes "b") permit_granted
      b_wanted

wanted_checked : check_resources no_hash opened.resources clock [] (sorted_distinct wanted) ≡ ok tt
unfolding check_resources check_resource available find_grant extend lookup insert open_file
    Lease.get str_lt Str-discrete ℕ_discrete
wanted_checked = refl

begin_stranded_example :
    let (result, s') = begin no_hash opened clock (some (bytes "disk full")) wanted [] in
    (result ≡ err (rpc_error (bytes "RESOURCE_STATE_FAILED") (bytes "disk full")))
    × (s'.file ≡ opened.file)
    × (available s'.resources (bytes "b") ≡ err (still_executing (bytes "b")))
begin_stranded_example =
    begin_stranded no_hash opened clock (bytes "disk full") wanted [] (bytes "f") (bytes "b")
      wanted_checked (unfold check_scopes in refl) (unfold open_file in refl) b_wanted

abbrev idle : Executor
idle = record { store = opened; permits = [] }

idle-IsSeparate : IsSeparate idle
unfolding holders open_file lookup
idle-IsSeparate key = omega arith

abbrev acquire_b : Value
acquire_b = object (
    field (bytes "owner") (string (bytes "alice"))
      (field (bytes "resource") (string (bytes "b")) end))

abbrev env : Env
env = record { checked = 600; now = 600; id_uuid = bytes "i"; token_uuid = bytes "t"; io = none }

-- The second `begin` and the `acquire` are refused while the first permit is outstanding.
abbrev events : List Event
events =
    begins clock none wanted []
    ∷ begins clock none (bytes "b" ∷ bytes "c" ∷ []) []
    ∷ commands env (bytes "resource.lease.acquire") acquire_b
    ∷ drops 0 none
    ∷ begins clock none (bytes "c" ∷ []) []
    ∷ []

events_permits : (run_events no_hash idle events).permits ≡ (bytes "c" ∷ []) ∷ []
unfolding run_events react begin claim check_resources check_resource check_scopes available
    find_grant extend lookup insert remove remove_keys open_file persist image drop_permit command
    string_param change lease_change change_lease get get_field as_str Lease.get str_lt Str-discrete
    ℕ_discrete
events_permits = refl

run_events-IsSeparate_example : IsSeparate (run_events no_hash idle events)
run_events-IsSeparate_example = run_events-IsSeparate no_hash idle events idle-IsSeparate
