-- ===== src/Tests/Dispatching.antt =====
-- A tunnel that an executor opens on its own resources.
use distributed_workbench.Base.{
  Str, bytes, true, Option, none, some, ◌≡◌, refl, List, [], ◌∷◌, Result, ok, Str-discrete,
  ℕ_discrete, starts_with, str_lt, false, arith, err, ◌≤◌,
}
use distributed_workbench.Base.Map.{lookup, insert, remove}
use distributed_workbench.Base.Map.Without.{remove_keys, listed}
use distributed_workbench.Base.Replace.{replace, replace_from, split_once}
use distributed_workbench.Controller.Locks.{find_open, lock_text}
use distributed_workbench.Executor.{resource_lease, required_port}
use distributed_workbench.Executor.Dispatch.{
  Dispatched, run_action, operation_resources, with_locks, resource_dispatch,
}
use distributed_workbench.Executor.Fences.{enforce_authority, enforce_contract}
use distributed_workbench.Executor.Rendering.{
  Contract, canonical_name, render_authority_resource, authority_loop, fill,
}
use distributed_workbench.Executor.Tunnels.{port_key, BindsPort, tunnels-exclusive, IsRefused}
use distributed_workbench.Json.{
  Value, number, string, object, end, field, unsigned, get, get_field, as_str, as_u64,
}
use distributed_workbench.Json.Objects.{as_array}
use distributed_workbench.Lease.{default_table}
use distributed_workbench.Protocol.{RpcError}
use distributed_workbench.Resources.{Store, persist, available, extend, decimal, still_executing}
use distributed_workbench.Resources.Arbitration.{holders, IsSeparate}
use distributed_workbench.Resources.Events.{Executor}
use distributed_workbench.Resources.Permits.{
  begin, claim, check_resource, check_resources, check_scopes, find_grant, drop_permit,
}
use distributed_workbench.Lease

abbrev store : Store
store = record {
  resources = record { table = default_table; active = []; quarantined = []; path = none };
  file = none;
}

abbrev tunnel : Value
tunnel = object (
    field (bytes "bindPort") (number (unsigned 80))
      (field (bytes "tunnelId") (string (bytes "t1")) end))

abbrev catalog : Str → Option Contract
catalog name = some (record { authority = resource_lease (bytes "tunnel:${tunnelId}"); locks = [] })

abbrev opened : Result RpcError Value
opened = ok (string (bytes "ready"))

abbrev done : Dispatched
done = record { store = store; records = []; ran = true; result = opened }

abbrev resources : List Str
resources = bytes "tunnel:t1" ∷ bytes "port:ex:80" ∷ []

tunnel_resources :
    operation_resources
      (λ template. render_authority_resource (λ v. bytes "0") 2 template tunnel)
      (bytes "ex")
      (canonical_name (bytes "tunnel.ensure"))
      tunnel
      (catalog (canonical_name (bytes "tunnel.ensure")))
    ≡ some (ok resources)
unfolding operation_resources with_locks render_authority_resource authority_loop fill
    canonical_name required_port find_open lock_text split_once replace replace_from decimal get
    get_field as_u64 as_str starts_with Str-discrete ℕ_discrete
tunnel_resources = refl

tunnel_ran :
    run_action
      (λ s. s)
      (λ key. 500)
      none
      none
      (λ v. bytes "0")
      2
      catalog
      (bytes "ex")
      (λ n. 500)
      (λ records. ok tt)
      opened
      store
      []
      (bytes "tunnel.ensure")
      tunnel
    ≡ some done
unfolding run_action resource_dispatch begin claim check_resources check_resource check_scopes
    available find_grant extend persist drop_permit enforce_authority enforce_contract
    canonical_name lookup insert remove remove_keys Lease.get get get_field as_array starts_with
    str_lt Str-discrete ℕ_discrete
tunnel_ran = rw tunnel_resources refl

-- The tunnel runs, and another one to the same port is asked for.
abbrev busy : Executor
busy = record {
  store = record store {
    resources = record store.resources {
      active = (bytes "port:ex:80", tt) ∷ (bytes "tunnel:t1", tt) ∷ [];
    };
  };
  permits = resources ∷ [];
}

busy-IsSeparate : IsSeparate busy
unfolding holders listed lookup
busy-IsSeparate key = ground arith

port_held : 1 ≤ holders (port_key (bytes "ex") 80) busy.permits
unfolding holders listed Str-discrete ℕ_discrete decimal
port_held = omega arith

abbrev second : Value
second = object (
    field (bytes "bindPort") (number (unsigned 80))
      (field (bytes "tunnelId") (string (bytes "t2")) end))

second-BindsPort : BindsPort second 80
unfolding get get_field Str-discrete ℕ_discrete
second-BindsPort = record { named = refl; positive = omega arith; small = omega arith }

abbrev denied : Dispatched
denied = record {
  store = busy.store;
  records = [];
  ran = false;
  result = err (still_executing (bytes "port:ex:80"));
}

second_resources :
    operation_resources
      (λ template. render_authority_resource (λ v. bytes "0") 2 template second)
      (bytes "ex")
      (canonical_name (bytes "tunnel.ensure"))
      second
      (catalog (canonical_name (bytes "tunnel.ensure")))
    ≡ some (ok (bytes "tunnel:t2" ∷ bytes "port:ex:80" ∷ []))
unfolding operation_resources with_locks render_authority_resource authority_loop fill
    canonical_name required_port find_open lock_text split_once replace replace_from decimal get
    get_field as_u64 as_str starts_with Str-discrete ℕ_discrete
second_resources = refl

port_taken :
    run_action
      (λ s. s)
      (λ key. 500)
      none
      none
      (λ v. bytes "0")
      2
      catalog
      (bytes "ex")
      (λ n. 500)
      (λ records. ok tt)
      opened
      busy.store
      []
      (bytes "tunnel.ensure")
      second
    ≡ some denied
unfolding run_action resource_dispatch begin claim check_resources check_resource check_scopes
    available find_grant extend persist drop_permit enforce_authority enforce_contract
    canonical_name lookup insert remove remove_keys Lease.get get get_field as_array starts_with
    str_lt Str-discrete ℕ_discrete
port_taken = rw second_resources refl

ensures : canonical_name (bytes "tunnel.ensure") ≡ bytes "tunnel.ensure"
unfolding canonical_name Str-discrete ℕ_discrete
ensures = refl

tunnels-exclusive_example :
    (d : Dispatched) × (run_action
        (λ s. s)
        (λ key. 500)
        none
        none
        (λ v. bytes "0")
        2
        catalog
        (bytes "ex")
        (λ n. 500)
        (λ records. ok tt)
        opened
        busy.store
        []
        (bytes "tunnel.ensure")
        second
      ≡ some d)
    × IsRefused busy.store [] d
tunnels-exclusive_example =
    tunnels-exclusive (λ s. s) (λ key. 500) none none (λ v. bytes "0") 2 catalog (bytes "ex")
      (λ n. 500) (λ records. ok tt) opened busy [] (bytes "tunnel.ensure") second 80
      (ok (bytes "tunnel:t2" ∷ bytes "port:ex:80" ∷ [])) busy-IsSeparate port_held ensures
      second-BindsPort second_resources
