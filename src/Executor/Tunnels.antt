-- ===== src/Executor/Tunnels.antt =====
-- The ports of tunnels in `resource_dispatch` of crates/workbench-runtime/src/executor.rs.
use distributed_workbench.Base.{
  ℕ, Str, bytes, true, Option, none, some, ◌≡◌, refl, List, Result, ok, err, ◌++◌, ◌∷◌, false,
  arith, ◌≤◌, [], ◌∙◌, Bool, ok-injective, if◌then◌else◌, >>=-eq-ok, ◌==◌, sym, Str-discrete,
  ℕ_discrete, ap,
}
use distributed_workbench.Base.Map.{Map}
use distributed_workbench.Base.Map.Without.{listed, member}
use distributed_workbench.Controller.{command_resources}
use distributed_workbench.Executor.{
  required_port, CapabilityAuthority, as_u64, resource_lease, no_authority, workspace_driver,
  desktop_session,
}
use distributed_workbench.Executor.Dispatch.{
  Dispatched, operation_resources, run_action, with_locks, with_authority, port_of, last_resources,
  extended, resource_dispatch, grants_of,
}
use distributed_workbench.Executor.Fences.{FenceRecord, Enforced, array_of}
use distributed_workbench.Executor.Rendering.{
  Contract, render_authority_resource, canonical_name, joined,
}
use distributed_workbench.Json.{Value, get, number, unsigned, as_u64}
use distributed_workbench.Protocol.{RpcError}
use distributed_workbench.Resources.{decimal, Store}
use distributed_workbench.Resources.Arbitration.{IsSeparate, holders}
use distributed_workbench.Resources.Events.{Executor}
use distributed_workbench.Resources.Granting.{begin-refused}

joined-eq-ok :
    (first : Option (Result RpcError Str)) (rest : Option (Result RpcError (List Str)))
    (rs : List Str)
    → joined first rest ≡ some (ok rs)
    → (r : Str) × (ss : List Str) × (rest ≡ some (ok ss)) × (rs ≡ r ∷ ss)
joined-eq-ok none rest rs h = cc
joined-eq-ok (some (err e)) rest rs h = cc
joined-eq-ok (some (ok r)) none rs h = cc
joined-eq-ok (some (ok r)) (some (err e)) rs h = cc
joined-eq-ok (some (ok r)) (some (ok ss)) rs h = (r, ss, refl, cc)

-- A resource that is listed behind others is listed.
joined-listed :
    (key : Str) (first : Option (Result RpcError Str)) (rest : Option (Result RpcError (List Str)))
    (rs : List Str)
    → ((ss : List Str) → rest ≡ some (ok ss) → listed key ss ≡ true)
    → joined first rest ≡ some (ok rs)
    → listed key rs ≡ true
unfolding listed
joined-listed key first rest rs h e =
    let (r, ss, behind, whole) = joined-eq-ok first rest rs e in
    rw whole (ground (arith, h ss behind))

listed-behind : (key : Str) (rs : List Str) → listed key (rs ++ key ∷ []) ≡ true
unfolding listed
listed-behind key [] = ground arith
listed-behind key (r ∷ rs) = ground (arith, listed-behind key rs)

module _ (render : Str → Option (Result RpcError Str)) (executor_id : Str) where
  with_locks-listed :
      (key : Str) (locks : List Str) (last : Result RpcError (List Str)) (rs : List Str)
      → ((ss : List Str) → last ≡ ok ss → listed key ss ≡ true)
      → with_locks render executor_id locks last ≡ some (ok rs)
      → listed key rs ≡ true
  unfolding with_locks
  with_locks-listed key [] last rs h e = h rs cc
  with_locks-listed key (t ∷ ts) last rs h e =
      joined-listed key _ _ rs (λ ss e'. with_locks-listed key ts last ss h e') e

  with_authority-listed :
      (key : Str) (authority : CapabilityAuthority) (rest : Option (Result RpcError (List Str)))
      (rs : List Str)
      → ((ss : List Str) → rest ≡ some (ok ss) → listed key ss ≡ true)
      → with_authority render executor_id authority rest ≡ some (ok rs)
      → listed key rs ≡ true
  with_authority-listed key no_authority rest rs h e = h rs e
  with_authority-listed key workspace_driver rest rs h e = h rs e
  with_authority-listed key desktop_session rest rs h e = h rs e
  with_authority-listed key (resource_lease resource) rest rs h e = joined-listed key _ rest rs h e

-- The resource of a port of an executor.
abbrev pub port_key : Str → ℕ → Str
port_key executor_id port = bytes "port:" ++ (executor_id ++ (bytes ":" ++ decimal 20 port))

-- The parameters name a port in `bindPort`.
pub record BindsPort (params : Value) (port : ℕ) : Type 0 where
  pub named : get params (bytes "bindPort") ≡ some (number (unsigned port))
  pub positive : 1 ≤ port
  pub small : port ≤ 65535

required_port-BindsPort :
    (params : Value) (port : ℕ)
    → BindsPort params port
    → required_port params (bytes "bindPort") ≡ ok port
unfolding required_port as_u64
required_port-BindsPort params port b = rw (b.named) (ground (arith, b.positive, b.small))

port_of-eq-ok :
    (executor_id canonical : Str) (params : Value) (port : ℕ)
    → canonical ≡ bytes "tunnel.ensure"
    → BindsPort params port
    → port_of executor_id canonical params ≡ ok (port_key executor_id port ∷ [])
unfolding Str-discrete ℕ_discrete
port_of-eq-ok executor_id canonical params port ensures b =
    rw (ensures, required_port-BindsPort params port b) refl

last_resources-listed :
    (executor_id canonical : Str) (params : Value) (port : ℕ) (rs : List Str)
    → canonical ≡ bytes "tunnel.ensure"
    → BindsPort params port
    → last_resources executor_id canonical params ≡ ok rs
    → listed (port_key executor_id port) rs ≡ true
last_resources-listed executor_id canonical params port rs ensures b h =
    let (named, _, h1) =
      >>=-eq-ok (extended (canonical == bytes "command.run") (command_resources params)) _ h in
    let (ports, bound, h2) = >>=-eq-ok (port_of executor_id canonical params) _ h1 in
    let one : ports ≡ port_key executor_id port ∷ [] =
      ok-injective (sym bound ∙ port_of-eq-ok executor_id canonical params port ensures b) in
    rw (sym (ok-injective h2)) (rw one (listed-behind (port_key executor_id port) named))

operation_resources-listed :
    (render : Str → Option (Result RpcError Str)) (executor_id canonical : Str) (params : Value)
    (contract : Option Contract) (port : ℕ) (rs : List Str)
    → canonical ≡ bytes "tunnel.ensure"
    → BindsPort params port
    → operation_resources render executor_id canonical params contract ≡ some (ok rs)
    → listed (port_key executor_id port) rs ≡ true
unfolding operation_resources listed
operation_resources-listed render executor_id canonical params none port rs ensures b h =
    let bound : port_of executor_id canonical params ≡ ok rs = cc h in
    let one = sym (port_of-eq-ok executor_id canonical params port ensures b) ∙ bound in
    rw (sym (ok-injective one)) (ground arith)
operation_resources-listed render executor_id canonical params (some contract) port rs ensures b h =
    let key = port_key executor_id port in
    with_authority-listed render executor_id key contract.authority _ rs
      (λ ss e.
        with_locks-listed render executor_id key contract.locks
          (last_resources executor_id canonical params) ss
          (λ ts e'. last_resources-listed executor_id canonical params port ts ensures b e') e)
      h

-- The call gives an error, and neither the operation nor the store nor the fences have moved.
pub record IsRefused (s : Store) (records : Map FenceRecord) (d : Dispatched) : Type 0 where
  pub error : RpcError
  pub result : d.result ≡ err error
  pub unmoved : d.ran ≡ false
  pub store : d.store ≡ s
  pub fences : d.records ≡ records

-- What a call that is refused before it enforces its authority leaves.
unmoved-IsRefused :
    (s : Store) (records : Map FenceRecord) (e : RpcError)
    → IsRefused s records (record { store = s; records = records; ran = false; result = err e })
unmoved-IsRefused s records e = record {
  error = e;
  result = refl;
  unmoved = refl;
  store = refl;
  fences = refl;
}

dispatch-IsRefused :
    (sha : Str → Str) (clock : Str → ℕ) (at_begin at_drop : Option Str)
    (enforcing : Map FenceRecord → Option Enforced) (operation : Result RpcError Value) (s : Store)
    (records : Map FenceRecord) (params : Value) (found : Result RpcError (List Str)) (key : Str)
    → ((rs : List Str) → found ≡ ok rs → listed key rs ≡ true)
    → member key s.resources.active ≡ true
    → (d : Dispatched) × (resource_dispatch sha clock at_begin at_drop enforcing operation s records
          params
          (some found)
        ≡ some d)
      × IsRefused s records d
unfolding resource_dispatch
dispatch-IsRefused sha clock at_begin at_drop enforcing operation s records params (err e) key l
      taken =
    (_, refl, unmoved-IsRefused s records e)
dispatch-IsRefused sha clock at_begin at_drop enforcing operation s records params (ok rs) key l
      taken =
    let (e, refused) =
      begin-refused sha s clock at_begin rs
        (grants_of (array_of (get params (bytes "_resourceLeases")))) key (l rs refl) taken in
    (_, rw (refused, resource_dispatch) refl, unmoved-IsRefused s records e)

marked : (n : ℕ) (b : Bool) → n ≤ (if b then 1 else 0) → 1 ≤ n → b ≡ true
marked n true at_most at_least = refl
marked n false at_most at_least = absurd (omega (arith, at_most, at_least))

-- While an operation of the executor holds a port, a `tunnel.ensure` of the same executor on that port
-- whose resources are rendered within the rounds returns an error and changes neither the store nor
-- the fences, whatever its capability requires, whatever leases it presents, and whether or not the
-- files can be written.
pub tunnels-exclusive :
    (sha : Str → Str) (clock : Str → ℕ) (at_begin at_drop : Option Str) (to_string : Value → Str)
    (rounds : ℕ) (catalog : Str → Option Contract) (executor_id : Str) (readings : ℕ → ℕ)
    (save : Map FenceRecord → Result RpcError (Unit {0})) (operation : Result RpcError Value)
    (x : Executor) (records : Map FenceRecord) (action : Str) (params : Value) (port : ℕ)
    (rendered : Result RpcError (List Str))
    → IsSeparate x
    → 1 ≤ holders (port_key executor_id port) x.permits
    → canonical_name action ≡ bytes "tunnel.ensure"
    → BindsPort params port
    → operation_resources
        (λ template. render_authority_resource to_string rounds template params)
        executor_id
        (canonical_name action)
        params
        (catalog (canonical_name action))
      ≡ some rendered
    → (d : Dispatched) × (run_action sha clock at_begin at_drop to_string rounds catalog executor_id
          readings save operation x.store records action params
        ≡ some d)
      × IsRefused x.store records d
unfolding run_action
tunnels-exclusive sha clock at_begin at_drop to_string rounds catalog executor_id readings save
      operation x records action params port rendered separate held ensures binds ends =
    let key = port_key executor_id port in
    rw (ends, run_action)
      (dispatch-IsRefused sha clock at_begin at_drop _ operation x.store records params rendered key
        (λ resources is.
          operation_resources-listed
            (λ template. render_authority_resource to_string rounds template params) executor_id
            (canonical_name action) params (catalog (canonical_name action)) port resources ensures
            binds (ends ∙ ap some is))
        (marked (holders key x.permits) (member key x.store.resources.active) (separate key) held))
