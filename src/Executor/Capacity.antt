-- ===== src/Executor/Capacity.antt =====
-- `ExecutionCapacity` of crates/workbench-runtime/src/executor.rs: how many operations of each class
-- run at a time.
use distributed_workbench.Base.{
  ℕ, zero, suc, ◌+◌, ◌-◌, ◌≤◌, Str, bytes, true, Option, none, some, ◌≡◌, refl, arith,
  if◌then◌else◌, List, [], ◌∷◌, ◌++◌, Result, ok, err, leb, inl, inr, Option-cases, sym,
}
use distributed_workbench.Executor.{
  ExecutionClass, control, probe, readonly, mutating, execution_class,
}
use distributed_workbench.Json.{Value}
use distributed_workbench.Protocol.{RpcError, rpc_error}
use distributed_workbench.Resources.{decimal}

pub record CapacityPool : Type 0 where
  pub maximum : ℕ
  pub active : ℕ

pub record ExecutionCapacity : Type 0 where
  pub mutating_pool : CapacityPool
  pub readonly_pool : CapacityPool
  pub probes : CapacityPool

abbrev executor_busy : ℕ → RpcError
executor_busy maximum =
    record (rpc_error (bytes "EXECUTOR_BUSY")
      (bytes "executor concurrency limit " ++ (decimal 20 maximum ++ bytes " reached"))) {
        retryable = true;
      }

-- `CapacityPool::try_acquire`, and the drop of a permit.
unfoldable pub take_one : CapacityPool → Result RpcError CapacityPool
take_one p =
    if leb p.maximum p.active
    then err (executor_busy p.maximum)
    else ok (record p { active = p.active + 1 })

unfoldable pub give_back : CapacityPool → CapacityPool
give_back p = record p { active = p.active - 1 }

abbrev mutating_of :
    ExecutionCapacity → Result RpcError CapacityPool → Result RpcError ExecutionCapacity
mutating_of c (err e) = err e
mutating_of c (ok p) = ok (record c { mutating_pool = p })

abbrev readonly_of :
    ExecutionCapacity → Result RpcError CapacityPool → Result RpcError ExecutionCapacity
readonly_of c (err e) = err e
readonly_of c (ok p) = ok (record c { readonly_pool = p })

abbrev probes_of :
    ExecutionCapacity → Result RpcError CapacityPool → Result RpcError ExecutionCapacity
probes_of c (err e) = err e
probes_of c (ok p) = ok (record c { probes = p })

-- `ExecutionCapacity::try_acquire`; a control action takes no place.
unfoldable pub try_acquire : ExecutionCapacity → ExecutionClass → Result RpcError ExecutionCapacity
try_acquire c control = ok c
try_acquire c probe = probes_of c (take_one c.probes)
try_acquire c readonly = readonly_of c (take_one c.readonly_pool)
try_acquire c mutating = mutating_of c (take_one c.mutating_pool)

-- The drop of the permit of an operation of that class.
unfoldable pub drop_of : ExecutionClass → ExecutionCapacity → ExecutionCapacity
drop_of control c = c
drop_of probe c = record c { probes = give_back c.probes }
drop_of readonly c = record c { readonly_pool = give_back c.readonly_pool }
drop_of mutating c = record c { mutating_pool = give_back c.mutating_pool }

-- An executor with the operations that run, the latest first.
pub record Running : Type 0 where
  pub capacity : ExecutionCapacity
  pub operations : List ExecutionClass

-- An operation comes, or the operation with this number among those that run ends.
pub data Turn : Type 0 where
  coming : (action : Str) → (params : Value) → Turn
  ending : ℕ → Turn

abbrev started : Running → ExecutionClass → Result RpcError ExecutionCapacity → Running
started r class (err e) = r
started r class (ok c) = record { capacity = c; operations = class ∷ r.operations }

-- The n-th operation, and the others.
abbrev pick : ℕ → List ExecutionClass → Option (ExecutionClass × List ExecutionClass)
pick n [] = none
pick zero (c ∷ cs) = some (c, cs)
pick (suc n) (c ∷ cs) = elim (pick n cs) [ none ↦ none | some found ↦ some (found.0, c ∷ found.1) ]

abbrev ended : Running → Option (ExecutionClass × List ExecutionClass) → Running
ended r none = r
ended r (some (class, rest)) = record { capacity = drop_of class r.capacity; operations = rest }

unfoldable pub turn : Turn → Running → Running
turn (coming action params) r =
    started r (execution_class action params)
      (try_acquire r.capacity (execution_class action params))
turn (ending n) r = ended r (pick n r.operations)

unfoldable pub turns : List Turn → Running → Running
turns [] r = r
turns (t ∷ ts) r = turns ts (turn t r)

abbrev is_mutating : ExecutionClass → ℕ
is_mutating mutating = 1
is_mutating control = 0
is_mutating probe = 0
is_mutating readonly = 0

abbrev is_readonly : ExecutionClass → ℕ
is_readonly readonly = 1
is_readonly control = 0
is_readonly probe = 0
is_readonly mutating = 0

abbrev is_probe : ExecutionClass → ℕ
is_probe probe = 1
is_probe control = 0
is_probe readonly = 0
is_probe mutating = 0

abbrev pub total : (ExecutionClass → ℕ) → List ExecutionClass → ℕ
total f [] = 0
total f (c ∷ cs) = f c + total f cs

-- The places that are taken are those of the operations that run, and there are not too many.
pub record IsCounted (r : Running) : Type 0 where
  pub mutating_count : r.capacity.mutating_pool.active ≡ total is_mutating r.operations
  pub readonly_count : r.capacity.readonly_pool.active ≡ total is_readonly r.operations
  pub probe_count : r.capacity.probes.active ≡ total is_probe r.operations
  pub mutating_bound : total is_mutating r.operations ≤ r.capacity.mutating_pool.maximum
  pub readonly_bound : total is_readonly r.operations ≤ r.capacity.readonly_pool.maximum
  pub probe_bound : total is_probe r.operations ≤ r.capacity.probes.maximum

total-pick :
    (f : ExecutionClass → ℕ) (n : ℕ) (cs : List ExecutionClass) (class : ExecutionClass)
    (rest : List ExecutionClass)
    → pick n cs ≡ some (class, rest)
    → total f cs ≡ f class + total f rest
total-pick f n [] class rest h = cc
total-pick f zero (c ∷ cs) class rest h =
    let same : c ≡ class = cc in let others : cs ≡ rest = cc in rw (same, others) refl
total-pick f (suc n) (c ∷ cs) class rest h = elim (Option-cases (pick n cs)) [
  | inl none_there ↦ cc (rw none_there at h)
  | inr (found, there) ↦
      let e = rw there at h in
      let ih = total-pick f n cs found.0 found.1 there in
      let one : found.0 ≡ class = cc in
      let others : c ∷ found.1 ≡ rest = cc in rw (sym others, sym one) (omega (arith, ih))
]

started-IsCounted :
    (r : Running) (class : ExecutionClass)
    → IsCounted r
    → IsCounted (started r class (try_acquire r.capacity class))
unfolding try_acquire take_one
started-IsCounted r control h =
    let a = h.mutating_count in
    let b = h.readonly_count in
    let c = h.probe_count in
    let d = h.mutating_bound in let e = h.readonly_bound in let f = h.probe_bound in ground arith
started-IsCounted r probe h = ground (arith, h)
started-IsCounted r readonly h = ground (arith, h)
started-IsCounted r mutating h = ground (arith, h)

dropped-IsCounted :
    (c : ExecutionCapacity) (class : ExecutionClass) (rest before : List ExecutionClass)
    → total is_mutating before ≡ is_mutating class + total is_mutating rest
    → total is_readonly before ≡ is_readonly class + total is_readonly rest
    → total is_probe before ≡ is_probe class + total is_probe rest
    → IsCounted record { capacity = c; operations = before }
    → IsCounted record { capacity = drop_of class c; operations = rest }
unfolding drop_of give_back
dropped-IsCounted c control rest before i j k h = ground (arith, h)
dropped-IsCounted c probe rest before i j k h = ground (arith, h)
dropped-IsCounted c readonly rest before i j k h = ground (arith, h)
dropped-IsCounted c mutating rest before i j k h = ground (arith, h)

turn-IsCounted : (t : Turn) (r : Running) → IsCounted r → IsCounted (turn t r)
unfolding turn
turn-IsCounted (coming action params) r h = started-IsCounted r (execution_class action params) h
turn-IsCounted (ending n) r h = elim (Option-cases (pick n r.operations)) [
  | inl none_there ↦ rw (none_there, turn) h
  | inr ((class, rest), there) ↦
      rw (there, turn)
        (dropped-IsCounted r.capacity class rest r.operations
          (total-pick is_mutating n r.operations class rest there)
          (total-pick is_readonly n r.operations class rest there)
          (total-pick is_probe n r.operations class rest there) h)
]

-- Whatever operations come and end, in any order: the places taken in each pool are those of the
-- operations of its class that run, and there are never more of them than the pool has.
pub turns-IsCounted : (ts : List Turn) (r : Running) → IsCounted r → IsCounted (turns ts r)
unfolding turns
turns-IsCounted [] r h = h
turns-IsCounted (t ∷ ts) r h = turns-IsCounted ts (turn t r) (turn-IsCounted t r h)
