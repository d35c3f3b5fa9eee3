-- ===== src/Executor/Rising.antt =====
-- How the fences that an executor of crates/workbench-runtime/src/executor.rs has recorded move.
use distributed_workbench.Base.{
  ℕ, suc, ◌≤◌, Str, bytes, true, not, Option, none, some, ◌≡◌, refl, arith, subst, Result, ok, err,
  ok_or, guard, >>=-eq-ok, ok_or-eq-ok, Bool-cases, Result-cases, inl, inr, ◌==◌, guard-eq-ok,
}
use distributed_workbench.Base.Map.{Map, lookup, insert, lookup-insert}
use distributed_workbench.Executor.{required_str}
use distributed_workbench.Executor.Fences.{
  FenceRecord, Enforced, check_workspace, check_one, check_all, is_workspace, key_of, u64_of,
  put_resource, record_all, persisted, enforce_fences, is_stale, is_over, is_zero, answer,
}
use distributed_workbench.Json.{Value, Values, nil, cons, get}
use distributed_workbench.Protocol.{RpcError}

abbrev pub fence_of : Option FenceRecord → ℕ
fence_of none = 0
fence_of (some r) = r.fence

-- The fence that is recorded under a key.
abbrev pub fence_at : Str → Map FenceRecord → ℕ
fence_at key records = fence_of (lookup key records)

-- An authority that has passed the tests: over a workspace, its fence is no less than the recorded
-- one.
pub record HasPassed (records : Map FenceRecord) (authority : Value) : Type 0 where
  pub controller_id : Str
  pub resource : Str
  pub named : required_str authority (bytes "controllerId") ≡ ok controller_id
  pub over : required_str authority (bytes "resource") ≡ ok resource
  pub fenced :
      is_workspace resource ≡ true
      → (fence : ℕ) × (u64_of (get authority (bytes "fence")) ≡ some fence)
        × (fence_at (key_of controller_id resource) records ≤ fence)

abbrev pub HavePassed : Map FenceRecord → Values → Type 0
HavePassed records nil = Unit {0}
HavePassed records (cons authority rest) = HasPassed records authority × HavePassed records rest

not_stale :
    (found : Option FenceRecord) (c : Str) (fence : ℕ)
    → not (is_stale found c fence) ≡ true
    → fence_of found ≤ fence
not_stale none c fence h = omega arith
not_stale (some current) c fence h = ground arith

check_workspace-fence :
    (records : Map FenceRecord) (authority : Value) (now : ℕ) (c key : Str) (u : Unit {0})
    → check_workspace records authority now c key ≡ ok u
    → (fence : ℕ) × (u64_of (get authority (bytes "fence")) ≡ some fence)
      × (fence_at key records ≤ fence)
unfolding check_workspace
check_workspace-fence records authority now c key u h =
    let first =
      >>=-eq-ok (guard (not (is_over (u64_of (get authority (bytes "expiresAt"))) now)) _) _ h in
    let second = >>=-eq-ok (ok_or (u64_of (get authority (bytes "fence"))) _) _ first.2 in
    let third = >>=-eq-ok (guard (not (is_zero second.0)) _) _ second.2 in
    (
      second.0,
      ok_or-eq-ok (u64_of (get authority (bytes "fence"))) _ second.1,
      not_stale (lookup key records) c second.0 (guard-eq-ok _ _ third.2),
    )

check_one-HasPassed :
    (records : Map FenceRecord) (authority : Value) (now : ℕ) (u : Unit {0})
    → check_one records authority now ≡ ok u
    → HasPassed records authority
unfolding check_one
check_one-HasPassed records authority now u h =
    let first = >>=-eq-ok (required_str authority (bytes "controllerId")) _ h in
    let second = >>=-eq-ok (required_str authority (bytes "resource")) _ first.2 in
    record {
      controller_id = first.0;
      resource = second.0;
      named = first.1;
      over = second.1;
      fenced = λ is_one.
          check_workspace-fence records authority now first.0 (key_of first.0 second.0) u
            (rw is_one at second.2);
    }

pub check_all-HavePassed :
    (records : Map FenceRecord) (clock : ℕ → ℕ) (n : ℕ) (authorities : Values) (u : Unit {0})
    → check_all records clock n authorities ≡ ok u
    → HavePassed records authorities
unfolding check_all
check_all-HavePassed records clock n nil u h = tt
check_all-HavePassed records clock n (cons a rest) u h =
    let first = >>=-eq-ok (check_one records a (clock n)) _ h in
    (
      check_one-HasPassed records a (clock n) first.0 first.1,
      check_all-HavePassed records clock (suc n) rest u first.2,
    )

-- A call returns, and no recorded fence has fallen.
abbrev pub Rises : Map FenceRecord → Option Enforced → Type 0
Rises records none = ⊥
Rises records (some o) = (key : Str) → fence_at key records ≤ fence_at key o.records

insert-rises :
    (records now : Map FenceRecord) (own : Str) (r : FenceRecord)
    → fence_at own records ≤ r.fence
    → ((key : Str) → fence_at key records ≤ fence_at key now)
    → (key : Str) → fence_at key records ≤ fence_at key (insert own r now)
insert-rises records now own r low risen key = elim (Bool-cases (own == key)) [
  | inl same ↦
      let e : own ≡ key = ground arith in
      rw (lookup-insert key own r now) (rw same (subst (λ x. fence_at x records ≤ r.fence) e low))
  | inr different ↦ rw (lookup-insert key own r now) (rw different (risen key))
]

-- Putting a fence that is not below the one at the start.
put_resource-rises :
    (records now : Map FenceRecord) (authority : Value) (p : HasPassed records authority)
    → ((key : Str) → fence_at key records ≤ fence_at key now)
    → (after : Map FenceRecord) × (put_resource authority p.controller_id p.resource now
        ≡ some after)
      × ((key : Str) → fence_at key records ≤ fence_at key after)
put_resource-rises records now authority p risen = elim (Bool-cases (is_workspace p.resource)) [
  | inr other ↦ (now, rw other refl, risen)
  | inl one ↦
      let f = p.fenced one in
      let own = key_of p.controller_id p.resource in
      let r : FenceRecord = record { controller_id = p.controller_id; fence = f.0 } in
      (insert own r now, rw one (rw f.1 refl), insert-rises records now own r f.2 risen)
]

-- The second loop does not panic, and it does not fail.
record_all-Rises :
    (records now : Map FenceRecord) (authorities : Values)
    → HavePassed records authorities
    → ((key : Str) → fence_at key records ≤ fence_at key now)
    → Rises records (record_all authorities now)
unfolding record_all
record_all-Rises records now nil h risen = risen
record_all-Rises records now (cons a rest) h risen =
    let put = put_resource-rises records now a h.0 risen in
    rw (h.0.named) (rw (h.0.over) (rw (put.1) (record_all-Rises records put.0 rest h.1 put.2)))

persisted-Rises :
    (records : Map FenceRecord) (save : Map FenceRecord → Result RpcError (Unit {0}))
    (o : Option Enforced)
    → Rises records o
    → Rises records (persisted save o)
persisted-Rises records save none h = h
persisted-Rises records save (some o) h = elim (Result-cases o.result) [
  | inl (e, failed) ↦ rw failed h
  | inr (u, fine) ↦ rw fine h
]

pub answer-Rises :
    (clock : ℕ → ℕ) (save : Map FenceRecord → Result RpcError (Unit {0}))
    (records : Map FenceRecord) (result : Result RpcError (Unit {0}))
    → Rises records (answer clock save records result)
answer-Rises clock save records result key = omega arith

pub enforce_fences-Rises :
    (clock : ℕ → ℕ) (save : Map FenceRecord → Result RpcError (Unit {0}))
    (records : Map FenceRecord) (authorities : Values)
    → Rises records (enforce_fences clock save records authorities)
unfolding enforce_fences
enforce_fences-Rises clock save records authorities =
    elim (Result-cases (check_all records clock 0 authorities)) [
      | inl (e, refused) ↦ rw (refused, enforce_fences) (answer-Rises clock save records (err e))
      | inr (u, fine) ↦
          rw (fine, enforce_fences)
            (persisted-Rises records save (record_all authorities records) (
              record_all-Rises records records authorities
                (check_all-HavePassed records clock 0 authorities u fine) (λ key. omega arith)))
    ]
