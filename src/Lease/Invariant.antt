-- ===== src/Lease/Invariant.antt =====
-- The shape of the table: sorted, each lease under its own resource, no fence above the recorded one.
use distributed_workbench.Schema.Lease.{LeaseKind}
use native.Mathlib.Nat.{le_refl}
use distributed_workbench.Base.{
  none, Result-cases, ℕ, ◌≤◌, ◌≡◌, ◌∙◌, Str, some, arith, [], List, ◌∷◌, refl, inl, inr, Option,
}
use distributed_workbench.Base.Map.{lookup, insert, remove, lookup-insert, lookup-remove, Map}
use distributed_workbench.Base.Map.Order.{
  IsSorted, IsKeyed, insert-IsSorted, remove-IsSorted, insert-IsKeyed, remove-IsKeyed,
  lookup-IsKeyed,
}
use distributed_workbench.Lease.{
  LeaseTable, put, restore, remove_all, reap_expired, from_snapshot, take_handoff, acquire,
}
use distributed_workbench.Lease.Calls.{
  renews, requests, cancels, takes, releases, reaps, run, perform, after, Call, step, Op, acquires,
  hands_off,
}
use distributed_workbench.Lease.Cases.{
  acquire-eq-ok, take_handoff-eq-ok, renew_cases, handoff_cases, request_handoff_cases,
  cancel_handoff_cases, release_cases,
}
use distributed_workbench.Schema.Lease.{Lease}

abbrev pub resource_of : Lease → Str
resource_of l = l.resource

-- A fence of a lease is at most the one recorded for its resource.
abbrev pub Recorded : ℕ → Option ℕ → Type 0
Recorded f none = ⊥
Recorded f (some g) = f ≤ g

pub record IsValid (t : LeaseTable) : Type 0 where
  pub sorted : IsSorted t.leases
  pub fences_sorted : IsSorted t.fences
  pub keyed : IsKeyed resource_of t.leases
  pub fenced :
      (k : Str) (l : Lease) → lookup k t.leases ≡ some l → Recorded l.fence (lookup k t.fences)

-- A lease of the table, changed but for its resource and its fence.
pub put-IsValid :
    (t : LeaseTable) (r : Str) (l l' : Lease)
    → IsValid t
    → lookup r t.leases ≡ some l
    → l'.resource ≡ l.resource
    → l'.fence ≡ l.fence
    → IsValid (put t r l')
put-IsValid t r l l' v found same_resource same_fence = record {
  sorted = insert-IsSorted r l' t.leases v.sorted;
  fences_sorted = v.fences_sorted;
  keyed =
      insert-IsKeyed resource_of r l' t.leases
        (same_resource ∙ lookup-IsKeyed resource_of r t.leases l v.keyed found) v.keyed;
  fenced = λ k m e. ground (arith, lookup-insert k r l' t.leases, v.fenced k m, v.fenced r l found);
}

-- A lease granted with the fence that is recorded with it.
pub grant-IsValid :
    (t : LeaseTable) (r : Str) (l : Lease) (f : ℕ)
    → IsValid t
    → l.resource ≡ r
    → l.fence ≤ f
    → IsValid (record { leases = insert r l t.leases; fences = insert r f t.fences })
grant-IsValid t r l f v same_resource below = record {
  sorted = insert-IsSorted r l t.leases v.sorted;
  fences_sorted = insert-IsSorted r f t.fences v.fences_sorted;
  keyed = insert-IsKeyed resource_of r l t.leases same_resource v.keyed;
  fenced = λ k m e.
      ground (arith, lookup-insert k r l t.leases, lookup-insert k r f t.fences, v.fenced k m);
}

pub remove-IsValid :
    (t : LeaseTable) (r : Str) → IsValid t → IsValid (record t { leases = remove r t.leases })
remove-IsValid t r v = record {
  sorted = remove-IsSorted r t.leases v.sorted;
  fences_sorted = v.fences_sorted;
  keyed = remove-IsKeyed resource_of r t.leases v.keyed;
  fenced = λ k m e. ground (arith, lookup-remove k r t.leases, v.fenced k m);
}

remove_all-IsValid :
    (rs : List Str) (t : LeaseTable)
    → IsValid t
    → IsValid (record t { leases = (remove_all rs t.leases).1 })
unfolding remove_all
remove_all-IsValid [] t v = v
remove_all-IsValid (r ∷ rs) t v =
    ground (
      arith,
      remove_all-IsValid rs (record t { leases = remove r t.leases }) (remove-IsValid t r v),
    )

acquire-IsValid :
    (t : LeaseTable) (kind : LeaseKind) (r o : Str) (ttl now : ℕ) (id token : Str)
    → IsValid t
    → IsValid (after t (acquire t kind r o ttl now id token))
acquire-IsValid t kind r o ttl now id token v =
    elim (Result-cases (acquire t kind r o ttl now id token)) [
      | inl (x, e) ↦ rw e v
      | inr ((l, t'), e) ↦
          let facts = acquire-eq-ok t t' kind r o ttl now id token l e in
          rw (e, facts.5) (grant-IsValid t r l l.fence v facts.0 (le_refl l.fence))
    ]

take_handoff-IsValid :
    (t : LeaseTable) (r target : Str) (ttl now : ℕ) (token : Str)
    → IsValid t
    → IsValid (after t (take_handoff t r target ttl now token))
take_handoff-IsValid t r target ttl now token v =
    elim (Result-cases (take_handoff t r target ttl now token)) [
      | inl (x, e) ↦ rw e v
      | inr ((l, t'), e) ↦
          let facts = take_handoff-eq-ok t t' r target ttl now token l e in
          rw (e, facts.9)
            (grant-IsValid t r l l.fence v
              (facts.3 ∙ lookup-IsKeyed resource_of r t.leases facts.0 v.keyed facts.1)
              (le_refl l.fence))
    ]

reap_expired-IsValid : (t : LeaseTable) (now : ℕ) → IsValid t → IsValid (reap_expired t now).1
unfolding reap_expired
reap_expired-IsValid t now v = remove_all-IsValid _ t v

no_lease : (k : Str) (l : Lease) → lookup k [] ≡ some l → ⊥
unfolding lookup
no_lease k l e = cc

-- Every call, whether it succeeds or fails, keeps the table sorted by resource, each lease under
-- its own resource, and each lease's fence within the fence recorded for the resource.
pub perform-IsValid :
    (sha : Str → Str) (t : LeaseTable) (c : Call) (op : Op)
    → IsValid t
    → IsValid (perform sha t c op)
unfolding perform
perform-IsValid sha t c (acquires kind r o ttl) v = acquire-IsValid t kind r o ttl _ _ _ v
perform-IsValid sha t c (renews r o token ttl) v =
    renew_cases IsValid t v sha r o token ttl _ _ λ l e. put-IsValid t r l _ v e refl refl
perform-IsValid sha t c (hands_off r o token target) v =
    handoff_cases IsValid t v sha r o token target _ _ λ l e. put-IsValid t r l _ v e refl refl
perform-IsValid sha t c (requests r target) v =
    request_handoff_cases IsValid t v r target _ _ λ l e. put-IsValid t r l _ v e refl refl
perform-IsValid sha t c (cancels r target) v =
    cancel_handoff_cases IsValid t v r target _ λ l e. put-IsValid t r l _ v e refl refl
perform-IsValid sha t c (takes r target ttl) v = take_handoff-IsValid t r target ttl _ _ v
perform-IsValid sha t c (releases r o token) v =
    release_cases IsValid t v sha r o token _ (remove-IsValid t r v)
perform-IsValid sha t c reaps v = reap_expired-IsValid t c.now v

-- Every history of calls keeps the table sorted, each lease under its own resource, and each lease's
-- fence within the fence recorded for the resource.
pub run-IsValid :
    (sha : Str → Str) (t : LeaseTable) (cs : List Call) → IsValid t → IsValid (run sha t cs)
unfolding run
run-IsValid sha t [] v = v
run-IsValid sha t (c ∷ cs) v = run-IsValid sha (step sha t c) cs (perform-IsValid sha t c c.op v)

restore-IsValid : (ls : List Lease) (t : LeaseTable) → IsValid t → IsValid (restore ls t)
unfolding restore
restore-IsValid [] t v = v
restore-IsValid (l ∷ ls) t v =
    restore-IsValid ls _ (grant-IsValid t l.resource l _ v refl (omega arith))

-- Whatever leases a stored snapshot holds, the restored table is well formed.
pub from_snapshot-IsValid :
    (ls : List Lease) (fences : Map ℕ) → IsSorted fences → IsValid (from_snapshot ls fences)
unfolding from_snapshot
from_snapshot-IsValid ls fences s = restore-IsValid ls _ (record {
  sorted = tt;
  fences_sorted = s;
  keyed = tt;
  fenced = λ k l e. absurd (no_lease k l e);
})
