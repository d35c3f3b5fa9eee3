-- ===== src/Lease/Fencing.antt =====
-- Fencing: the fences granted on one resource rise, whatever happens in between.
use distributed_workbench.Base.{
  ℕ, ◌+◌, ◌≤◌, ◌<◌, Str, List, [], ◌∷◌, ◌++◌, arith, u64_mod, add_u64_exact, Result-cases, inl, inr,
}
use distributed_workbench.Base.Lists.{length}
use distributed_workbench.Base.Map.{lookup-insert, lookup}
use distributed_workbench.Lease.{
  LeaseTable, fence_of, take_handoff, acquire, or_default, reap_expired,
}
use distributed_workbench.Lease.Calls.{
  after, granted, perform, grants, run, grants_of, Call, Op, step, acquires, renews, hands_off,
  requests, cancels, takes, releases, reaps,
}
use distributed_workbench.Lease.Cases.{
  take_handoff-eq-ok, acquire-eq-ok, renew_cases, handoff_cases, request_handoff_cases,
  cancel_handoff_cases, release_cases,
}
use distributed_workbench.Lease.Invariant.{IsValid, perform-IsValid}
use distributed_workbench.Schema.Lease.{LeaseKind}

-- The recorded fences leave room for `n` more grants on every resource.
abbrev pub HasRoom : ℕ → LeaseTable → Type 0
HasRoom n t = (k : Str) → fence_of k t.fences + n < u64_mod

-- The fences `gs` rise, from above `low` and up to `high`.
abbrev pub Rises : ℕ → List ℕ → ℕ → Type 0
Rises low [] high = low ≤ high
Rises low (g ∷ gs) high = (low < g) × Rises g gs high

Rises-weaken :
    (low low' : ℕ) (gs : List ℕ) (high : ℕ) → low ≤ low' → Rises low' gs high → Rises low gs high
Rises-weaken low low' [] high h r = omega arith
Rises-weaken low low' (g ∷ gs) high h r = (omega arith, r.1)

Rises-append :
    (low : ℕ) (gs : List ℕ) (mid : ℕ) (hs : List ℕ) (high : ℕ)
    → Rises low gs mid
    → Rises mid hs high
    → Rises low (gs ++ hs) high
Rises-append low [] mid hs high r q = Rises-weaken low mid hs high r q
Rises-append low (g ∷ gs) mid hs high r q = (r.0, Rises-append g gs mid hs high r.1 q)

-- What one call does to the recorded fence of `k`, and what it grants there.
abbrev Moves : Str → LeaseTable → LeaseTable → List ℕ → Type 0
Moves k t t' gs =
    Rises (fence_of k t.fences) gs (fence_of k t'.fences)
    × (fence_of k t'.fences ≤ fence_of k t.fences + 1)

abbrev Still : Str → LeaseTable → LeaseTable → Type 0
Still k t t' = Moves k t t' []

still : (k : Str) (t : LeaseTable) → Still k t t
still k t = (omega arith, omega arith)

acquire-Moves :
    (k : Str) (t : LeaseTable) (kind : LeaseKind) (r o : Str) (ttl now : ℕ) (id token : Str)
    → fence_of r t.fences + 1 < u64_mod
    → let result = acquire t kind r o ttl now id token in
      Moves k t (after t result) (granted k r result)
acquire-Moves k t kind r o ttl now id token room =
    elim (Result-cases (acquire t kind r o ttl now id token)) [
      | inl (x, e) ↦ rw e (omega arith, omega arith)
      | inr ((l, t'), e) ↦
          let facts = acquire-eq-ok t t' kind r o ttl now id token l e in
          rw (e, facts.5)
            (ground (
              arith,
              facts.3,
              add_u64_exact (fence_of r t.fences) 1,
              lookup-insert k r l.fence t.fences,
            ))
    ]

take_handoff-Moves :
    (k : Str) (t : LeaseTable) (r target : Str) (ttl now : ℕ) (token : Str)
    → IsValid t
    → fence_of r t.fences + 1 < u64_mod
    → let result = take_handoff t r target ttl now token in
      Moves k t (after t result) (granted k r result)
take_handoff-Moves k t r target ttl now token v room =
    elim (Result-cases (take_handoff t r target ttl now token)) [
      | inl (x, e) ↦ rw e (omega arith, omega arith)
      | inr ((l, t'), e) ↦
          let facts = take_handoff-eq-ok t t' r target ttl now token l e in
          rw (e, facts.9)
            (ground (
              arith,
              facts.6,
              v.fenced r facts.0 facts.1,
              add_u64_exact (or_default (lookup r t.fences) facts.0.fence) 1,
              lookup-insert k r l.fence t.fences,
            ))
    ]

perform-Moves :
    (sha : Str → Str) (k : Str) (t : LeaseTable) (c : Call) (op : Op)
    → IsValid t
    → HasRoom 1 t
    → Moves k t (perform sha t c op) (grants_of k t c op)
unfolding perform grants_of reap_expired
perform-Moves sha k t c (acquires kind r o ttl) v room =
    acquire-Moves k t kind r o ttl _ _ _ (room r)
perform-Moves sha k t c (renews r o token ttl) v room =
    renew_cases (Still k t) t (still k t) sha r o token ttl _ _ λ l e. still k t
perform-Moves sha k t c (hands_off r o token target) v room =
    handoff_cases (Still k t) t (still k t) sha r o token target _ _ λ l e. still k t
perform-Moves sha k t c (requests r target) v room =
    request_handoff_cases (Still k t) t (still k t) r target _ _ λ l e. still k t
perform-Moves sha k t c (cancels r target) v room =
    cancel_handoff_cases (Still k t) t (still k t) r target _ λ l e. still k t
perform-Moves sha k t c (takes r target ttl) v room =
    take_handoff-Moves k t r target ttl _ _ v (room r)
perform-Moves sha k t c (releases r o token) v room =
    release_cases (Still k t) t (still k t) sha r o token _ (still k t)
perform-Moves sha k t c reaps v room = (omega arith, omega arith)

-- Through any history that does not exhaust a 64-bit counter, the fences granted on a resource,
-- by `acquire` and by `take_handoff`, strictly rise, from above the fence recorded before the
-- history and up to the one recorded after it.
pub grants-Rises :
    (sha : Str → Str) (k : Str) (t : LeaseTable) (cs : List Call)
    → IsValid t
    → HasRoom (length cs) t
    → Rises (fence_of k t.fences) (grants sha k t cs) (fence_of k (run sha t cs).fences)
unfolding grants run
grants-Rises sha k t [] v room = omega arith
grants-Rises sha k t (c ∷ cs) v room =
    let moves = λ (j : Str). perform-Moves sha j t c c.op v (λ i. ground (arith, room i)) in
    Rises-append _ (grants_of k t c c.op) _ (grants sha k (step sha t c) cs) _ (moves k).0 (
      grants-Rises sha k (step sha t c) cs (perform-IsValid sha t c c.op v)
        (λ j. omega (arith, (moves j).1, room j)))
