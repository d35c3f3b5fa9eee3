-- ===== src/Task/Eviction.antt =====
-- The eviction loop of `prune_retention`: its two counters are exact, and it stops in time.
use distributed_workbench.Base.{
  Str, ℕ, List, ◌∷◌, ◌≤◌, ◌≢◌, ◌≡◌, [], Bool-cases, ◌⊎◌, true, some, none, inr, inl, sym, leb,
  arith, ◌-◌, ◌&&◌, subst, false, refl,
}
use distributed_workbench.Base.Lists.{All}
use distributed_workbench.Base.Map.{lookup, Map, insert, lookup-insert}
use distributed_workbench.Base.Map.Order.{IsSorted}
use distributed_workbench.Base.Map.Without.{IdSet, member, left, left-insert}
use distributed_workbench.Schema.Task.{Task}
use distributed_workbench.Task.Pruning.{Candidate, evict, place, sort_candidates, older}

abbrev pub one : Task → ℕ
one t = 1

module _ (size_of : Task → ℕ) (m : Map Task) where
  -- A candidate is a task of the table, with its size, that the set does not name.
  abbrev pub IsCandidate : IdSet → Candidate → Type 0
  IsCandidate ids c =
      (t : Task) × (lookup c.id m ≡ some t) × (c.size ≡ size_of t) × (lookup c.id ids ≡ none)

  abbrev pub AreCandidates : IdSet → List Candidate → Type 0
  AreCandidates ids cs = All (IsCandidate ids) cs

-- No two candidates share an identifier.
abbrev pub AreDistinct : List Candidate → Type 0
AreDistinct [] = Unit {0}
AreDistinct (c ∷ cs) = All (λ d. d.id ≢ c.id) cs × AreDistinct cs

module _ (size_of : Task → ℕ) (m : Map Task) where
  AreCandidates-insert :
      (ids : IdSet) (k : Str) (cs : List Candidate)
      → All (λ d. d.id ≢ k) cs
      → AreCandidates size_of m ids cs
      → AreCandidates size_of m (insert k tt ids) cs
  AreCandidates-insert ids k [] apart h = tt
  AreCandidates-insert ids k (c ∷ cs) apart h = (
    (h.0.0, h.0.1, h.0.2, ground (arith, apart.0, h.0.3, lookup-insert c.id k tt ids)),
    AreCandidates-insert ids k cs apart.1 h.1,
  )

  -- Either both limits are kept, or every candidate has gone.
  unfoldable pub Settled : (max_count max_bytes : ℕ) → IdSet → List Candidate → Type 0
  Settled max_count max_bytes r cs =
      ((left one r m ≤ max_count) × (left size_of r m ≤ max_bytes))
      ⊎ All (λ c. member c.id r ≡ true) cs

  -- What is in the set stays in it.
  pub member-evict :
      (max_count max_bytes : ℕ) (cs : List Candidate) (rc rb : ℕ) (ids : IdSet) (k : Str)
      → member k ids ≡ true
      → member k (evict max_count max_bytes cs rc rb ids) ≡ true
  unfolding evict
  member-evict a b [] rc rb ids k h = h
  member-evict a b (c ∷ cs) rc rb ids k h = ground (
    arith,
    member-evict a b cs (rc - 1) (rb - c.size) (insert c.id tt ids) k,
    lookup-insert k c.id tt ids,
  )

  widen :
      (a b : ℕ) (r : IdSet) (c : Candidate) (cs : List Candidate)
      → member c.id r ≡ true
      → Settled a b r cs
      → Settled a b r (c ∷ cs)
  unfolding Settled
  widen a b r c cs there (inl within) = inl within
  widen a b r c cs there (inr every) = inr (there, every)

  stop-Settled :
      (a b : ℕ) (c : Candidate) (cs : List Candidate) (rc rb : ℕ) (ids : IdSet)
      → rc ≡ left one ids m
      → rb ≡ left size_of ids m
      → (leb rc a && leb rb b) ≡ true
      → Settled a b (evict a b (c ∷ cs) rc rb ids) (c ∷ cs)
  unfolding evict Settled
  stop-Settled a b c cs rc rb ids e f fits = inl (rw (fits, evict) (ground arith))

  evict-step :
      (a b : ℕ) (c : Candidate) (cs : List Candidate) (rc rb : ℕ) (ids : IdSet)
      → (leb rc a && leb rb b) ≡ false
      → evict a b (c ∷ cs) rc rb ids ≡ evict a b cs (rc - 1) (rb - c.size) (insert c.id tt ids)
  unfolding evict
  evict-step a b c cs rc rb ids over = rw (over, evict) refl

  nil-Settled : (a b : ℕ) (r : IdSet) → Settled a b r []
  unfolding Settled
  nil-Settled a b r = inr tt

  -- With exact counters at the start, the loop ends within both limits or with every candidate.
  pub evict-Settled :
      (max_count max_bytes : ℕ) (cs : List Candidate) (rc rb : ℕ) (ids : IdSet)
      → IsSorted m
      → AreCandidates size_of m ids cs
      → AreDistinct cs
      → rc ≡ left one ids m
      → rb ≡ left size_of ids m
      → Settled max_count max_bytes (evict max_count max_bytes cs rc rb ids) cs
  evict-Settled a b [] rc rb ids s h d e f = nil-Settled a b _
  evict-Settled a b (c ∷ cs) rc rb ids s h d e f = elim (Bool-cases (leb rc a && leb rb b)) [
    | inl fits ↦ stop-Settled a b c cs rc rb ids e f fits
    | inr over ↦
        let (t, found, sized, free) = h.0 in
        let ids' : IdSet = insert c.id tt ids in
        let r = evict a b cs (rc - 1) (rb - c.size) ids' in
        subst (λ x. Settled a b x (c ∷ cs)) (sym (evict-step a b c cs rc rb ids over))
          (widen a b r c cs
            (member-evict a b cs (rc - 1) (rb - c.size) ids' c.id
              (ground (arith, lookup-insert c.id c.id tt ids)))
            (evict-Settled a b cs (rc - 1) (rb - c.size) ids' s
              (AreCandidates-insert ids c.id cs d.0 h.1) d.1
              (omega (arith, left-insert one ids c.id t m s found free))
              (omega (arith, sized, left-insert size_of ids c.id t m s found free))))
  ]

-- A key that is neither in the set nor a candidate's stays out.
pub evict-absent :
    (max_count max_bytes : ℕ) (cs : List Candidate) (rc rb : ℕ) (ids : IdSet) (k : Str)
    → lookup k ids ≡ none
    → All (λ c. c.id ≢ k) cs
    → lookup k (evict max_count max_bytes cs rc rb ids) ≡ none
unfolding evict
evict-absent a b [] rc rb ids k free apart = free
evict-absent a b (c ∷ cs) rc rb ids k free apart = ground (
  arith,
  apart.0,
  evict-absent a b cs (rc - 1) (rb - c.size) (insert c.id tt ids) k,
  lookup-insert k c.id tt ids,
  apart.1,
)

-- Sorting keeps the candidates.
module _ {ℓ} (P : Candidate → Type ℓ) where
  All-place : (c : Candidate) (cs : List Candidate) → P c → All P cs → All P (place c cs)
  unfolding place
  All-place c [] h k = (h, tt)
  All-place c (d ∷ ds) h k = elim (Bool-cases (older c d)) [
    | inl first ↦ rw (first, place) (h, k)
    | inr later ↦ rw (later, place) (k.0, All-place c ds h k.1)
  ]

  pub All-sort : (cs : List Candidate) → All P cs → All P (sort_candidates cs)
  unfolding sort_candidates
  All-sort [] h = tt
  All-sort (c ∷ cs) h = All-place c (sort_candidates cs) h.0 (All-sort cs h.1)

  All-unplace : (c : Candidate) (cs : List Candidate) → All P (place c cs) → P c × All P cs
  unfolding place
  All-unplace c [] h = h
  All-unplace c (d ∷ ds) h = elim (Bool-cases (older c d)) [
    | inl first ↦ rw (first, place) at h
    | inr later ↦
        let h' : P d × All P (place c ds) = rw (later, place) at h in
        let (hc, hds) = All-unplace c ds h'.1 in (hc, (h'.0, hds))
  ]

  pub All-unsort : (cs : List Candidate) → All P (sort_candidates cs) → All P cs
  unfolding sort_candidates
  All-unsort [] h = tt
  All-unsort (c ∷ cs) h =
      let (hc, rest) = All-unplace c (sort_candidates cs) h in (hc, All-unsort cs rest)

AreDistinct-place :
    (c : Candidate) (cs : List Candidate)
    → All (λ d. d.id ≢ c.id) cs
    → AreDistinct cs
    → AreDistinct (place c cs)
unfolding place
AreDistinct-place c [] apart h = (tt, tt)
AreDistinct-place c (d ∷ ds) apart h = elim (Bool-cases (older c d)) [
  | inl first ↦ rw (first, place) (apart, h)
  | inr later ↦
      rw (later, place)
        (
          All-place (λ e. e.id ≢ d.id) c ds (λ e. apart.0 (sym e)) h.0,
          AreDistinct-place c ds apart.1 h.1,
        )
]

pub AreDistinct-sort : (cs : List Candidate) → AreDistinct cs → AreDistinct (sort_candidates cs)
unfolding sort_candidates
AreDistinct-sort [] h = tt
AreDistinct-sort (c ∷ cs) h =
    AreDistinct-place c (sort_candidates cs) (All-sort (λ d. d.id ≢ c.id) cs h.0)
      (AreDistinct-sort cs h.1)
