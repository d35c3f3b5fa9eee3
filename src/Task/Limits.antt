-- ===== src/Task/Limits.antt =====
-- What a pruning by retention guarantees of the tasks that stay.
use distributed_workbench.Base.{
  Str, ℕ, ◌-◌, not, map, List, Bool, [], ◌≡◌, ◌&&◌, arith, refl, true, some, if◌then◌else◌, none,
  false, Bool-cases, inl, inr, subst, sym, ◌≤◌, ◌⊎◌,
}
use distributed_workbench.Base.Lists.{length, All-map, All}
use distributed_workbench.Base.Map.{values, lookup}
use distributed_workbench.Base.Map.Order.{All-lookup, lookup-IsKeyed}
use distributed_workbench.Base.Map.Without.{
  IdSet, member, left, total, keys, without, lookup-without, total-without, listed-keys,
}
use distributed_workbench.Schema.Task.{Task, terminal}
use distributed_workbench.Task.{TaskTable}
use distributed_workbench.Task.Eviction.{
  one, AreCandidates, Settled, evict-Settled, member-evict, evict-absent, All-sort, All-unsort,
  AreDistinct-sort,
}
use distributed_workbench.Task.Index.{IsIndexed, id_of}
use distributed_workbench.Task.Pruning.{
  Candidate, sort_candidates, candidate, is_stale, to_set, retention_ids, prune_retention,
}
use distributed_workbench.Task.Retention.{
  remove_tasks-without, passing, passing-absent, passing-present, total-passing, to_set-count,
  to_set-absent, AllEntries-passing, candidates-AreCandidates, candidates-ne,
  candidates-AreDistinct, candidates-All, passing-All, left-nil, total-one,
}

no_entry : (id : Str) → lookup {V = Unit {0}} id [] ≡ none
unfolding lookup
no_entry id = refl

abbrev stale_set : TaskTable → ℕ → IdSet
stale_set table cutoff = to_set (map id_of (passing (is_stale cutoff) table.tasks)) []

abbrev is_candidate : IdSet → Task → Bool
is_candidate ids t = terminal t.state && not (member t.id ids)

module _ (encoded_len : Task → ℕ) (table : TaskTable)
    (now retention_ms max_count max_bytes : ℕ) where
  abbrev stale : IdSet
  stale = stale_set table (now - retention_ms)

  abbrev candidates : List Candidate
  candidates = map (candidate encoded_len) (passing (is_candidate stale) table.tasks)

  abbrev ids : IdSet
  ids = retention_ids encoded_len table now retention_ms max_count max_bytes

  stale_count :
      IsIndexed table → length (values table.tasks) - length stale ≡ left one stale table.tasks
  stale_count v = omega (
    arith,
    to_set-count table.tasks (passing (is_stale (now - retention_ms)) table.tasks) [] v.sorted tt (
        AllEntries-passing table.tasks (is_stale (now - retention_ms)) table.tasks v.keyed
          (All-lookup _ table.tasks v.sorted (λ k t e. e))),
    left-nil one table.tasks,
    total-one (values table.tasks),
  )

  candidates_fit : IsIndexed table → AreCandidates encoded_len table.tasks stale candidates
  candidates_fit v =
      candidates-AreCandidates table.tasks encoded_len stale
        (passing (is_candidate stale) table.tasks)
        (AllEntries-passing table.tasks (is_candidate stale) table.tasks v.keyed
          (All-lookup _ table.tasks v.sorted (λ k t e. e)))
        (All-map (λ t h. ground arith) _ (passing-All (is_candidate stale) table.tasks))

  ids-Settled :
      IsIndexed table
      → Settled encoded_len table.tasks max_count max_bytes ids (sort_candidates candidates)
  unfolding retention_ids
  ids-Settled v =
      evict-Settled encoded_len table.tasks max_count max_bytes (sort_candidates candidates) _ _
        stale v.sorted (All-sort _ candidates (candidates_fit v))
        (AreDistinct-sort candidates
          (candidates-AreDistinct encoded_len (is_candidate stale) table.tasks v.sorted v.keyed))
        (stale_count v)
        (total-passing (λ t. not (member t.id stale)) encoded_len stale table.tasks (λ t. refl)
          v.keyed)

  abbrev pruned : TaskTable
  pruned = (prune_retention encoded_len table now retention_ms max_count max_bytes).1

  pruned_tasks : pruned.tasks ≡ without (keys ids) table.tasks
  unfolding prune_retention
  pruned_tasks = remove_tasks-without (keys ids) table

  lookup-pruned :
      (id : Str) → lookup id pruned.tasks ≡ (if member id ids then none else lookup id table.tasks)
  lookup-pruned id = rw (pruned_tasks, lookup-without) (ground (arith, listed-keys id ids))

  active_outside :
      (id : Str) (t : Task)
      → IsIndexed table
      → lookup id table.tasks ≡ some t
      → terminal t.state ≡ false
      → lookup id ids ≡ none
  unfolding retention_ids
  active_outside id t v found active =
      evict-absent max_count max_bytes (sort_candidates candidates) _ _ stale id
        (to_set-absent id (passing (is_stale (now - retention_ms)) table.tasks) [] (no_entry id) (
          passing-absent (is_stale (now - retention_ms)) id t table.tasks v.sorted v.keyed found
            (ground arith)))
        (All-sort _ candidates (
          candidates-ne encoded_len id (passing (is_candidate stale) table.tasks) (
            passing-absent (is_candidate stale) id t table.tasks v.sorted v.keyed found
              (ground arith))))

  -- A pruning by retention leaves every task that is not terminal as it was.
  pub prune_retention-active :
      (id : Str) (t : Task)
      → IsIndexed table
      → lookup id table.tasks ≡ some t
      → terminal t.state ≡ false
      → lookup id pruned.tasks ≡ some t
  prune_retention-active id t v found active =
      rw (lookup-pruned, active_outside id t v found active) found

  terminal_gone :
      (id : Str) (t : Task)
      → IsIndexed table
      → All (λ c. member c.id ids ≡ true) (sort_candidates candidates)
      → lookup id table.tasks ≡ some t
      → terminal t.state ≡ true
      → member id ids ≡ true
  unfolding retention_ids
  terminal_gone id t v every found done = elim (Bool-cases (member id stale)) [
    | inl old ↦
        member-evict encoded_len table.tasks max_count max_bytes (sort_candidates candidates) _ _
          stale id old
    | inr fresh ↦
        let same : t.id ≡ id = lookup-IsKeyed id_of id table.tasks t v.keyed found in
        subst (λ j. member j ids ≡ true) same
          (passing-present (is_candidate stale) (λ u. member u.id ids ≡ true) id t table.tasks found
            (subst (λ j. (terminal t.state && not (member j stale)) ≡ true) (sym same)
              (ground arith))
            (candidates-All encoded_len ids (passing (is_candidate stale) table.tasks)
              (All-unsort _ candidates every)))
  ]

  -- What a pruning by retention leaves: at most `max_count` tasks of at most `max_bytes` bytes of
  -- JSON together, or else no terminal task at all.
  pub prune_retention_limits :
      IsIndexed table
      → ((length (values pruned.tasks) ≤ max_count)
          × (total encoded_len (values pruned.tasks) ≤ max_bytes))
        ⊎ ((id : Str) (t : Task) → lookup id pruned.tasks ≡ some t → terminal t.state ≡ false)
  unfolding Settled
  prune_retention_limits v = elim (ids-Settled v) [
    | inl within ↦ inl (
      rw (pruned_tasks, ← total-one, total-without) within.0,
      rw (pruned_tasks, total-without) within.1,
    )
    | inr every ↦ inr λ id t kept. elim (Bool-cases (terminal t.state)) [
      | inr active ↦ active
      | inl done ↦ absurd (ground (arith, lookup-pruned id, terminal_gone id t v every))
    ]
  ]
