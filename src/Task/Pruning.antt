-- ===== src/Task/Pruning.antt =====
-- `prune_terminal_before`, `prune_retention`, `recover_orphans` and `persistence_snapshot` of
-- crates/workbench-core/src/task.rs. Counts and sizes are exact.
use distributed_workbench.Base.{
  Str, ℕ, Option, List, Bool, ◌∷◌, some, map, ltb, ◌||◌, ◌-◌, ◌&&◌, none, if◌then◌else◌, [], not,
  leb, str_lt, ◌==◌,
}
use distributed_workbench.Base.Lists.{filter, length}
use distributed_workbench.Base.Map.{values, remove, lookup, insert}
use distributed_workbench.Base.Map.Without.{keys, IdSet, member, total}
use distributed_workbench.Schema.Task.{Task, terminal}
use distributed_workbench.Task.{TaskTable, scope_of}

-- `tasks.remove(id)`, with the idempotency entry of the task that it gives.
abbrev pub forget : Option Task → TaskTable → TaskTable
forget none table = table
forget (some t) table = record table { idempotency = remove (scope_of t) table.idempotency }

abbrev pub push_removed : Option Task → List Task × TaskTable → List Task × TaskTable
push_removed none p = p
push_removed (some t) (removed, table) = (t ∷ removed, table)

-- The loop that ends both prunings.
unfoldable pub remove_tasks : List Str → TaskTable → List Task × TaskTable
remove_tasks [] table = ([], table)
remove_tasks (id ∷ ids) table =
    let found = lookup id table.tasks in
    push_removed found
      (remove_tasks ids (forget found (record table { tasks = remove id table.tasks })))

-- `task.state.terminal() && task.updated_at < cutoff`
abbrev pub is_stale : ℕ → Task → Bool
is_stale cutoff t = terminal t.state && ltb t.updated_at cutoff

unfoldable pub prune_terminal_before : TaskTable → ℕ → List Task × TaskTable
prune_terminal_before table cutoff =
    remove_tasks (map (λ t. t.id) (filter (is_stale cutoff) (values table.tasks))) table

unfoldable pub to_set : List Str → IdSet → IdSet
to_set [] ids = ids
to_set (id ∷ rest) ids = to_set rest (insert id tt ids)

-- What the eviction loop knows of a candidate.
pub record Candidate : Type 0 where
  pub updated_at : ℕ
  pub id : Str
  pub size : ℕ

-- `(updated_at, id)`, in the order of tuples.
unfoldable pub older : Candidate → Candidate → Bool
older a b =
    ltb a.updated_at b.updated_at
    || (leb a.updated_at b.updated_at && (str_lt a.id b.id || a.id == b.id))

unfoldable pub place : Candidate → List Candidate → List Candidate
place c [] = c ∷ []
place c (d ∷ ds) = let rest = place c ds in if older c d then c ∷ d ∷ ds else d ∷ rest

-- `sort_by_key`
unfoldable pub sort_candidates : List Candidate → List Candidate
sort_candidates [] = []
sort_candidates (c ∷ cs) = place c (sort_candidates cs)

-- The eviction loop, with `retained_count`, `retained_bytes` and `remove_ids`.
unfoldable pub evict :
    (max_count max_bytes : ℕ) → List Candidate → (retained_count retained_bytes : ℕ) → IdSet → IdSet
evict max_count max_bytes [] retained_count retained_bytes remove_ids = remove_ids
evict max_count max_bytes (c ∷ cs) retained_count retained_bytes remove_ids =
    let rest =
      evict max_count max_bytes cs (retained_count - 1) (retained_bytes - c.size)
        (insert c.id tt remove_ids) in
    if leb retained_count max_count && leb retained_bytes max_bytes then remove_ids else rest

module _ (encoded_len : Task → ℕ) where
  abbrev pub candidate : Task → Candidate
  candidate t = record { updated_at = t.updated_at; id = t.id; size = encoded_len t }

  unfoldable pub retention_ids : TaskTable → (now retention_ms max_count max_bytes : ℕ) → IdSet
  retention_ids table now retention_ms max_count max_bytes =
      let tasks = values table.tasks in
      let stale = to_set (map (λ t. t.id) (filter (is_stale (now - retention_ms)) tasks)) [] in
      let kept = filter (λ t. not (member t.id stale)) tasks in
      evict max_count max_bytes
        (sort_candidates
          (map candidate (filter (λ t. terminal t.state && not (member t.id stale)) tasks)))
        (length tasks - length stale) (total encoded_len kept) stale

  unfoldable pub prune_retention :
      TaskTable → (now retention_ms max_count max_bytes : ℕ) → List Task × TaskTable
  prune_retention table now retention_ms max_count max_bytes =
      remove_tasks (keys (retention_ids table now retention_ms max_count max_bytes)) table
