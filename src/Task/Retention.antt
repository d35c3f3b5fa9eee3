-- ===== src/Task/Retention.antt =====
-- `prune_retention`: active tasks stay, and the limits hold as far as finished tasks allow.
use distributed_workbench.Base.{
  Str, List, ◌≡◌, Bool, ◌∷◌, ◌∙◌, ℕ, some, not, true, ap, false, arith, [], ◌≢◌, refl, map, ◌+◌,
  subst, none, sym, Option-cases, inl, inr,
}
use distributed_workbench.Base.Lists.{filter, All, length}
use distributed_workbench.Base.Map.{lookup, Map, remove, values, insert, lookup-insert}
use distributed_workbench.Base.Map.Order.{
  IsSorted, Above, IsKeyed, lt-ne, AllEntries, insert-IsSorted, insert-lookup,
}
use distributed_workbench.Base.Map.Without.{
  IdSet, member, left, total, without, remove_keys, remove_keys-without, left-insert,
}
use distributed_workbench.Schema.Task.{Task}
use distributed_workbench.Task.{TaskTable}
use distributed_workbench.Task.Audit.{push_removed-table, forget-tasks}
use distributed_workbench.Task.Eviction.{one, AreDistinct, AreCandidates}
use distributed_workbench.Task.Index.{id_of}
use distributed_workbench.Task.Pruning.{remove_tasks, forget, to_set, candidate}

remove_tasks-keys :
    (ids : List Str) (table : TaskTable)
    → (remove_tasks ids table).1.tasks ≡ remove_keys ids table.tasks
unfolding remove_tasks remove_keys
remove_tasks-keys [] table = refl
remove_tasks-keys (id ∷ ids) table =
    let found = lookup id table.tasks in
    let rest = record table { tasks = remove id table.tasks } in
    ap (λ (x : TaskTable). x.tasks)
      (push_removed-table found (remove_tasks ids (forget found rest)))
    ∙ remove_tasks-keys ids (forget found rest)
    ∙ ap (remove_keys ids) (forget-tasks found rest)

-- The tasks that a list of identifiers leaves.
pub remove_tasks-without :
    (ids : List Str) (table : TaskTable)
    → (remove_tasks ids table).1.tasks ≡ without ids table.tasks
remove_tasks-without ids table = remove_tasks-keys ids table ∙ remove_keys-without ids table.tasks

module _ (p : Task → Bool) where
  -- The tasks of a map that pass a test, as a list.
  abbrev pub passing : Map Task → List Task
  passing n = filter p (values n)

  pub passing-ne :
      (k : Str) (n : Map Task) → Above k n → IsKeyed id_of n → All (λ t. t.id ≢ k) (passing n)
  passing-ne k [] a h = tt
  passing-ne k ((j, t) ∷ n) a h = ground (arith, passing-ne k n a.1 h.1, lt-ne k j a.0, h.0)

  -- A task that fails the test is not among them.
  pub passing-absent :
      (k : Str) (t : Task) (n : Map Task)
      → IsSorted n
      → IsKeyed id_of n
      → lookup k n ≡ some t
      → p t ≡ false
      → All (λ u. u.id ≢ k) (passing n)
  unfolding lookup
  passing-absent k t [] s h found fails = cc
  passing-absent k t ((j, u) ∷ n) s h found fails =
      ground (arith, passing-absent k t n s.1 h.1, passing-ne j n s.0 h.1, h.0)

  pub passing-present {ℓ} :
      (P : Task → Type ℓ) (k : Str) (t : Task) (n : Map Task)
      → lookup k n ≡ some t
      → p t ≡ true
      → All P (passing n)
      → P t
  unfolding lookup
  passing-present P k t [] found passes h = cc
  passing-present P k t ((j, u) ∷ n) found passes h = ground (arith, passing-present P k t n)

  pub total-passing :
      (w : Task → ℕ) (ids : IdSet) (n : Map Task)
      → ((t : Task) → p t ≡ not (member t.id ids))
      → IsKeyed id_of n
      → total w (passing n) ≡ left w ids n
  unfolding left
  total-passing w ids [] e h = refl
  total-passing w ids ((j, t) ∷ n) e h = ground (arith, total-passing w ids n e h.1, e t, h.0)

length-insert_new :
    (k : Str) (ids : IdSet) → lookup k ids ≡ none → length (insert k tt ids) ≡ length ids + 1
unfolding lookup insert
length-insert_new k [] h = omega arith
length-insert_new k ((j, u) ∷ ids) h = ground (arith, length-insert_new k ids)

pub left-nil : (w : Task → ℕ) (n : Map Task) → left w [] n ≡ total w (values n)
unfolding left lookup
left-nil w [] = refl
left-nil w ((j, t) ∷ n) = omega (arith, left-nil w n)

pub total-one : (ts : List Task) → total one ts ≡ length ts
total-one [] = refl
total-one (t ∷ ts) = omega (arith, total-one ts)

pub to_set-IsSorted : (js : List Str) (ids : IdSet) → IsSorted ids → IsSorted (to_set js ids)
unfolding to_set
to_set-IsSorted [] ids s = s
to_set-IsSorted (j ∷ js) ids s = to_set-IsSorted js _ (insert-IsSorted j tt ids s)

pub to_set-absent :
    (k : Str) (ts : List Task) (ids : IdSet)
    → lookup k ids ≡ none
    → All (λ t. t.id ≢ k) ts
    → lookup k (to_set (map id_of ts) ids) ≡ none
unfolding to_set
to_set-absent k [] ids free h = free
to_set-absent k (t ∷ ts) ids free h =
    to_set-absent k ts (insert t.id tt ids) (ground (arith, lookup-insert k t.id tt ids, h.0)) h.1

module _ (m : Map Task) where
  abbrev pub IsFound : Task → Type 0
  IsFound t = lookup t.id m ≡ some t

  insert-count :
      (t : Task) (ids : IdSet)
      → IsSorted m
      → IsSorted ids
      → IsFound t
      → left one (insert t.id tt ids) m + length (insert t.id tt ids) ≡ left one ids m + length ids
  insert-count t ids s q found = elim (Option-cases (lookup t.id ids)) [
    | inl new ↦
        omega (arith, length-insert_new t.id ids new, left-insert one ids t.id t m s found new)
    | inr (tt, old) ↦ rw (insert-lookup t.id tt ids q old) refl
  ]

  -- The tasks outside the set and the set's own size add up as before.
  pub to_set-count :
      (ts : List Task) (ids : IdSet)
      → IsSorted m
      → IsSorted ids
      → All IsFound ts
      → left one (to_set (map id_of ts) ids) m + length (to_set (map id_of ts) ids)
        ≡ left one ids m + length ids
  unfolding to_set
  to_set-count [] ids s q h = refl
  to_set-count (t ∷ ts) ids s q h =
      to_set-count ts (insert t.id tt ids) s (insert-IsSorted t.id tt ids q) h.1
      ∙ insert-count t ids s q h.0

  pub AllEntries-passing :
      (p : Task → Bool) (n : Map Task)
      → IsKeyed id_of n
      → AllEntries (λ k t. lookup k m ≡ some t) n
      → All IsFound (passing p n)
  AllEntries-passing p [] h e = tt
  AllEntries-passing p ((k, t) ∷ n) h e =
      ground (arith, AllEntries-passing p n h.1 e.1, subst (λ j. lookup j m ≡ some t) (sym h.0) e.0)

  module _ (encoded_len : Task → ℕ) where
    pub candidates-AreCandidates :
        (ids : IdSet) (ts : List Task)
        → All IsFound ts
        → All (λ t. member t.id ids ≡ false) ts
        → AreCandidates encoded_len m ids (map (candidate encoded_len) ts)
    candidates-AreCandidates ids [] f n = tt
    candidates-AreCandidates ids (t ∷ ts) f n =
        ((t, f.0, refl, ground (arith, n.0)), candidates-AreCandidates ids ts f.1 n.1)

pub candidates-ne :
    (encoded_len : Task → ℕ) (k : Str) (ts : List Task)
    → All (λ t. t.id ≢ k) ts
    → All (λ c. c.id ≢ k) (map (candidate encoded_len) ts)
candidates-ne len k [] h = tt
candidates-ne len k (t ∷ ts) h = (h.0, candidates-ne len k ts h.1)

pub candidates-AreDistinct :
    (encoded_len : Task → ℕ) (p : Task → Bool) (n : Map Task)
    → IsSorted n
    → IsKeyed id_of n
    → AreDistinct (map (candidate encoded_len) (passing p n))
candidates-AreDistinct len p [] s h = tt
candidates-AreDistinct len p ((j, t) ∷ n) s h = ground (
  arith,
  candidates-AreDistinct len p n s.1 h.1,
  candidates-ne len t.id (passing p n)
      (subst (λ k. All (λ u. u.id ≢ k) (passing p n)) (sym h.0) (passing-ne p j n s.0 h.1)),
)

pub candidates-All :
    (encoded_len : Task → ℕ) (r : IdSet) (ts : List Task)
    → All (λ c. member c.id r ≡ true) (map (candidate encoded_len) ts)
    → All (λ t. member t.id r ≡ true) ts
candidates-All len r [] h = tt
candidates-All len r (t ∷ ts) h = (h.0, candidates-All len r ts h.1)

pub passing-All : (p : Task → Bool) (n : Map Task) → All (λ t. p t ≡ true) (passing p n)
passing-All p [] = tt
passing-All p ((j, t) ∷ n) = ground (arith, passing-All p n)
