-- ===== src/Task/Submitting.antt =====
-- Submission: it never fails on a well-formed table, and one scoped key has one task.
use distributed_workbench.Base.{
  Str, ℕ, Option, bytes, Option-cases, ◌≡◌, ◌++◌, inl, Bool, some, refl, none, inr, true, ◌⊎◌,
  false, subst, sym, ◌∙◌,
}
use distributed_workbench.Base.Map.{lookup, insert, lookup-insert_self}
use distributed_workbench.Base.Map.Order.{lookup-IsKeyed}
use distributed_workbench.Schema.Task.{Task, queued}
use distributed_workbench.Task.{
  TaskTable, Submission, submission_scope, submit_traced, new_task, push_event, scope_of,
}
use distributed_workbench.Task.Index.{IsIndexed, id_of, insert-IsIndexed}

new_task-scope :
    (s : Submission) (now event_now : ℕ) (uuid : Str)
    → scope_of (new_task s now event_now uuid) ≡ submission_scope s
unfolding new_task push_event
new_task-scope s now event_now uuid = refl

-- The identifier that a random identifier yields is free.
abbrev pub IsFresh : Str → TaskTable → Type 0
IsFresh uuid table = lookup (bytes "task_" ++ uuid) table.tasks ≡ none

-- The two outcomes of a submission: the task under its scoped key, with the table as it was, or a
-- new queued task, written under its identifier and its scoped key.
abbrev pub Outcome : TaskTable → Submission → Option (Task × Bool × TaskTable) → Type 0
Outcome table s result =
    ((t : Task) × (result ≡ some (t, true, table))
      × (lookup t.id table.tasks ≡ some t)
      × (scope_of t ≡ submission_scope s))
    ⊎ ((t : Task) × (table' : TaskTable) × (result ≡ some (t, false, table'))
        × (lookup (submission_scope s) table.idempotency ≡ none)
        × (t.state ≡ queued)
        × (scope_of t ≡ submission_scope s)
        × (table' ≡ record {
          tasks = insert t.id t table.tasks;
          idempotency = insert (scope_of t) t.id table.idempotency;
        }))

-- A submission never panics, and has one of the two outcomes.
pub submit_traced-Outcome :
    (table : TaskTable) (s : Submission) (now event_now : ℕ) (uuid : Str)
    → IsIndexed table
    → Outcome table s (submit_traced table s now event_now uuid)
unfolding submit_traced
submit_traced-Outcome table s now event_now uuid v =
    elim (Option-cases (lookup (submission_scope s) table.idempotency)) [
      | inl free ↦
          let task = new_task s now event_now uuid in
          inr (
            task,
            record {
              tasks = insert task.id task table.tasks;
              idempotency = insert (submission_scope s) task.id table.idempotency;
            },
            rw (free, submit_traced) refl,
            free,
            unfold new_task push_event in refl,
            new_task-scope s now event_now uuid,
            rw (new_task-scope s now event_now uuid) refl,
          )
      | inr (id, taken) ↦ elim (Option-cases (lookup id table.tasks)) [
        | inl gone ↦ absurd (rw gone at (v.pointing (submission_scope s) id taken))
        | inr (t, found) ↦ inl (
          t,
          rw (taken, submit_traced) (rw (found, submit_traced) refl),
          subst (λ j. lookup j table.tasks ≡ some t)
              (sym (lookup-IsKeyed id_of id table.tasks t v.keyed found)) found,
          rw found at (v.pointing (submission_scope s) id taken),
        )
      ]
    ]

-- The table after a submission.
abbrev pub table_after : TaskTable → Option (Task × Bool × TaskTable) → TaskTable
table_after table none = table
table_after table (some (_, _, table')) = table'

-- A submission under a free identifier keeps the two maps in agreement.
pub submit_traced-IsIndexed :
    (table : TaskTable) (s : Submission) (now event_now : ℕ) (uuid : Str)
    → IsIndexed table
    → IsFresh uuid table
    → IsIndexed (table_after table (submit_traced table s now event_now uuid))
unfolding submit_traced new_task push_event
submit_traced-IsIndexed table s now event_now uuid v fresh =
    elim (Option-cases (lookup (submission_scope s) table.idempotency)) [
      | inl free ↦
          let task = new_task s now event_now uuid in
          rw (free, submit_traced)
            (insert-IsIndexed table task v fresh (rw (new_task-scope s now event_now uuid) free))
      | inr (id, taken) ↦ elim (Option-cases (lookup id table.tasks)) [
        | inl gone ↦ rw (taken, submit_traced) (rw (gone, submit_traced) v)
        | inr (t, found) ↦ rw (taken, submit_traced) (rw (found, submit_traced) v)
      ]
    ]

submit_traced-known :
    (table : TaskTable) (s : Submission) (now event_now : ℕ) (uuid : Str) (id : Str) (t : Task)
    → lookup (submission_scope s) table.idempotency ≡ some id
    → lookup id table.tasks ≡ some t
    → submit_traced table s now event_now uuid ≡ some (t, true, table)
unfolding submit_traced
submit_traced-known table s now event_now uuid id t taken found =
    rw (taken, submit_traced) (rw (found, submit_traced) refl)

outcome-eq :
    {t u : Task} {b c : Bool} {x y : TaskTable}
    → ◌≡◌ {A = Option (Task × Bool × TaskTable)} (some (t, b, x)) (some (u, c, y))
    → (t ≡ u) × (b ≡ c) × (x ≡ y)
outcome-eq e = (cc, cc, cc)

-- A second submission under the same scoped key, with whatever input, trace, time and random
-- identifier, gives the task of the first, says that it is reused, and changes nothing.
pub submit_traced-twice :
    (table table' : TaskTable) (s s' : Submission) (now event_now : ℕ) (uuid : Str)
    (now' event_now' : ℕ) (uuid' : Str) (t : Task) (reused : Bool)
    → IsIndexed table
    → submission_scope s' ≡ submission_scope s
    → submit_traced table s now event_now uuid ≡ some (t, reused, table')
    → submit_traced table' s' now' event_now' uuid' ≡ some (t, true, table')
submit_traced-twice table table' s s' now event_now uuid now' event_now' uuid' t reused v same
      first =
    elim (submit_traced-Outcome table s now event_now uuid v) [
      | inl (u, e, found, scope) ↦
          let (same_task, _, same_table) = outcome-eq (sym first ∙ e) in
          rw (same_task, same_table)
            (submit_traced-known table s' now' event_now' uuid' u.id u
              (rw (same, ← scope) (v.indexed u.id u found)) found)
      | inr (u, after, e, free, new, scope, written) ↦
          let (same_task, _, same_table) = outcome-eq (sym first ∙ e) in
          rw (same_task, same_table)
            (submit_traced-known after s' now' event_now' uuid' u.id u
              (rw (same, ← scope, written) (lookup-insert_self (scope_of u) u.id table.idempotency))
              (rw written (lookup-insert_self u.id u table.tasks)))
    ]
