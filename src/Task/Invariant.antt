-- ===== src/Task/Invariant.antt =====
-- Every call keeps the table well formed.
use distributed_workbench.Base.{
  Str, ℕ, ◌≡◌, Option, List, some, ◌∷◌, arith, true, [], Option-cases, inl, refl, inr, Bool-cases,
}
use distributed_workbench.Base.Map.{lookup, map_values, lookup-map_values}
use distributed_workbench.Base.Map.Order.{map_values-IsSorted, map_values-IsKeyed}
use distributed_workbench.Json.{Value}
use distributed_workbench.Schema.Task.{TaskError as TaskFailure, Task, TaskState}
use distributed_workbench.Task.{
  TaskTable, transition, retry, moved, requeued, put, push_event, scope_of, retryable, allowed,
}
use distributed_workbench.Task.Calls.{
  after, perform, run, step, AreFresh, Call, Op, submits, transitions, retries, prunes_before,
  prunes, recovers,
}
use distributed_workbench.Task.Index.{IsIndexed, put-IsIndexed, remove_tasks-IsIndexed, id_of}
use distributed_workbench.Task.Pruning.{prune_terminal_before, prune_retention}
use distributed_workbench.Task.Recovery.{orphaned, recovered_task, recover_orphans}
use distributed_workbench.Task.Submitting.{IsFresh, submit_traced-IsIndexed}

-- What a transition does to a table: nothing, or an allowed move written back.
pub transition_cases {ℓ} :
    (P : TaskTable → Type ℓ) (table : TaskTable) (id : Str) (state : TaskState)
    (output : Option Value) (error : Option TaskFailure) (now event_now : ℕ)
    → P table
    → ((t : Task)
        → lookup id table.tasks ≡ some t
        → allowed t.state state ≡ true
        → P (put table id (moved t state output error now event_now)))
    → P (after table (transition table id state output error now event_now))
unfolding transition
transition_cases P table id state output error now event_now stays write =
    elim (Option-cases (lookup id table.tasks)) [
      | inl e ↦ rw (e, transition) stays
      | inr (t, e) ↦ elim (Bool-cases (allowed t.state state)) [
        | inl may ↦ rw (e, transition) (rw (may, transition) (write t e may))
        | inr may_not ↦ rw (e, transition) (rw (may_not, transition) stays)
      ]
    ]

pub retry_cases {ℓ} :
    (P : TaskTable → Type ℓ) (table : TaskTable) (id : Str) (now event_now : ℕ)
    → P table
    → ((t : Task)
        → lookup id table.tasks ≡ some t
        → retryable t.state ≡ true
        → P (put table id (requeued t now event_now)))
    → P (after table (retry table id now event_now))
unfolding retry
retry_cases P table id now event_now stays write = elim (Option-cases (lookup id table.tasks)) [
  | inl e ↦ rw (e, retry) stays
  | inr (t, e) ↦ elim (Bool-cases (retryable t.state)) [
    | inl may ↦ rw (e, retry) (rw (may, retry) (write t e may))
    | inr may_not ↦ rw (e, retry) (rw (may_not, retry) stays)
  ]
]

recovered_task-id : (clock : Str → ℕ × ℕ) (t : Task) → (recovered_task clock t).id ≡ t.id
unfolding orphaned push_event
recovered_task-id clock t = ground arith

recovered_task-scope :
    (clock : Str → ℕ × ℕ) (t : Task) → scope_of (recovered_task clock t) ≡ scope_of t
unfolding orphaned push_event
recovered_task-scope clock t = ground arith

-- A map over the tasks that keeps identifiers and scoped keys.
map_values-IsIndexed :
    (f : Task → Task) (table : TaskTable)
    → ((t : Task) → (f t).id ≡ t.id)
    → ((t : Task) → scope_of (f t) ≡ scope_of t)
    → IsIndexed table
    → IsIndexed (record table { tasks = map_values f table.tasks })
map_values-IsIndexed f table same_id same_scope v = record {
  sorted = map_values-IsSorted f table.tasks v.sorted;
  keyed = map_values-IsKeyed id_of f same_id table.tasks v.keyed;
  indexed = λ id u e. elim (Option-cases (lookup id table.tasks)) [
    | inl gone ↦ absurd (ground (arith, lookup-map_values f id table.tasks))
    | inr (t, found) ↦
        ground (arith, lookup-map_values f id table.tasks, v.indexed id t, same_scope t)
  ];
  pointing = λ k id e. elim (Option-cases (lookup id table.tasks)) [
    | inl gone ↦ absurd (ground (arith, v.pointing k id e))
    | inr (t, found) ↦
        ground (arith, lookup-map_values f id table.tasks, v.pointing k id e, same_scope t)
  ];
}

-- Every call, whether it succeeds or fails, keeps the table in order and its two maps in agreement,
-- if the random identifier is free.
pub perform-IsIndexed :
    (encoded_len : Task → ℕ) (table : TaskTable) (c : Call) (op : Op)
    → IsFresh c.uuid table
    → IsIndexed table
    → IsIndexed (perform encoded_len table c op)
unfolding perform prune_terminal_before prune_retention recover_orphans moved requeued push_event
perform-IsIndexed len table c (submits s) fresh v =
    submit_traced-IsIndexed table s _ _ c.uuid v fresh
perform-IsIndexed len table c (transitions id state output error) fresh v =
    transition_cases IsIndexed table id state output error _ _ v
      λ t e _. put-IsIndexed table id t _ v e refl refl
perform-IsIndexed len table c (retries id) fresh v =
    retry_cases IsIndexed table id _ _ v λ t e _. put-IsIndexed table id t _ v e refl refl
perform-IsIndexed len table c (prunes_before cutoff) fresh v = remove_tasks-IsIndexed _ table v
perform-IsIndexed len table c (prunes retention_ms max_count max_bytes) fresh v =
    remove_tasks-IsIndexed _ table v
perform-IsIndexed len table c (recovers clock) fresh v =
    map_values-IsIndexed (recovered_task clock) table (recovered_task-id clock)
      (recovered_task-scope clock) v

-- Every history of calls whose random identifiers are free when they are drawn keeps the table in
-- order and its two maps in agreement.
pub run-IsIndexed :
    (encoded_len : Task → ℕ) (table : TaskTable) (cs : List Call)
    → AreFresh encoded_len table cs
    → IsIndexed table
    → IsIndexed (run encoded_len table cs)
unfolding run
run-IsIndexed len table [] fresh v = v
run-IsIndexed len table (c ∷ cs) fresh v =
    run-IsIndexed len (step len table c) cs fresh.1 (perform-IsIndexed len table c c.op fresh.0 v)
