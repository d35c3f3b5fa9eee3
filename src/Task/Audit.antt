-- ===== src/Task/Audit.antt =====
-- The log of every task, through any history of the table.
use native.Mathlib.Numerals.{add-one}
use distributed_workbench.Base.{
  Str, ℕ, ◌+◌, Option, List, Bool-cases, ◌≡◌, ◌==◌, ◌<◌, arith, u64_mod, some, inl, ◌∷◌, true,
  subst, add_u64, [], inr, none, refl, Option-cases,
}
use distributed_workbench.Base.Lists.{length, length-append}
use distributed_workbench.Base.Map.{lookup, lookup-insert, remove, lookup-remove, lookup-map_values}
use distributed_workbench.Json.{null, Value}
use distributed_workbench.Schema.Task.{Task, TaskState, TaskError as TaskFailure}
use distributed_workbench.Task.{
  TaskTable, moved, requeued, new_task, push_event, put, allowed, Submission, submit_traced,
  submission_scope,
}
use distributed_workbench.Task.Calls.{
  perform, run, step, Call, Op, submits, transitions, retries, prunes_before, prunes, recovers,
  AreFresh,
}
use distributed_workbench.Task.Index.{IsIndexed}
use distributed_workbench.Task.Invariant.{transition_cases, retry_cases, perform-IsIndexed}
use distributed_workbench.Task.Log.{
  IsLogged, requeued-IsLogged, orphaned-IsLogged, moved-IsLogged, new_task-IsLogged,
}
use distributed_workbench.Task.Pruning.{
  push_removed, remove_tasks, prune_terminal_before, forget, prune_retention,
}
use distributed_workbench.Task.Recovery.{orphaned, recovered_task, is_orphan, recover_orphans}
use distributed_workbench.Task.Submitting.{table_after}

-- A log in step, with room for `n` more events in a 64-bit counter.
pub record IsReady (n : ℕ) (t : Task) : Type 0 where
  pub logged : IsLogged t
  pub room : length t.events + n < u64_mod

abbrev pub AreReady : ℕ → TaskTable → Type 0
AreReady n table = (id : Str) (t : Task) → lookup id table.tasks ≡ some t → IsReady n t

IsReady-pred : {n : ℕ} {t : Task} → IsReady (n + 1) t → IsReady n t
IsReady-pred {n} r = record { logged = r.logged; room = omega (arith, r.room) }

put-AreReady :
    (n : ℕ) (table : TaskTable) (id : Str) (t : Task)
    → AreReady n table
    → IsReady n t
    → AreReady n (put table id t)
put-AreReady n table id t h r j u e = elim (Bool-cases (id == j)) [
  | inl same ↦ subst (IsReady n) (ground (arith, lookup-insert j id t table.tasks)) r
  | inr other ↦ h j u (ground (arith, lookup-insert j id t table.tasks))
]

length-push_event :
    (t : Task) (name : Str) (now : ℕ)
    → length (push_event t name null now).events ≡ length t.events + 1
unfolding push_event
length-push_event t name now = omega (
  arith,
  length-append t.events (
      record {
        sequence = add_u64 (length t.events) 1;
        timestamp = now;
        event_type = name;
        details = null;
      }
      ∷ []),
)

moved-IsReady :
    (n : ℕ) (t : Task) (state : TaskState) (output : Option Value) (error : Option TaskFailure)
    (now event_now : ℕ)
    → IsReady (n + 1) t
    → allowed t.state state ≡ true
    → IsReady n (moved t state output error now event_now)
unfolding moved
moved-IsReady n t state output error now event_now r may = record {
  logged =
      unfold moved in
      moved-IsLogged t state output error now event_now r.logged (omega (arith, r.room)) may;
  room = rw length-push_event (omega (arith, r.room));
}

requeued-IsReady :
    (n : ℕ) (t : Task) (now event_now : ℕ)
    → IsReady (n + 1) t
    → IsReady n (requeued t now event_now)
unfolding requeued
requeued-IsReady n t now event_now r = record {
  logged = requeued-IsLogged t now event_now r.logged (omega (arith, r.room));
  room = rw length-push_event (omega (arith, r.room));
}

orphaned-IsReady :
    (n : ℕ) (t : Task) (now event_now : ℕ)
    → IsReady (n + 1) t
    → IsReady n (orphaned t now event_now)
unfolding orphaned
orphaned-IsReady n t now event_now r = record {
  logged = orphaned-IsLogged t now event_now r.logged (omega (arith, r.room));
  room = rw length-push_event (omega (arith, r.room));
}

pub push_removed-table : (o : Option Task) (p : List Task × TaskTable) → (push_removed o p).1 ≡ p.1
push_removed-table none p = refl
push_removed-table (some t) p = refl

pub forget-tasks : (o : Option Task) (table : TaskTable) → (forget o table).tasks ≡ table.tasks
forget-tasks none table = refl
forget-tasks (some t) table = refl

new_task-IsReady :
    (n : ℕ) (s : Submission) (now event_now : ℕ) (uuid : Str)
    → n + 1 < u64_mod
    → IsReady n (new_task s now event_now uuid)
unfolding new_task
new_task-IsReady n s now event_now uuid small = record {
  logged = new_task-IsLogged s now event_now uuid;
  room = rw length-push_event (omega arith);
}

submit_traced-AreReady :
    (n : ℕ) (table : TaskTable) (s : Submission) (now event_now : ℕ) (uuid : Str)
    → n + 1 < u64_mod
    → IsIndexed table
    → AreReady n table
    → AreReady n (table_after table (submit_traced table s now event_now uuid))
unfolding submit_traced
submit_traced-AreReady n table s now event_now uuid small v h =
    elim (Option-cases (lookup (submission_scope s) table.idempotency)) [
      | inl free ↦
          let task = new_task s now event_now uuid in
          rw (free, submit_traced)
            (put-AreReady n table task.id task h (new_task-IsReady n s now event_now uuid small))
      | inr (id, taken) ↦ elim (Option-cases (lookup id table.tasks)) [
        | inl gone ↦ rw (taken, submit_traced) (rw (gone, submit_traced) h)
        | inr (t, found) ↦ rw (taken, submit_traced) (rw (found, submit_traced) h)
      ]
    ]

-- Pruning only removes.
pub lookup-remove_tasks :
    (ids : List Str) (table : TaskTable) (id : Str) (t : Task)
    → lookup id (remove_tasks ids table).1.tasks ≡ some t
    → lookup id table.tasks ≡ some t
unfolding remove_tasks
lookup-remove_tasks [] table id t h = h
lookup-remove_tasks (j ∷ ids) table id t h =
    let found = lookup j table.tasks in
    let rest = record table { tasks = remove j table.tasks } in
    let e = lookup-remove_tasks ids (forget found rest) id t (rw push_removed-table at h) in
    ground (arith, rw forget-tasks at e, lookup-remove id j table.tasks)

recovered-IsReady :
    (n : ℕ) (clock : Str → ℕ × ℕ) (t : Task)
    → IsReady (n + 1) t
    → IsReady n (recovered_task clock t)
recovered-IsReady n clock t r = elim (Bool-cases (is_orphan t.state)) [
  | inl lost ↦ rw lost (orphaned-IsReady n t _ _ r)
  | inr settled ↦ rw settled (IsReady-pred r)
]

-- Every call appends at most one event to a task, in step with its state and attempts.
perform-AreReady :
    (encoded_len : Task → ℕ) (n : ℕ) (table : TaskTable) (c : Call) (op : Op)
    → n + 1 < u64_mod
    → IsIndexed table
    → AreReady (n + 1) table
    → AreReady n (perform encoded_len table c op)
unfolding perform prune_terminal_before prune_retention recover_orphans
perform-AreReady len n table c (submits s) small v h =
    submit_traced-AreReady n table s c.now c.event_now c.uuid small v
      (λ j u e. IsReady-pred (h j u e))
perform-AreReady len n table c (transitions id state output error) small v h =
    transition_cases (AreReady n) table id state output error _ _ (λ j u e. IsReady-pred (h j u e))
      λ t e may.
        put-AreReady n table id _ (λ j u f. IsReady-pred (h j u f))
          (moved-IsReady n t state output error c.now c.event_now (h id t e) may)
perform-AreReady len n table c (retries id) small v h =
    retry_cases (AreReady n) table id _ _ (λ j u e. IsReady-pred (h j u e))
      λ t e may.
        put-AreReady n table id _ (λ j u f. IsReady-pred (h j u f))
          (requeued-IsReady n t c.now c.event_now (h id t e))
perform-AreReady len n table c (prunes_before cutoff) small v h =
    λ j u e. IsReady-pred (h j u (lookup-remove_tasks _ table j u e))
perform-AreReady len n table c (prunes retention_ms max_count max_bytes) small v h =
    λ j u e. IsReady-pred (h j u (lookup-remove_tasks _ table j u e))
perform-AreReady len n table c (recovers clock) small v h = λ j u e.
    elim (Option-cases (lookup j table.tasks)) [
      | inl gone ↦ absurd (ground (arith, lookup-map_values (recovered_task clock) j table.tasks))
      | inr (t, found) ↦
          subst (IsReady n) (ground (arith, lookup-map_values (recovered_task clock) j table.tasks))
            (recovered-IsReady n clock t (h j t found))
    ]

-- Through any history of submissions, transitions, retries, prunings and recoveries, the events of
-- every task are numbered 1, 2, 3 and so on, the last event is that of the task's state, and
-- `attempt` counts the starts in the log, modulo 2 ^ 32.
pub run-IsLogged :
    (encoded_len : Task → ℕ) (table : TaskTable) (cs : List Call) (id : Str) (t : Task)
    → length cs + 1 < u64_mod
    → AreFresh encoded_len table cs
    → IsIndexed table
    → AreReady (length cs) table
    → lookup id (run encoded_len table cs).tasks ≡ some t
    → IsLogged t
unfolding run
run-IsLogged len table [] id t small fresh v h e = (h id t e).logged
run-IsLogged len table (c ∷ cs) id t small fresh v h e =
    run-IsLogged len (step len table c) cs id t (omega arith) fresh.1
      (perform-IsIndexed len table c c.op fresh.0 v)
      (perform-AreReady len (length cs) table c c.op (omega arith) v
        (λ j u f. rw add-one (h j u f)))
      e
