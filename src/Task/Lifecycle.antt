-- ===== src/Task/Lifecycle.antt =====
-- The life of a task: the transitions that `transition` and `retry` make, and the final states.
use distributed_workbench.Base.{
  Str, ◌≡◌, Option, true, ℕ, arith, some, ok, err, Bool-cases, inl, inr, refl, ◌⊎◌, Bool, false,
}
use distributed_workbench.Base.Map.{lookup}
use distributed_workbench.Json.{Value}
use distributed_workbench.Schema.Task.{
  TaskError as TaskFailure, Task, TaskState, queued, running, cancelled, cancel_requested,
  cancelling, failed_to_cancel, succeeded, failed, timed_out, outcome_unknown,
}
use distributed_workbench.Task.{TaskTable, allowed, transition, moved, invalid_transition, put}

-- The moves of a task, as a relation.
pub data Move : TaskState → TaskState → Type 0 where
  start : Move queued running
  drop : Move queued cancelled
  ask : Move running cancel_requested
  begin : Move cancel_requested cancelling
  stop : Move cancelling cancelled
  give_up : Move cancelling failed_to_cancel
  finish : Move running succeeded
  fail : Move running failed
  abort : Move running cancelled
  expire : Move running timed_out
  lose : Move running outcome_unknown

allowed-Move : (a b : TaskState) → allowed a b ≡ true → Move a b
unfolding allowed
allowed-Move queued running h = start
allowed-Move queued cancelled h = drop
allowed-Move running cancel_requested h = ask
allowed-Move cancel_requested cancelling h = begin
allowed-Move cancelling cancelled h = stop
allowed-Move cancelling failed_to_cancel h = give_up
allowed-Move running succeeded h = finish
allowed-Move running failed h = fail
allowed-Move running cancelled h = abort
allowed-Move running timed_out h = expire
allowed-Move running outcome_unknown h = lose
allowed-Move _ _ h = absurd (ground arith)

Move-allowed : {a b : TaskState} → Move a b → allowed a b ≡ true
unfolding allowed
Move-allowed start = refl
Move-allowed drop = refl
Move-allowed ask = refl
Move-allowed begin = refl
Move-allowed stop = refl
Move-allowed give_up = refl
Move-allowed finish = refl
Move-allowed fail = refl
Move-allowed abort = refl
Move-allowed expire = refl
Move-allowed lose = refl

true-ne-false : {b : Bool} → b ≡ true → b ≡ false → ⊥
true-ne-false p q = cc

module _ (table : TaskTable) (id : Str) (t : Task) (state : TaskState) (output : Option Value)
    (error : Option TaskFailure) (now event_now : ℕ) (found : lookup id table.tasks ≡ some t) where
  transition-Move :
      Move t.state state
      → transition table id state output error now event_now
        ≡ ok (
          moved t state output error now event_now,
          put table id (moved t state output error now event_now),
        )
  unfolding transition
  transition-Move m = rw (found, transition) (ground (arith, Move-allowed m))

  transition-refuses :
      ¬ Move t.state state
      → transition table id state output error now event_now
        ≡ err (invalid_transition t.state state)
  unfolding transition
  transition-refuses n = elim (Bool-cases (allowed t.state state)) [
    | inl may ↦ absurd (n (allowed-Move t.state state may))
    | inr may_not ↦ rw (found, transition) (ground arith)
  ]

  -- `transition` makes exactly the moves of the relation: such a move writes the task back, moved,
  -- and any other request is refused with the two states.
  pub transition_lem :
      ((Move t.state state)
        × (transition table id state output error now event_now
            ≡ ok (
              moved t state output error now event_now,
              put table id (moved t state output error now event_now),
            )))
      ⊎ ((¬ Move t.state state)
          × (transition table id state output error now event_now
              ≡ err (invalid_transition t.state state)))
  transition_lem = elim (Bool-cases (allowed t.state state)) [
    | inl may ↦ let m = allowed-Move t.state state may in inl (m, transition-Move m)
    | inr may_not ↦
        let n = λ (m : Move t.state state). true-ne-false (Move-allowed m) may_not in
        inr (n, transition-refuses n)
  ]
