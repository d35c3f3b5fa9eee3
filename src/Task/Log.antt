-- ===== src/Task/Log.antt =====
-- The event log of a task: numbered from 1, and in step with the task's state and attempts.
use distributed_workbench.Base.{
  Str, ◌≡◌, ℕ, Str-discrete, List, ◌∷◌, ◌+◌, ◌++◌, ◌%◌, ℕ_discrete, true, bytes, ◌⊎◌, ◌==◌, ◌<◌,
  u32_mod, if◌then◌else◌, arith, [], u64_mod, refl, add_u64_exact, inr, false, add_u64, add_u32,
  Option, inl,
}
use distributed_workbench.Base.Lists.{length}
use distributed_workbench.Json.{null, Value}
use distributed_workbench.Schema.Task.{
  Task, TaskState, TaskEvent, queued, running, cancel_requested, cancelling, succeeded, failed,
  cancelled, failed_to_cancel, timed_out, outcome_unknown, TaskError as TaskFailure,
}
use distributed_workbench.Task.{
  moved, requeued, new_task, push_event, state_name, starts, allowed, Submission,
}
use distributed_workbench.Task.Recovery.{orphaned}

-- The events carry the numbers from `n + 1` on.
abbrev pub Numbered : ℕ → List TaskEvent → Type 0
Numbered n [] = Unit {0}
Numbered n (e ∷ es) = (e.sequence ≡ n + 1) × Numbered (n + 1) es

-- How often the task was started.
unfoldable pub starts_in : List TaskEvent → ℕ
starts_in [] = 0
starts_in (e ∷ es) = (if e.event_type == bytes "task.running" then 1 else 0) + starts_in es

-- The event that brings a task into a state: a queued task was submitted or retried.
abbrev pub EventOf : TaskState → Str → Type 0
EventOf queued name = (name ≡ bytes "task.queued") ⊎ (name ≡ bytes "task.retried")
EventOf s name = name ≡ bytes "task." ++ state_name s

-- The last event of the log tells the state.
abbrev pub Tells : TaskState → List TaskEvent → Type 0
Tells s [] = ⊥
Tells s (e ∷ []) = EventOf s e.event_type
Tells s (e ∷ f ∷ es) = Tells s (f ∷ es)

pub record IsLogged (t : Task) : Type 0 where
  pub numbered : Numbered 0 t.events
  pub attempts : t.attempt ≡ starts_in t.events % u32_mod
  pub tells : Tells t.state t.events

Numbered-snoc :
    (n : ℕ) (es : List TaskEvent) (e : TaskEvent)
    → Numbered n es
    → e.sequence ≡ n + length es + 1
    → Numbered n (es ++ (e ∷ []))
Numbered-snoc n [] e h q = (omega arith, tt)
Numbered-snoc n (d ∷ es) e h q = (h.0, Numbered-snoc (n + 1) es e h.1 (omega arith))

Tells-snoc :
    (s : TaskState) (es : List TaskEvent) (e : TaskEvent)
    → EventOf s e.event_type
    → Tells s (es ++ (e ∷ []))
Tells-snoc s [] e h = h
Tells-snoc s (d ∷ []) e h = h
Tells-snoc s (d ∷ f ∷ es) e h = Tells-snoc s (f ∷ es) e h

starts_in-append : (es fs : List TaskEvent) → starts_in (es ++ fs) ≡ starts_in es + starts_in fs
unfolding starts_in
starts_in-append [] fs = omega arith
starts_in-append (e ∷ es) fs = omega (arith, starts_in-append es fs)

-- The name of a move's event is that of a start exactly for `running`.
is_start : (s : TaskState) → (bytes "task." ++ state_name s == bytes "task.running") ≡ starts s
unfolding state_name Str-discrete ℕ_discrete
is_start queued = refl
is_start running = refl
is_start cancel_requested = refl
is_start cancelling = refl
is_start succeeded = refl
is_start failed = refl
is_start cancelled = refl
is_start failed_to_cancel = refl
is_start timed_out = refl
is_start outcome_unknown = refl

EventOf-state_name :
    (a s : TaskState) → allowed a s ≡ true → EventOf s (bytes "task." ++ state_name s)
unfolding allowed
EventOf-state_name queued queued h = absurd (ground arith)
EventOf-state_name running queued h = absurd (ground arith)
EventOf-state_name cancel_requested queued h = absurd (ground arith)
EventOf-state_name cancelling queued h = absurd (ground arith)
EventOf-state_name succeeded queued h = absurd (ground arith)
EventOf-state_name failed queued h = absurd (ground arith)
EventOf-state_name cancelled queued h = absurd (ground arith)
EventOf-state_name failed_to_cancel queued h = absurd (ground arith)
EventOf-state_name timed_out queued h = absurd (ground arith)
EventOf-state_name outcome_unknown queued h = absurd (ground arith)
EventOf-state_name a _ h = refl

-- An appended event keeps the log in step, if it belongs to the state and counts as the attempts do.
push_event-IsLogged :
    (t u : Task) (name : Str) (now : ℕ)
    → IsLogged t
    → u.events ≡ t.events
    → length t.events + 1 < u64_mod
    → EventOf u.state name
    → u.attempt ≡ (t.attempt + (if name == bytes "task.running" then 1 else 0)) % u32_mod
    → IsLogged (push_event u name null now)
unfolding push_event starts_in
push_event-IsLogged t u name now h same room told counted = record {
  numbered =
      rw same
        (Numbered-snoc 0 t.events _ h.numbered (omega (arith, add_u64_exact (length t.events) 1)));
  attempts = rw (same, starts_in-append t.events) (ground arith);
  tells = Tells-snoc u.state u.events _ told;
}

pub new_task-IsLogged :
    (s : Submission) (now event_now : ℕ) (uuid : Str) → IsLogged (new_task s now event_now uuid)
unfolding new_task push_event starts_in add_u64 Str-discrete ℕ_discrete
new_task-IsLogged s now event_now uuid = record {
  numbered = (refl, tt);
  attempts = refl;
  tells = inl refl;
}

pub moved-IsLogged :
    (t : Task) (state : TaskState) (output : Option Value) (error : Option TaskFailure)
    (now event_now : ℕ)
    → IsLogged t
    → length t.events + 1 < u64_mod
    → allowed t.state state ≡ true
    → IsLogged (moved t state output error now event_now)
unfolding moved add_u32
moved-IsLogged t state output error now event_now h room may =
    push_event-IsLogged t _ (bytes "task." ++ state_name state) event_now h refl room
      (EventOf-state_name t.state state may) (rw is_start (ground (arith, h.attempts)))

retried_name : (bytes "task.retried" == bytes "task.running") ≡ false
unfolding Str-discrete ℕ_discrete
retried_name = refl

lost_name : (bytes "task.outcome-unknown" == bytes "task.running") ≡ false
unfolding Str-discrete ℕ_discrete
lost_name = refl

pub requeued-IsLogged :
    (t : Task) (now event_now : ℕ)
    → IsLogged t
    → length t.events + 1 < u64_mod
    → IsLogged (requeued t now event_now)
unfolding requeued
requeued-IsLogged t now event_now h room =
    push_event-IsLogged t _ (bytes "task.retried") event_now h refl room (inr refl)
      (rw retried_name (ground (arith, h.attempts)))

pub orphaned-IsLogged :
    (t : Task) (now event_now : ℕ)
    → IsLogged t
    → length t.events + 1 < u64_mod
    → IsLogged (orphaned t now event_now)
unfolding orphaned state_name
orphaned-IsLogged t now event_now h room =
    push_event-IsLogged t _ (bytes "task.outcome-unknown") event_now h refl room refl
      (rw lost_name (ground (arith, h.attempts)))
