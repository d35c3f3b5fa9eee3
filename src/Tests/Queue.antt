-- ===== src/Tests/Queue.antt =====
-- The desktop queue on concrete calls.
use distributed_workbench.Base.{
  ◌≡◌, ◌<◌, Str, bytes, List, [], ◌∷◌, some, none, true, false, refl, ok, arith, Str-discrete,
  ℕ_discrete, ◌++◌, ◌⊎◌, add_u64, ◌==◌, saturating_add,
}
use distributed_workbench.Base.Lists.{All}
use distributed_workbench.Desktop.{
  promote, Job, Desktop, DesktopQueue, default_queue, find_job, holds, save,
}
use distributed_workbench.Desktop.Access.{begin-presents}
use distributed_workbench.Desktop.Exclusive.{IsExclusive, holding}
use distributed_workbench.Desktop.Exclusive.History.{
  Action, commands, begins, ends, looks, cleans, run_actions, run_actions-IsExclusive,
}
use distributed_workbench.Desktop.Order.{FirstOf, promote-first, IsHeldBack, IsOpen}
use distributed_workbench.Desktop.Sessions.{begin, admit, session_params, presents}
use distributed_workbench.Desktop.Submission.{Env}
use distributed_workbench.Json.{Value, string, object, field, end, get, get_field, as_str}

abbrev active_job : Job
active_job = record {
  id = bytes "j";
  owner = bytes "alice";
  request_key = bytes "k";
  token = bytes "t";
  state = bytes "active";
  epoch = 1;
  ttl_ms = 900000;
  submitted_at = 10;
  expires_at = 900020;
}

abbrev queue : DesktopQueue
queue = record default_queue { path = some (bytes "f"); epoch = 1; jobs = active_job ∷ [] }

abbrev desktop : Desktop
desktop = record { queue = queue; file = none }

abbrev click : Value
click = object (
    field (bytes "_desktop")
      (object (
        field (bytes "owner") (string (bytes "alice"))
          (field (bytes "token") (string (bytes "t")) end)))
      end)

abbrev clicking : Desktop
clicking = record {
  queue = record queue { in_flight = true };
  file = some (record queue { in_flight = true });
}

holder : find_job holds queue.jobs ≡ some active_job
unfolding find_job Str-discrete ℕ_discrete
holder = refl

click_begun : begin 100 none (bytes "ui.click") click desktop ≡ (ok click, clicking)
unfolding begin admit session_params get get_field as_str find_job save Str-discrete ℕ_discrete
click_begun = refl

begin-presents_example :
    (false ≡ false)
    × (false ≡ false)
    × (bytes "active" ≡ bytes "active")
    × (100 < 900020)
    × (presents click (bytes "token") (bytes "t") ≡ true)
    × (presents click (bytes "owner") (bytes "alice") ≡ true)
    × (true ≡ true)
begin-presents_example =
    begin-presents 100 none (bytes "ui.click") click click desktop clicking active_job holder
      click_begun

abbrev env : Env
env = record {
  checked = 20;
  now = 20;
  promoted = 20;
  id_uuid = bytes "j";
  token_uuid = bytes "t";
  io = none;
  promote_io = none;
}

abbrev submission : Str → Value
submission key =
    object
      (field (bytes "owner") (string (bytes "alice")) (field (bytes "requestKey") (string key) end))

-- Two sessions are submitted; the first is given the desktop, acts, runs out and is cleaned up.
abbrev actions : List Action
actions =
    commands env (bytes "desktop.submit") (submission (bytes "k"))
    ∷ commands env (bytes "desktop.submit") (submission (bytes "l"))
    ∷ begins 100 none (bytes "ui.click") click
    ∷ ends false none
    ∷ looks 900020
    ∷ cleans true 900020 900020 none (some (bytes "disk full"))
    ∷ []

abbrev empty : Desktop
empty = record { queue = default_queue; file = none }

empty-IsExclusive : IsExclusive empty.queue
unfolding holding
empty-IsExclusive = omega arith

run_actions-IsExclusive_example : IsExclusive (run_actions empty actions).queue
run_actions-IsExclusive_example = run_actions-IsExclusive empty actions empty-IsExclusive

-- The second session waits behind one that is done.
abbrev waiting : Desktop
waiting = record desktop {
  queue = record queue {
    jobs =
        record active_job { state = bytes "completed" }
        ∷ record active_job { id = bytes "k"; state = bytes "queued"; epoch = 0 }
        ∷ [];
  };
}

promote-first_example :
    (((promote 50 none waiting).1.queue ≡ waiting.queue)
      × (IsHeldBack waiting.queue
          ⊎ All (λ k. (k.state == bytes "queued") ≡ false) waiting.queue.jobs))
    ⊎ (IsOpen waiting.queue
        × (j : Job) × (first : FirstOf (λ k. k.state == bytes "queued") waiting.queue.jobs j)
        × ((promote 50 none waiting).1.queue ≡ record waiting.queue {
          epoch = add_u64 1 1;
          jobs =
              first.before
              ++ (record j {
                epoch = add_u64 1 1;
                state = bytes "active";
                expires_at = saturating_add 50 j.ttl_ms;
              }
                  ∷ first.after);
        }))
promote-first_example = promote-first 50 none waiting
