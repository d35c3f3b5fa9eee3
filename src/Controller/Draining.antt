-- ===== src/Controller/Draining.antt =====
-- What a refresh of the driver handoffs promises.
use distributed_workbench.Base.{Str, Bool, ℕ, List, ◌∷◌, ◌≡◌, true, ◌<◌, false, []}
use distributed_workbench.Controller.Handoffs.{is_open, is_ready}
use distributed_workbench.Schema.Handoff.{DriverHandoffRequest}
use distributed_workbench.Schema.Task.{Task}

-- The requests of the workspace are settled: one that is open has not run out, and it is ready
-- unless the workspace is busy.
abbrev pub AreSettled : Bool → Str → ℕ → List DriverHandoffRequest → Type 0
AreSettled busy workspace now [] = Unit {0}
AreSettled busy workspace now (r ∷ rs) =
    (r.workspace_session_id ≡ workspace
      → is_open r.state ≡ true
      → (now < r.expires_at) × (busy ≡ false → is_ready r.state ≡ true))
    × AreSettled busy workspace now rs
