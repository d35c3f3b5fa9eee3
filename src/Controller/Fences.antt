-- ===== src/Controller/Fences.antt =====
-- The order of the fences that executions carry, and of the leases that a session takes.
use distributed_workbench.Base.{ℕ, ◌<◌, arith, saturating_add, ◌⊎◌, ◌≡◌}
use distributed_workbench.Controller.{executor_execution_fence, saturating_mul}

-- Before the year 10889, a call in a later millisecond carries a higher fence, whatever the two
-- leases, and in one millisecond a lease with a higher fence below 2 ^ 16 carries a higher one.
pub executor_execution_fence-lt :
    (now now' fence fence' : ℕ)
    → now' < 281474976710656
    → (now < now') ⊎ ((now ≡ now') × (fence < fence') × (fence' < 65536))
    → executor_execution_fence now fence < executor_execution_fence now' fence'
unfolding executor_execution_fence saturating_mul saturating_add
executor_execution_fence-lt now now' fence fence' small h = ground arith
