-- ===== src/Executor/Finding.antt =====
-- The grant that `find` gives after the changes of the executor in
-- crates/workbench-runtime/src/executor.rs.
use distributed_workbench.Base.{ℕ, Str, false, some, ◌==◌, ◌≡◌, refl, arith, List, [], ◌∷◌, ◌++◌}
use distributed_workbench.Base.Lists.{filter}
use distributed_workbench.Executor.Grants.{find_grant, revoke_first, revoked_at, other_than}
use distributed_workbench.Schema.Grant.{ReadGrant}

pub find_grant-revoke_first :
    (id : Str) (now : ℕ) (gs : List ReadGrant) (g : ReadGrant)
    → find_grant id gs ≡ some g
    → find_grant id (revoke_first id now gs) ≡ some (revoked_at now g)
unfolding find_grant revoke_first
find_grant-revoke_first id now [] g h = cc
find_grant-revoke_first id now (x ∷ gs) g h = ground (arith, find_grant-revoke_first id now gs g)

pub find_grant-revoke_other :
    (id k : Str) (now : ℕ) (gs : List ReadGrant)
    → (id == k) ≡ false
    → find_grant k (revoke_first id now gs) ≡ find_grant k gs
unfolding find_grant revoke_first
find_grant-revoke_other id k now [] h = refl
find_grant-revoke_other id k now (x ∷ gs) h = ground (arith, find_grant-revoke_other id k now gs)

pub find_grant-filter :
    (id k : Str) (gs : List ReadGrant)
    → (id == k) ≡ false
    → find_grant k (filter (other_than id) gs) ≡ find_grant k gs
unfolding find_grant
find_grant-filter id k [] h = refl
find_grant-filter id k (x ∷ gs) h = ground (arith, find_grant-filter id k gs)

pub find_grant-append :
    (k : Str) (g : ReadGrant) (gs : List ReadGrant)
    → (g.id == k) ≡ false
    → find_grant k (gs ++ g ∷ []) ≡ find_grant k gs
unfolding find_grant
find_grant-append k g [] h = ground arith
find_grant-append k g (x ∷ gs) h = ground (arith, find_grant-append k g gs)
