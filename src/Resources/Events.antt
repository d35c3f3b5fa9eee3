-- ===== src/Resources/Events.antt =====
-- An executor with its outstanding permits, and what happens to it, in the order of its mutex.
use distributed_workbench.Base.{ℕ, Str, List, ◌∷◌, Result, Option, suc, ok, err, [], zero}
use distributed_workbench.Json.{Value}
use distributed_workbench.Protocol.{RpcError}
use distributed_workbench.Resources.{Store, Env}
use distributed_workbench.Resources.Commands.{command}
use distributed_workbench.Resources.Permits.{drop_permit, begin}

-- A permit that is given back, or a call of `command` or `begin`.
pub data Event : Type 0 where
  begins : (clock : Str → ℕ) (io : Option Str) (resources : List Str) (grants : List Value) → Event
  drops : (n : ℕ) (io : Option Str) → Event
  commands : Env → (action : Str) (params : Value) → Event

-- The executor with the permits that are outstanding.
pub record Executor : Type 0 where
  pub store : Store
  pub permits : List (List Str)

abbrev pub nth : ℕ → List (List Str) → List Str
nth n [] = []
nth zero (p ∷ ps) = p
nth (suc n) (p ∷ ps) = nth n ps

abbrev pub drop_nth : ℕ → List (List Str) → List (List Str)
drop_nth n [] = []
drop_nth zero (p ∷ ps) = ps
drop_nth (suc n) (p ∷ ps) = p ∷ drop_nth n ps

abbrev pub admit : List (List Str) → Result RpcError (List Str) × Store → Executor
admit ps (ok p, s) = record { store = s; permits = p ∷ ps }
admit ps (err e, s) = record { store = s; permits = ps }

module _ (sha : Str → Str) where
  unfoldable pub react : Executor → Event → Executor
  react x (begins clock io resources grants) =
      admit x.permits (begin sha x.store clock io resources grants)
  react x (drops n io) = record {
    store = drop_permit sha io (nth n x.permits) x.store;
    permits = drop_nth n x.permits;
  }
  react x (commands env action params) = record x {
    store = (command sha x.store env action params).1;
  }

  unfoldable pub run_events : Executor → List Event → Executor
  run_events x [] = x
  run_events x (e ∷ es) = run_events (react x e) es
