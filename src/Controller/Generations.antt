-- ===== src/Controller/Generations.antt =====
-- `generation_transition_allowed` of crates/workbench-runtime/src/controller.rs.
use distributed_workbench.Base.{
  ◌≡◌, ℕ, List, Bool, ◌≤◌, ◌∷◌, ◌||◌, true, ◌⊎◌, ◌≢◌, false, [], ◌+◌, refl, arith, inl, inr,
  ℕ_discrete,
}
use distributed_workbench.Schema.Generation.{
  GenerationState, same_state, reserved, materializing, materialized, validated, finalized,
  smoke_passed, active, superseded, failed,
}

unfoldable pub moves : GenerationState → GenerationState → Bool
moves reserved materializing = true
moves reserved failed = true
moves materializing materialized = true
moves materializing failed = true
moves materialized validated = true
moves materialized failed = true
moves validated finalized = true
moves validated failed = true
moves finalized smoke_passed = true
moves finalized failed = true
moves smoke_passed active = true
moves smoke_passed failed = true
moves active superseded = true
moves _ _ = false

unfoldable pub generation_transition_allowed : GenerationState → GenerationState → Bool
generation_transition_allowed from to = same_state from to || moves from to

-- A history that starts with a state, each step of which is allowed.
abbrev pub AreAllowed : GenerationState → List GenerationState → Type 0
AreAllowed s [] = Unit {0}
AreAllowed s (t ∷ ts) = (generation_transition_allowed s t ≡ true) × AreAllowed t ts

abbrev pub last_state : GenerationState → List GenerationState → GenerationState
last_state s [] = s
last_state s (t ∷ ts) = last_state t ts

-- The state occurs in the history.
abbrev pub Passes : GenerationState → GenerationState → List GenerationState → Type 0
Passes u s [] = u ≡ s
Passes u s (t ∷ ts) = (u ≡ s) ⊎ Passes u t ts

-- How many stages lie behind a state.
abbrev pub stage : GenerationState → ℕ
stage reserved = 0
stage materializing = 1
stage materialized = 2
stage validated = 3
stage finalized = 4
stage smoke_passed = 5
stage active = 6
stage superseded = 7
stage failed = 8

stage-injective : (s t : GenerationState) → stage s ≡ stage t → s ≡ t
stage-injective s t h = ground arith

-- A step leads to the same state, to `failed`, or one stage on.
step-stage :
    (s t : GenerationState)
    → generation_transition_allowed s t ≡ true
    → (t ≡ s) ⊎ ((t ≡ failed) ⊎ (stage t ≡ stage s + 1))
unfolding generation_transition_allowed moves
step-stage s t h = ground arith

failed-next : (t : GenerationState) → generation_transition_allowed failed t ≡ true → t ≡ failed
unfolding generation_transition_allowed moves
failed-next t h = ground arith

failed-final : (ts : List GenerationState) → AreAllowed failed ts → last_state failed ts ≡ failed
unfolding generation_transition_allowed moves
failed-final [] h = refl
failed-final (t ∷ ts) h =
    let e : t ≡ failed = failed-next t h.0 in rw e (failed-final ts (rw e at h.1))

-- No stage is skipped: a generation that goes from one state to another by allowed steps, and has not
-- failed there, has passed every state whose stage lies between the two.
pub last_state-Passes :
    (u s : GenerationState) (ts : List GenerationState)
    → AreAllowed s ts
    → stage s ≤ stage u
    → stage u ≤ stage (last_state s ts)
    → (last_state s ts ≢ failed)
    → Passes u s ts
last_state-Passes u s [] h low high good = stage-injective u s (omega arith)
last_state-Passes u s (t ∷ ts) h low high good = elim (step-stage s t h.0) [
  | inl same ↦ inr (last_state-Passes u t ts h.1 (rw same low) high good)
  | inr (inl over) ↦ absurd (good (rw over (failed-final ts (rw over at h.1))))
  | inr (inr on) ↦ elim (ℕ_discrete (stage u) (stage s)) [
    | yes here ↦ inl (stage-injective u s here)
    | no later ↦ inr (last_state-Passes u t ts h.1 (omega (arith, on, low, later)) high good)
  ]
]
