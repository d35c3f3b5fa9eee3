-- ===== src/Peer/Backoff.antt =====
-- How long the loop of `connect_peer` in crates/workbench-runtime/src/peer.rs sleeps.
use native.Mathlib.Nat.{pow-succ', one-le-pow}
use distributed_workbench.Base.{
  ℕ, suc, ◌*◌, ◌^◌, ◌≤◌, ◌<◌, ◌≡◌, arith, List, [], ◌∷◌, min, Bool-cases, leb, inl, inr, refl, ◌∙◌,
}
use distributed_workbench.Base.Lists.{All}
use distributed_workbench.Peer.{
  next_peer_backoff, backoff_initial, backoff_max, stable_connection, Attempt, connect_sleeps,
}

next_in_bounds :
    (current elapsed : ℕ)
    → backoff_initial ≤ current
    → (backoff_initial ≤ next_peer_backoff current elapsed)
      × (next_peer_backoff current elapsed ≤ backoff_max)
unfolding next_peer_backoff
next_in_bounds current elapsed h = ground arith

-- Every sleep is between one second and one minute.
pub connect_sleeps-InBounds :
    (backoff : ℕ) (attempts : List Attempt)
    → backoff_initial ≤ backoff
    → All (λ s. (backoff_initial ≤ s) × (s ≤ backoff_max)) (connect_sleeps backoff attempts)
unfolding connect_sleeps
connect_sleeps-InBounds backoff [] h = tt
connect_sleeps-InBounds backoff (a ∷ rest) h =
    let step = next_in_bounds backoff a.elapsed h in
    (step, connect_sleeps-InBounds (next_peer_backoff backoff a.elapsed) rest step.0)

-- All attempts ended before the connection was stable.
abbrev pub AreShort : List Attempt → Type 0
AreShort [] = Unit {0}
AreShort (a ∷ rest) = (a.elapsed < stable_connection) × AreShort rest

abbrev pub last_sleep : ℕ → List ℕ → ℕ
last_sleep d [] = d
last_sleep d (s ∷ rest) = last_sleep s rest

abbrev pub count : List Attempt → ℕ
count [] = 0
count (a ∷ rest) = suc (count rest)

next_short :
    (current elapsed : ℕ)
    → elapsed < stable_connection
    → next_peer_backoff current elapsed ≡ min (current * 2) backoff_max
unfolding next_peer_backoff
next_short current elapsed h = ground arith

le-mul : (x p : ℕ) → 1 ≤ p → x ≤ x * p
le-mul x p h = grind arith

capped : (b p : ℕ) → 1 ≤ p → min (min (b * 2) 60000 * p) 60000 ≡ min (b * (2 * p)) 60000
capped b p h = elim (Bool-cases (leb (b * 2) 60000)) [
  | inl low ↦
      let e : min (b * 2) 60000 ≡ b * 2 = ground arith in
      let f : b * 2 * p ≡ b * (2 * p) = grind arith in rw (e, f) refl
  | inr high ↦
      let e : min (b * 2) 60000 ≡ 60000 = ground arith in
      let f : b * (2 * p) ≡ b * 2 * p = grind arith in
      rw (e, f) (ground (arith, le-mul (b * 2) p h, le-mul 60000 p h))
]

-- Where no connection becomes stable, the sleeps double up to a minute: after n attempts in a row the
-- last sleep is the first backoff times 2 ^ n, or a minute if that is less.
pub last_sleep-connect_sleeps :
    (backoff : ℕ) (attempts : List Attempt)
    → AreShort attempts
    → backoff ≤ backoff_max
    → last_sleep backoff (connect_sleeps backoff attempts)
      ≡ min (backoff * 2 ^ count attempts) backoff_max
unfolding connect_sleeps
last_sleep-connect_sleeps backoff [] h low = omega arith
last_sleep-connect_sleeps backoff (a ∷ rest) h low = rw (next_short backoff a.elapsed h.0) (
    last_sleep-connect_sleeps (min (backoff * 2) backoff_max) rest h.1 (omega arith)
    ∙ (rw (pow-succ' 2 (count rest))
        (capped backoff (2 ^ count rest) (one-le-pow (count rest) 2 (omega arith)))))
