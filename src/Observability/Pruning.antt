-- ===== src/Observability/Pruning.antt =====
-- What the retention of crates/workbench-core/src/observability.rs leaves.
use distributed_workbench.Base.{
  ℕ, zero, suc, ◌+◌, ◌-◌, ◌≤◌, ◌<◌, ◌≡◌, refl, arith, true, false, Option, none, some, List, [],
  ◌∷◌, Bool-cases, inl, inr, ◌⊎◌, leb, leb→le, sym, ◌∙◌,
}
use distributed_workbench.Base.Lists.{length, filter, drop, length-drop, length-filter-le}
use distributed_workbench.Observability.{
  Store, Row, shrink, batch, unexpired, prune_with_max_bytes, is_kept, retention_ms,
}

-- The rows left are the latest of those that were there, the count of the rows removed is right, and
-- the files are small enough or no row is left.
pub record IsShrunk (database_bytes : Store → ℕ) (limit : ℕ) (s t : Store) (before removed : ℕ)
    : Type 0 where
  pub gone : ℕ
  pub latest : t.observations ≡ drop gone s.observations
  pub runs : t.runs ≡ s.runs
  pub counted : removed + length t.observations ≡ before + length s.observations
  pub small : (database_bytes t ≤ limit) ⊎ (t.observations ≡ [])

drop-zero : (rs : List Row) → drop 0 rs ≡ rs
unfolding drop
drop-zero rs = refl

drop-nil : (n : ℕ) → drop {A = Row} n [] ≡ []
unfolding drop
drop-nil zero = refl
drop-nil (suc n) = refl

drop-drop : (m n : ℕ) (rs : List Row) → drop m (drop n rs) ≡ drop (n + m) rs
unfolding drop
drop-drop m zero rs = let e : 0 + m ≡ m = omega arith in rw e refl
drop-drop m (suc n) [] = drop-nil m ∙ sym (drop-nil (suc n + m))
drop-drop m (suc n) (r ∷ rs) =
    let e : suc n + m ≡ suc (n + m) = omega arith in rw e (drop-drop m n rs)

no_rows : (rs : List Row) → leb (batch rs) 0 ≡ true → rs ≡ []
no_rows [] h = refl
no_rows (r ∷ rs) h = absurd (ground arith)

batch-bounds : (rs : List Row) → leb (batch rs) 0 ≡ false → (1 ≤ batch rs) × (batch rs ≤ length rs)
batch-bounds rs h = ground arith

module _ (database_bytes : Store → ℕ) (limit : ℕ) where
  -- The loop has ended, and well.
  abbrev pub Ends : Store → ℕ → Option (Store × ℕ) → Type 0
  Ends s before none = ⊥
  Ends s before (some (t, removed)) = IsShrunk database_bytes limit s t before removed

  Ends-drop :
      (s : Store) (before k : ℕ) (r : Option (Store × ℕ))
      → k ≤ length s.observations
      → Ends (record s { observations = drop k s.observations }) (before + k) r
      → Ends s before r
  Ends-drop s before k none h e = e
  Ends-drop s before k (some (t, removed)) h e = record {
    gone = k + e.gone;
    latest = e.latest ∙ drop-drop e.gone k s.observations;
    runs = e.runs;
    counted = omega (arith, e.counted, length-drop k s.observations);
    small = e.small;
  }

  shrink-Ends :
      (rounds : ℕ) (s : Store) (before : ℕ)
      → length s.observations < rounds
      → Ends s before (shrink database_bytes rounds limit s before)
  unfolding shrink
  shrink-Ends zero s before h = absurd (omega arith)
  shrink-Ends (suc n) s before h = elim (Bool-cases (leb (database_bytes s) limit)) [
    | inl fits ↦
        rw (fits, shrink)
          record {
            gone = 0;
            latest = sym (drop-zero s.observations);
            runs = refl;
            counted = refl;
            small = inl (leb→le (database_bytes s) limit fits);
          }
    | inr big ↦ elim (Bool-cases (leb (batch s.observations) 0)) [
      | inl spent ↦
          rw (big, shrink)
            (rw (spent, shrink)
              record {
                gone = 0;
                latest = sym (drop-zero s.observations);
                runs = refl;
                counted = refl;
                small = inr (no_rows s.observations spent);
              })
      | inr more ↦
          let bounds = batch-bounds s.observations more in
          let next = record s { observations = drop (batch s.observations) s.observations } in
          rw (big, shrink)
            (rw (more, shrink)
              (Ends-drop s before (batch s.observations)
                (shrink database_bytes n limit next (before + batch s.observations)) bounds.1
                (shrink-Ends n next (before + batch s.observations)
                  (omega (arith, bounds.0, length-drop (batch s.observations) s.observations)))))
    ]
  ]

-- A prune ends where a round is allowed for each observation and one more. Of the observations and
-- runs that the retention has left, it keeps every run and the latest observations, counts those that
-- it has removed, and ends with files that are small enough or without observations.
pub prune_with_max_bytes-Ends :
    (database_bytes : Store → ℕ) (rounds : ℕ) (s : Store) (now_ms limit : ℕ)
    → length s.observations < rounds
    → Ends database_bytes limit
        (unexpired database_bytes (now_ms - retention_ms) s)
        (length s.observations - length (filter (is_kept (now_ms - retention_ms)) s.observations))
        (prune_with_max_bytes database_bytes rounds s now_ms limit)
unfolding prune_with_max_bytes
prune_with_max_bytes-Ends database_bytes rounds s now_ms limit h =
    shrink-Ends database_bytes limit rounds (unexpired database_bytes (now_ms - retention_ms) s)
      (length s.observations - length (filter (is_kept (now_ms - retention_ms)) s.observations))
      (omega (arith, length-filter-le (is_kept (now_ms - retention_ms)) s.observations))
