-- ===== src/Observability/Runs.antt =====
-- The life of a run in crates/workbench-core/src/observability.rs.
use distributed_workbench.Base.{
  ℕ, Str, bytes, true, false, Option, some, ◌≡◌, refl, arith, List, [], ◌∷◌, ◌++◌, ok, >>=-eq-ok,
  guard, ok_or, ok_or-eq-ok, not, ok-injective, subst, ap, guard-eq-ok,
}
use distributed_workbench.Observability.{
  run_not_found, invalid_transition, RunRow, Store, get_run, finish_run, finished, find_row,
  update_rows,
}
use distributed_workbench.Schema.Run.{Run, RunStatus, is_running}

find_row-update_rows :
    (id : Str) (run : Run) (rows : List RunRow) (old : Run)
    → run.run_id ≡ id
    → find_row id rows ≡ some old
    → find_row id (update_rows id run rows) ≡ some run
find_row-update_rows id run [] old same h = cc
find_row-update_rows id run (r ∷ rs) old same h = ground (arith, find_row-update_rows id run rs old)

find_row-id :
    (id : Str) (rows : List RunRow) (run : Run) → find_row id rows ≡ some run → run.run_id ≡ id
find_row-id id [] run h = cc
find_row-id id (r ∷ rs) run h = ground (arith, find_row-id id rs run)

-- What a successful finish tells.
pub record IsFinished (s : Store) (id : Str) (t : Store) (run : Run) : Type 0 where
  pub old : Run
  pub found : get_run s id ≡ some old
  pub ran : is_running old.status ≡ true
  pub same_id : run.run_id ≡ id
  pub over : is_running run.status ≡ false
  pub listed : get_run t id ≡ some run
  pub observations : t.observations ≡ s.observations

abbrev updated : Store → Str → Run → Store
updated s id run = record s { runs = update_rows id run s.runs }

finished-IsFinished :
    (s : Store) (id : Str) (status : RunStatus) (at_ms : ℕ) (outcome : Option Str) (old : Run)
    → get_run s id ≡ some old
    → is_running old.status ≡ true
    → is_running status ≡ false
    → IsFinished s id
        (updated s id (finished old status at_ms outcome))
        (finished old status at_ms outcome)
unfolding finished get_run
finished-IsFinished s id status at_ms outcome old there ran ended =
    let named = find_row-id id s.runs old there in
    record {
      old = old;
      found = there;
      ran = ran;
      same_id = named;
      over = ended;
      listed = find_row-update_rows id (finished old status at_ms outcome) s.runs old named there;
      observations = refl;
    }

pub finish_run-IsFinished :
    (s : Store) (id : Str) (status : RunStatus) (at_ms : ℕ) (outcome : Option Str) (t : Store)
    (run : Run)
    → finish_run s id status at_ms outcome ≡ ok (t, run)
    → IsFinished s id t run
unfolding finish_run
finish_run-IsFinished s id status at_ms outcome t run h =
    let first =
      >>=-eq-ok
        (guard (not (is_running status))
          (invalid_transition (bytes "finished run cannot remain running")))
        _ h in
    let second = >>=-eq-ok (ok_or (get_run s id) (run_not_found id)) _ first.2 in
    let third =
      >>=-eq-ok
        (guard (is_running second.0.status)
          (invalid_transition (bytes "run " ++ (id ++ bytes " is already terminal"))))
        _ second.2 in
    let ended = guard-eq-ok (not (is_running status)) _ first.1 in
    let there = ok_or-eq-ok (get_run s id) (run_not_found id) second.1 in
    let ran = guard-eq-ok (is_running second.0.status) _ third.1 in
    let pair = ok-injective third.2 in
    let done = finished-IsFinished s id status at_ms outcome second.0 there ran (ground arith) in
    subst (λ x. IsFinished s id x run) (ap (λ p. p.0) pair)
      (subst (λ y. IsFinished s id (updated s id (finished second.0 status at_ms outcome)) y)
        (ap (λ p. p.1) pair) done)
