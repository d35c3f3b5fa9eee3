-- ===== src/Observability/Paging.antt =====
-- Reading observations page by page with the cursor of crates/workbench-core/src/observability.rs.
use distributed_workbench.Base.{
  ℕ, zero, suc, ◌≤◌, ◌<◌, Str, Bool, Option, some, ◌≡◌, refl, arith, List, [], ◌∷◌, ◌++◌, ltb, ap,
  ◌∙◌, Bool-cases, inl, inr, sym,
}
use distributed_workbench.Base.Lists.{length, filter, take, drop, take-append-drop, length-drop}
use distributed_workbench.Observability.{
  Store, Row, query, selected, clamp, observations_of, with_id,
}
use distributed_workbench.Schema.Run.{Observation}

-- The ids of the rows go up.
abbrev pub AreBelow : Row → List Row → Type 0
AreBelow r [] = Unit {0}
AreBelow r (q ∷ qs) = (r.event_id < q.event_id) × AreBelow r qs

abbrev pub AreOrdered : List Row → Type 0
AreOrdered [] = Unit {0}
AreOrdered (r ∷ rs) = AreBelow r rs × AreOrdered rs

-- The id of the last observation of a page.
abbrev pub cursor_of : ℕ → List Observation → ℕ
cursor_of after [] = after
cursor_of after (o ∷ os) = cursor_of o.event_id os

abbrev pub page : Store → Option Str → (limit after : ℕ) → List Observation
page s run_id limit after =
    query s record { run_id = run_id; after_event_id = some after; limit = limit }

-- A reader who asks for what comes after the last id of each page, for so many pages.
unfoldable pub read_pages : (pages : ℕ) → Store → Option Str → (limit after : ℕ) → List Observation
read_pages zero s run_id limit after = []
read_pages (suc n) s run_id limit after =
    page s run_id limit after
    ++ read_pages n s run_id limit (cursor_of after (page s run_id limit after))

AreBelow-filter :
    (p : Row → Bool) (r : Row) (rs : List Row) → AreBelow r rs → AreBelow r (filter p rs)
AreBelow-filter p r [] h = tt
AreBelow-filter p r (q ∷ qs) h = ground (arith, AreBelow-filter p r qs h.1)

-- In a list whose ids go up, the rows after the last of its first n rows are the rest.
abbrev last_id : ℕ → List Row → ℕ
last_id after [] = after
last_id after (r ∷ rs) = last_id r.event_id rs

abbrev later : ℕ → Row → Bool
later after r = ltb after r.event_id

abbrev AreAfter : ℕ → List Row → Type 0
AreAfter after [] = Unit {0}
AreAfter after (r ∷ rs) = (after < r.event_id) × AreAfter after rs

filter_after : (after : ℕ) (rs : List Row) → AreAfter after rs → filter (later after) rs ≡ rs
filter_after after [] h = refl
filter_after after (r ∷ rs) h = ground (arith, filter_after after rs h.1)

AreBelow-AreAfter : (r : Row) (rs : List Row) → AreBelow r rs → AreAfter r.event_id rs
AreBelow-AreAfter r [] h = tt
AreBelow-AreAfter r (q ∷ qs) h = (h.0, AreBelow-AreAfter r qs h.1)

last_id-below :
    (n after : ℕ) (rs : List Row)
    → AreAfter after rs
    → AreOrdered rs
    → after ≤ last_id after (take n rs)
unfolding take
last_id-below zero after rs h o = omega arith
last_id-below (suc n) after [] h o = omega arith
last_id-below (suc n) after (r ∷ rs) h o =
    omega (arith, h.0, last_id-below n r.event_id rs (AreBelow-AreAfter r rs o.0) o.1)

filter-take :
    (n after : ℕ) (rs : List Row)
    → AreAfter after rs
    → AreOrdered rs
    → filter (later (last_id after (take n rs))) rs ≡ drop n rs
unfolding take drop
filter-take zero after rs h o = filter_after after rs h
filter-take (suc n) after [] h o = refl
filter-take (suc n) after (r ∷ rs) h o =
    let low = last_id-below n r.event_id rs (AreBelow-AreAfter r rs o.0) o.1 in
    let ih = filter-take n r.event_id rs (AreBelow-AreAfter r rs o.0) o.1 in ground arith

-- Later rows of the selection.
filter-selected :
    (run_id : Option Str) (after next : ℕ) (rs : List Row)
    → after ≤ next
    → filter (later next) (filter (selected run_id after) rs) ≡ filter (selected run_id next) rs
filter-selected run_id after next [] h = refl
filter-selected run_id after next (r ∷ rs) h =
    ground (arith, filter-selected run_id after next rs h)

AreAfter-selected :
    (run_id : Option Str) (after : ℕ) (rs : List Row)
    → AreAfter after (filter (selected run_id after) rs)
AreAfter-selected run_id after [] = tt
AreAfter-selected run_id after (r ∷ rs) = ground (arith, AreAfter-selected run_id after rs)

AreOrdered-filter : (p : Row → Bool) (rs : List Row) → AreOrdered rs → AreOrdered (filter p rs)
AreOrdered-filter p [] h = tt
AreOrdered-filter p (r ∷ rs) h = elim (Bool-cases (p r)) [
  | inl kept ↦ rw kept (AreBelow-filter p r rs h.0, AreOrdered-filter p rs h.1)
  | inr gone ↦ rw gone (AreOrdered-filter p rs h.1)
]

empty : (rs : List Row) → length rs ≤ 0 → rs ≡ []
empty [] h = refl
empty (r ∷ rs) h = absurd (omega arith)

cursor_of-observations :
    (after : ℕ) (rs : List Row) → cursor_of after (observations_of rs) ≡ last_id after rs
cursor_of-observations after [] = refl
cursor_of-observations after (r ∷ rs) = cursor_of-observations r.event_id rs

observations-append :
    (rs qs : List Row) → observations_of (rs ++ qs) ≡ observations_of rs ++ observations_of qs
observations-append [] qs = refl
observations-append (r ∷ rs) qs = ap (◌∷◌ (with_id r)) (observations-append rs qs)

-- The rows behind a page are what the cursor of the page selects.
behind-page :
    (n after : ℕ) (run_id : Option Str) (rs : List Row)
    → AreOrdered rs
    → filter (selected run_id (last_id after (take n (filter (selected run_id after) rs)))) rs
      ≡ drop n (filter (selected run_id after) rs)
behind-page n after run_id rs o =
    let shown = filter (selected run_id after) rs in
    let above = AreAfter-selected run_id after rs in
    let ordered = AreOrdered-filter (selected run_id after) rs o in
    sym (
      filter-selected run_id after (last_id after (take n shown)) rs
        (last_id-below n after shown above ordered))
    ∙ filter-take n after shown above ordered

clamp-pos : (n : ℕ) → 1 ≤ clamp 1 1000 n
unfolding clamp
clamp-pos n = omega arith

-- A reader who follows the cursor gets every observation of the run that comes after the first cursor,
-- each once and in order, whatever the size of the page, once there are as many pages as observations.
pub read_pages-all :
    (pages : ℕ) (s : Store) (run_id : Option Str) (limit after : ℕ)
    → AreOrdered s.observations
    → length (filter (selected run_id after) s.observations) ≤ pages
    → read_pages pages s run_id limit after
      ≡ observations_of (filter (selected run_id after) s.observations)
unfolding read_pages query
read_pages-all zero s run_id limit after o h =
    ap observations_of (sym (empty (filter (selected run_id after) s.observations) (omega arith)))
read_pages-all (suc n) s run_id limit after o h =
    let size = clamp 1 1000 limit in
    let shown = filter (selected run_id after) s.observations in
    let next = last_id after (take size shown) in
    let rest = behind-page size after run_id s.observations o in
    let ih =
      read_pages-all n s run_id limit next o
        (rw rest (omega (arith, length-drop size shown, clamp-pos limit))) in
    rw (cursor_of-observations after (take size shown)) (
      rw ih (
        rw rest (
          sym (observations-append (take size shown) (drop size shown))
          ∙ ap observations_of (take-append-drop size shown))))
