-- ===== src/Desktop/Order.antt =====
-- The order in which sessions are given the desktop.
use distributed_workbench.Base.{
  ℕ, ◌≡◌, ◌⊎◌, Str, Option, none, some, Bool, true, false, List, [], ◌∷◌, ◌++◌, refl, arith, inl,
  inr, Bool-cases, Option-cases, add_u64, ap, ◌∙◌, ◌==◌, bytes, saturating_add,
}
use distributed_workbench.Base.Lists.{All}
use distributed_workbench.Desktop.{
  Job, Desktop, find_job, at_first, is_queued, may_promote, started, promote, no_job, is_none,
  holds, DesktopQueue,
}
use distributed_workbench.Desktop.Exclusive.{save-queue}

-- The first job that passes, with the jobs in front of it and behind it.
pub record FirstOf (p : Job → Bool) (jobs : List Job) (j : Job) : Type 0 where
  pub before : List Job
  pub after : List Job
  pub whole : jobs ≡ before ++ (j ∷ after)
  pub passed_over : All (λ k. p k ≡ false) before
  pub chosen : p j ≡ true
  pub replaced : (f : Job → Job) → at_first p f jobs ≡ before ++ (f j ∷ after)

find_job-FirstOf :
    (p : Job → Bool) (jobs : List Job) (j : Job) → find_job p jobs ≡ some j → FirstOf p jobs j
unfolding find_job at_first
find_job-FirstOf p [] j h = cc
find_job-FirstOf p (k ∷ ks) j h = elim (Bool-cases (p k)) [
  | inl hit ↦ record {
    before = [];
    after = ks;
    whole = ground (arith, hit);
    passed_over = tt;
    chosen = ground (arith, hit);
    replaced = λ f. ground (arith, hit);
  }
  | inr miss ↦
      let rest = find_job-FirstOf p ks j (ground (arith, miss)) in
      record {
        before = k ∷ rest.before;
        after = rest.after;
        whole = ap (◌∷◌ k) rest.whole;
        passed_over = (miss, rest.passed_over);
        chosen = rest.chosen;
        replaced = λ f. rw miss (ap (◌∷◌ k) (rest.replaced f));
      }
]

find_job-none :
    (p : Job → Bool) (jobs : List Job) → find_job p jobs ≡ none → All (λ k. p k ≡ false) jobs
unfolding find_job
find_job-none p [] h = tt
find_job-none p (k ∷ ks) h = (ground arith, find_job-none p ks (ground arith))

-- A session that has the desktop.
abbrev pub HasDesktop : Job → Type 0
HasDesktop j = (j.state ≡ bytes "active") ⊎ (j.state ≡ bytes "draining")

-- Something keeps the queue from moving on.
pub data IsHeldBack (q : DesktopQueue) : Type 0 where
  maintained : (owner : Str) → q.maintenance_owner ≡ some owner → IsHeldBack q
  stopped : q.blocked ≡ true → IsHeldBack q
  busy : q.in_flight ≡ true → IsHeldBack q
  taken :
      (before : List Job) (j : Job) (after : List Job)
      → q.jobs ≡ before ++ (j ∷ after)
      → HasDesktop j
      → IsHeldBack q

-- Nothing does.
pub record IsOpen (q : DesktopQueue) : Type 0 where
  pub unmaintained : q.maintenance_owner ≡ none
  pub unblocked : q.blocked ≡ false
  pub idle : q.in_flight ≡ false
  pub untaken : All (λ j. ¬ HasDesktop j) q.jobs

holds-HasDesktop : (j : Job) → holds j ≡ true → HasDesktop j
holds-HasDesktop j h = elim (Bool-cases (j.state == bytes "active")) [
  | inl active ↦ inl (ground arith)
  | inr other ↦ inr (ground arith)
]

not_holds : (j : Job) → holds j ≡ false → ¬ HasDesktop j
not_holds j h (inl active) = ground arith
not_holds j h (inr draining) = ground arith

none_holds : (jobs : List Job) → All (λ j. holds j ≡ false) jobs → All (λ j. ¬ HasDesktop j) jobs
none_holds [] h = tt
none_holds (j ∷ js) h = (not_holds j h.0, none_holds js h.1)

held_back : (q : DesktopQueue) → may_promote q ≡ false → IsHeldBack q
held_back q h = elim (Option-cases q.maintenance_owner) [
  | inr (owner, given) ↦ maintained owner given
  | inl free ↦ elim (Bool-cases q.blocked) [
    | inl stop ↦ stopped stop
    | inr unblocked ↦ elim (Bool-cases q.in_flight) [
      | inl flying ↦ busy flying
      | inr idle ↦ elim (Option-cases (find_job holds q.jobs)) [
        | inr (j, found) ↦
            let first = find_job-FirstOf holds q.jobs j found in
            taken first.before j first.after first.whole (holds-HasDesktop j first.chosen)
        | inl empty ↦ cc (rw (free, unblocked, idle, empty) at h)
      ]
    ]
  ]
]

no_job-All :
    (jobs : List Job) → no_job (find_job holds jobs) ≡ true → All (λ j. ¬ HasDesktop j) jobs
no_job-All jobs h = elim (Option-cases (find_job holds jobs)) [
  | inl empty ↦ none_holds jobs (find_job-none holds jobs empty)
  | inr (j, found) ↦ cc (rw found at h)
]

unmaintained_if : (owner : Option Str) → is_none owner ≡ true → owner ≡ none
unmaintained_if none h = refl
unmaintained_if (some owner) h = cc

opened : (q : DesktopQueue) → may_promote q ≡ true → IsOpen q
opened q h = record {
  unmaintained = unmaintained_if q.maintenance_owner (ground (arith, h));
  unblocked = ground (arith, h);
  idle = ground (arith, h);
  untaken = no_job-All q.jobs (ground (arith, h));
}

-- `promote` leaves the queue as it is where someone has it for maintenance, or it is blocked, or a call
-- is under way, or a job is active or draining, or no job is queued. Where none of these is so, it
-- makes the first queued job active, with the next epoch and the time of its term from now on as its
-- deadline, and changes no other job.
pub promote-first :
    (now : ℕ) (io : Option Str) (d : Desktop)
    → (((promote now io d).1.queue ≡ d.queue)
        × (IsHeldBack d.queue ⊎ All (λ k. (k.state == bytes "queued") ≡ false) d.queue.jobs))
      ⊎ (IsOpen d.queue
          × (j : Job) × (first : FirstOf (λ k. k.state == bytes "queued") d.queue.jobs j)
          × ((promote now io d).1.queue ≡ record d.queue {
            epoch = add_u64 d.queue.epoch 1;
            jobs =
                first.before
                ++ (record j {
                  epoch = add_u64 d.queue.epoch 1;
                  state = bytes "active";
                  expires_at = saturating_add now j.ttl_ms;
                }
                    ∷ first.after);
          }))
unfolding promote
promote-first now io d = elim (Bool-cases (may_promote d.queue)) [
  | inr may_not ↦ inl (rw (may_not, promote) refl, inl (held_back d.queue may_not))
  | inl may ↦ elim (Option-cases (find_job is_queued d.queue.jobs)) [
    | inl empty ↦ inl (
      rw (may, promote) (rw (empty, promote) refl),
      inr (find_job-none is_queued d.queue.jobs empty),
    )
    | inr (j, next) ↦
        let first = find_job-FirstOf is_queued d.queue.jobs j next in
        let epoch = add_u64 d.queue.epoch 1 in
        inr (
          opened d.queue may,
          j,
          first,
          rw (may, promote)
              (rw (next, promote)
                (save-queue io
                    (record d.queue {
                      epoch = epoch;
                      jobs = at_first is_queued (started epoch now) d.queue.jobs;
                    })
                    d
                  ∙ ap (λ js. record d.queue { epoch = epoch; jobs = js })
                      (first.replaced (started epoch now)))),
        )
  ]
]
