-- ===== src/Desktop/Exclusive.antt =====
-- The desktop has one session at a time.
pub mod Branches
pub mod History
use distributed_workbench.Base.{
  ◌≤◌, ◌≡◌, ℕ, Result, Option, List, Bool, ◌∷◌, ◌+◌, ◌++◌, true, none, Str, Result-cases, subst,
  some, ok, inl, if◌then◌else◌, arith, Option-cases, Bool-cases, sym, refl, inr, false, err, bytes,
  [], add_u64, ◌==◌,
}
use distributed_workbench.Desktop.{
  Job, DesktopQueue, Desktop, write, save, promote, and_then, find_job, at_first, holds,
  may_promote, is_queued, started, with_state, update,
}
use distributed_workbench.Desktop.Commands.{
  stopped, session, session_command, recover, command, changed, of_session, not_recoverable,
  find_session, known_as,
}
use distributed_workbench.Desktop.Submission.{
  Env, save_and_promote, maintenance, maintenance_owner_after, new_job, submit_new, submit,
  requested_by, two_fields,
}
use distributed_workbench.Json.{Value}
use distributed_workbench.Protocol.{RpcError}

-- How many jobs hold the desktop.
unfoldable pub holding : List Job → ℕ
holding [] = 0
holding (j ∷ js) = (if holds j then 1 else 0) + holding js

abbrev pub IsExclusive : DesktopQueue → Type 0
IsExclusive q = holding q.jobs ≤ 1

pub holding-append : (js ks : List Job) → holding (js ++ ks) ≡ holding js + holding ks
unfolding holding
holding-append [] ks = omega arith
holding-append (j ∷ js) ks = omega (arith, holding-append js ks)

-- A change that gives the desktop to no job.
pub holding-at_first :
    (p : Job → Bool) (f : Job → Job) (js : List Job)
    → ((j : Job) → p j ≡ true → holds (f j) ≡ true → holds j ≡ true)
    → holding (at_first p f js) ≤ holding js
unfolding holding at_first
holding-at_first p f [] h = omega arith
holding-at_first p f (j ∷ js) h = ground (arith, holding-at_first p f js h, h j)

holding-at_first_any :
    (p : Job → Bool) (f : Job → Job) (js : List Job) → holding (at_first p f js) ≤ holding js + 1
unfolding holding at_first
holding-at_first_any p f [] = omega arith
holding-at_first_any p f (j ∷ js) = ground (arith, holding-at_first_any p f js)

pub holding-none : (js : List Job) → find_job holds js ≡ none → holding js ≡ 0
unfolding holding find_job
holding-none [] h = refl
holding-none (j ∷ js) h = ground (arith, holding-none js)

write-queue : (path io : Option Str) (d : Desktop) → (write path io d).1.queue ≡ d.queue
write-queue none io d = refl
write-queue (some path) none d = refl
write-queue (some path) (some reason) d = refl

pub save-queue : (io : Option Str) (q : DesktopQueue) (d : Desktop) → (save io q d).1.queue ≡ q
unfolding save
save-queue io q d = write-queue q.path io (record d { queue = q })

pub save-IsExclusive :
    (io : Option Str) (q : DesktopQueue) (d : Desktop)
    → IsExclusive q
    → IsExclusive (save io q d).1.queue
save-IsExclusive io q d h = subst IsExclusive (sym (save-queue io q d)) h

may_promote-free : (q : DesktopQueue) → may_promote q ≡ true → find_job holds q.jobs ≡ none
may_promote-free q h = elim (Option-cases (find_job holds q.jobs)) [
  | inl free ↦ free
  | inr (j, taken) ↦ absurd (ground arith)
]

pub promote-IsExclusive :
    (now : ℕ) (io : Option Str) (d : Desktop)
    → IsExclusive d.queue
    → IsExclusive (promote now io d).1.queue
unfolding promote
promote-IsExclusive now io d h = elim (Bool-cases (may_promote d.queue)) [
  | inr may_not ↦ rw (may_not, promote) h
  | inl may ↦ elim (Option-cases (find_job is_queued d.queue.jobs)) [
    | inl empty ↦ rw (may, promote) (rw (empty, promote) h)
    | inr (j, next) ↦
        let free = holding-none d.queue.jobs (may_promote-free d.queue may) in
        let epoch = add_u64 d.queue.epoch 1 in
        rw (may, promote)
          (rw (next, promote)
            (save-IsExclusive io _ d (
              omega
                (arith, free, holding-at_first_any is_queued (started epoch now) d.queue.jobs))))
  ]
]

pub and_then-IsExclusive :
    {A : Type 0} (r : Result RpcError (Unit {0}) × Desktop)
    (next : Desktop → Result RpcError A × Desktop)
    → IsExclusive r.1.queue
    → ((d : Desktop) → IsExclusive d.queue → IsExclusive (next d).1.queue)
    → IsExclusive (and_then r next).1.queue
and_then-IsExclusive (ok u, d) next h k = k d h
and_then-IsExclusive (err e, d) next h k = h

pub save_and_promote-IsExclusive :
    (env : Env) (q : DesktopQueue) (d : Desktop) (answer : Desktop → Value)
    → IsExclusive q
    → IsExclusive (save_and_promote env q d answer).1.queue
save_and_promote-IsExclusive env q d answer h =
    and_then-IsExclusive (save env.io q d) _ (save-IsExclusive env.io q d h) λ d₁ h₁.
      and_then-IsExclusive (promote env.promoted env.promote_io d₁) _
        (promote-IsExclusive env.promoted env.promote_io d₁ h₁) λ d₂ h₂. h₂
