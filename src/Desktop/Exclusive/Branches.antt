-- ===== src/Desktop/Exclusive/Branches.antt =====
-- Each branch of `command` keeps the desktop with one session.
use distributed_workbench.Base.{
  ◌≡◌, ◌∷◌, true, Str, Result-cases, ok, inl, arith, Option-cases, Bool-cases, inr, false, bytes,
  [], ◌==◌,
}
use distributed_workbench.Desktop.{
  Job, DesktopQueue, Desktop, save, find_job, holds, with_state, update,
}
use distributed_workbench.Desktop.Commands.{
  stopped, session, session_command, recover, command, changed, of_session, not_recoverable,
  find_session, known_as,
}
use distributed_workbench.Desktop.Exclusive.{
  holding, IsExclusive, holding-append, holding-at_first, save-IsExclusive, and_then-IsExclusive,
  save_and_promote-IsExclusive,
}
use distributed_workbench.Desktop.Submission.{
  Env, maintenance, maintenance_owner_after, new_job, submit_new, submit, requested_by, two_fields,
}
use distributed_workbench.Json.{Value}

maintenance-IsExclusive :
    (env : Env) (params : Value) (d : Desktop)
    → IsExclusive d.queue
    → IsExclusive (maintenance env params d).1.queue
unfolding maintenance
maintenance-IsExclusive env params d h =
    elim (Result-cases (maintenance_owner_after d.queue params)) [
      | inl (e, refused) ↦ rw (refused, maintenance) h
      | inr (owner, passed) ↦ rw (passed, maintenance) (save_and_promote-IsExclusive env _ d _ h)
    ]

new_job-queued :
    (q : DesktopQueue) (env : Env) (owner key : Str) (params : Value) (j : Job)
    → new_job q env owner key params ≡ ok j
    → holds j ≡ false
unfolding new_job
new_job-queued q env owner key params j h = ground arith

submit_new-IsExclusive :
    (env : Env) (owner key : Str) (params : Value) (d : Desktop)
    → IsExclusive d.queue
    → IsExclusive (submit_new env owner key params d).1.queue
unfolding submit_new holding
submit_new-IsExclusive env owner key params d h =
    elim (Result-cases (new_job d.queue env owner key params)) [
      | inl (e, refused) ↦ rw (refused, submit_new) h
      | inr (j, passed) ↦
          rw (passed, submit_new)
            (save_and_promote-IsExclusive env _ d _ (
              ground (
                arith,
                holding-append d.queue.jobs (j ∷ []),
                new_job-queued d.queue env owner key params j passed,
              )))
    ]

submit-IsExclusive :
    (env : Env) (params : Value) (d : Desktop)
    → IsExclusive d.queue
    → IsExclusive (submit env params d).1.queue
unfolding submit
submit-IsExclusive env params d h =
    elim (Result-cases (two_fields params (bytes "owner") (bytes "requestKey"))) [
      | inl (e, refused) ↦ rw (refused, submit) h
      | inr ((owner, key), passed) ↦
          elim (Option-cases (find_job (requested_by owner key) d.queue.jobs)) [
            | inr (j, known) ↦ rw (passed, submit) (rw (known, submit) h)
            | inl new ↦
                rw (passed, submit)
                  (rw (new, submit) (submit_new-IsExclusive env owner key params d h))
          ]
    ]

stopped-holds : (j : Job) → holds (stopped j) ≡ true → holds j ≡ true
stopped-holds j h = ground arith

changed-holds :
    (env : Env) (action : Str) (j : Job) → holds (changed env action j) ≡ true → holds j ≡ true
unfolding changed
changed-holds env action j h = ground (arith, stopped-holds j)

session-IsExclusive :
    (env : Env) (action : Str) (params : Value) (d : Desktop)
    → IsExclusive d.queue
    → IsExclusive (session env action params d).1.queue
unfolding session
session-IsExclusive env action params d h =
    elim (Result-cases (find_session env action params d.queue)) [
      | inl (e, refused) ↦ rw (refused, session) h
      | inr ((token, owner, j), passed) ↦
          let less =
            holding-at_first (known_as token owner) (changed env action) d.queue.jobs
              λ k _. changed-holds env action k in
          rw (passed, session)
            (and_then-IsExclusive
              (save env.io (update (known_as token owner) (changed env action) d.queue) d) _
              (save-IsExclusive env.io _ d (omega (arith, less))) λ d' h'. h')
    ]

recover-IsExclusive :
    (env : Env) (params : Value) (d : Desktop)
    → IsExclusive d.queue
    → IsExclusive (recover env params d).1.queue
unfolding recover
recover-IsExclusive env params d h = elim (Bool-cases (not_recoverable params d.queue)) [
  | inl refused ↦ rw (refused, recover) h
  | inr passed ↦
      rw (passed, recover)
        (save_and_promote-IsExclusive env _ d _ (
          omega (
            arith,
            holding-at_first holds (with_state (bytes "interrupted")) d.queue.jobs λ j p _. p,
          )))
]

session_command-IsExclusive :
    (env : Env) (action : Str) (params : Value) (d : Desktop)
    → IsExclusive d.queue
    → IsExclusive (session_command env action params d).1.queue
unfolding session_command
session_command-IsExclusive env action params d h = elim (Bool-cases (of_session action)) [
  | inl a ↦ rw (a, session_command) (session-IsExclusive env action params d h)
  | inr a ↦ elim (Bool-cases (action == bytes "desktop.recover")) [
    | inl b ↦ rw (a, session_command) (rw (b, session_command) (recover-IsExclusive env params d h))
    | inr b ↦ rw (a, session_command) (rw (b, session_command) h)
  ]
]

-- No command gives the desktop to a second job.
pub command-IsExclusive :
    (env : Env) (action : Str) (params : Value) (d : Desktop)
    → IsExclusive d.queue
    → IsExclusive (command env action params d).1.queue
unfolding command
command-IsExclusive env action params d h =
    elim (Bool-cases (action == bytes "desktop.maintenance")) [
      | inl a ↦ rw (a, command) (maintenance-IsExclusive env params d h)
      | inr a ↦ elim (Bool-cases (action == bytes "desktop.submit")) [
        | inl b ↦ rw (a, command) (rw (b, command) (submit-IsExclusive env params d h))
        | inr b ↦ elim (Bool-cases (action == bytes "desktop.list")) [
          | inl c ↦ rw (a, command) (rw (b, command) (rw (c, command) h))
          | inr c ↦
              rw (a, command)
                (rw (b, command)
                  (rw (c, command) (session_command-IsExclusive env action params d h)))
        ]
      ]
    ]
