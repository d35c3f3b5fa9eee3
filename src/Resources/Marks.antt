-- ===== src/Resources/Marks.antt =====
-- What the marks of active resources owe to `command` and `persist`.
use distributed_workbench.Base.{
  Bool, Str, ◌≡◌, Result, Option, ok, if◌then◌else◌, true, false, err, refl, Result-cases,
  Bool-cases, inl, inr, none, some, ap, ◌∙◌, bytes, ◌==◌,
}
use distributed_workbench.Base.Map.Without.{IdSet}
use distributed_workbench.Json.{Value}
use distributed_workbench.Protocol.{RpcError}
use distributed_workbench.Resources.{persist, write, Store, Env, string_param}
use distributed_workbench.Resources.Commands.{
  command, lease_status, recover, change, answer, may_recover, lease_change,
}

write-resources :
    (sha : Str → Str) (path io : Option Str) (s : Store)
    → (write sha path io s).1.resources ≡ s.resources
write-resources sha none io s = refl
write-resources sha (some path) none s = refl
write-resources sha (some path) (some reason) s = refl

pub persist-resources :
    (sha : Str → Str) (io : Option Str) (s : Store) → (persist sha io s).1.resources ≡ s.resources
unfolding persist
persist-resources sha io s = write-resources sha s.resources.path io s

answer-store : {A : Type 0} (a : A) (r : Result RpcError (Unit {0}) × Store) → (answer a r).1 ≡ r.1
answer-store a (ok u, s) = refl
answer-store a (err e, s) = refl

persisted :
    {A : Type 0} (sha : Str → Str) (a : A) (io : Option Str) (s : Store)
    → (answer a (persist sha io s)).1.resources.active ≡ s.resources.active
persisted sha a io s =
    ap (λ s. s.resources.active) (answer-store a (persist sha io s))
    ∙ ap (λ r. r.active) (persist-resources sha io s)

recover-active :
    (sha : Str → Str) (s : Store) (env : Env) (key : Str) (params : Value)
    → (recover sha s env key params).1.resources.active ≡ s.resources.active
unfolding recover
recover-active sha s env key params = elim (Result-cases (may_recover s.resources key params)) [
  | inl (e, refused) ↦ rw (refused, recover) refl
  | inr (u, passed) ↦ rw (passed, recover) (persisted sha _ env.io _)
]

change-active :
    (sha : Str → Str) (s : Store) (env : Env) (action key : Str) (params : Value)
    → (change sha s env action key params).1.resources.active ≡ s.resources.active
unfolding change
change-active sha s env action key params =
    elim (Result-cases (lease_change sha s.resources env action key params)) [
      | inl (e, refused) ↦ rw (refused, change) refl
      | inr ((l, t), passed) ↦ rw (passed, change) (persisted sha _ env.io _)
    ]

either_way :
    (test : Bool) (x y : Result RpcError Value × Store) {ids : IdSet}
    → x.1.resources.active ≡ ids
    → y.1.resources.active ≡ ids
    → (if test then x else y).1.resources.active ≡ ids
either_way true x y h k = h
either_way false x y h k = k

-- No command marks a resource active, or clears the mark.
pub command-active :
    (sha : Str → Str) (s : Store) (env : Env) (action : Str) (params : Value)
    → (command sha s env action params).1.resources.active ≡ s.resources.active
unfolding command
command-active sha s env action params = elim (Bool-cases (action == bytes "resource.lease.list")) [
  | inl lists ↦ rw (lists, command) refl
  | inr other ↦ elim (Result-cases (string_param params (bytes "resource"))) [
    | inl (e, refused) ↦ rw (other, command) (rw (refused, command) refl)
    | inr (key, named) ↦
        rw (other, command)
          (rw (named, command)
            (either_way (action == bytes "resource.lease.status")
              (ok (lease_status s.resources key), s)
              (if action == bytes "resource.lease.recover"
                then recover sha s env key params
                else change sha s env action key params)
              refl
              (either_way (action == bytes "resource.lease.recover") (recover sha s env key params)
                (change sha s env action key params) (recover-active sha s env key params)
                (change-active sha s env action key params))))
  ]
]
