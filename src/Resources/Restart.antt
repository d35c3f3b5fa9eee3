-- ===== src/Resources/Restart.antt =====
-- The file behind the marks: a restart in the middle of an operation, and a write that fails.
use distributed_workbench.Base.{
  Str, List, ◌≡◌, ℕ, Option, true, some, ok, ◌∷◌, sym, err, ap, [], bytes, ◌∙◌, refl, none, arith,
}
use distributed_workbench.Base.Map.Without.{listed, member, keys}
use distributed_workbench.Json.{Value}
use distributed_workbench.Protocol.{rpc_error}
use distributed_workbench.Resources.{
  Resources, Store, available, persist, write, image, open_file, extend, recovery_required,
  still_executing,
}
use distributed_workbench.Resources.Arbitration.{
  member-extend, listed-sorted_distinct, available-eq-ok,
}
use distributed_workbench.Resources.Granting.{begin-eq-ok, refused_not_ok, check_resources-eq-ok}
use distributed_workbench.Resources.Permits.{
  begin, claim, check_resources, check_scopes, sorted_distinct, activate, granted,
}

granted-write :
    (sha : Str → Str) (path io : Option Str) (resources p : List Str) (s s' : Store) {file : Str}
    → path ≡ some file
    → granted resources (write sha path io s) ≡ (ok p, s')
    → s'.file ≡ some (image sha s.resources)
granted-write sha none io rs p s s' e h = cc
granted-write sha (some path) none rs p s s' e h = sym (ap (λ r. r.1.file) h)
granted-write sha (some path) (some reason) rs p s s' e h = absurd (refused_not_ok h)

claim-file :
    (sha : Str → Str) (io : Option Str) (resources p : List Str) (s s' : Store) (path key : Str)
    → s.resources.path ≡ some path
    → listed key resources ≡ true
    → claim sha io resources s ≡ (ok p, s')
    → s'.file ≡ some (image sha (activate resources s).resources)
unfolding claim persist listed
claim-file sha io [] p s s' path key e l h = cc
claim-file sha io (r ∷ rs) p s s' path key e l h =
    granted-write sha s.resources.path io (r ∷ rs) p (activate (r ∷ rs) s) s' e h

image-quarantines :
    (sha : Str → Str) (state : Resources) (path key : Str)
    → member key state.active ≡ true
    → available (open_file path (some (image sha state))).resources key
      ≡ err (recovery_required key)
unfolding available open_file image
image-quarantines sha state path key h =
    rw (member-extend key (keys state.quarantined) state.active, h) (ground arith)

-- An executor that keeps a file and stops while it holds a permit refuses each resource of the
-- permit after the restart, with RESOURCE_RECOVERY_REQUIRED.
pub available-open_file :
    (sha : Str → Str) (s s' : Store) (clock : Str → ℕ) (io : Option Str) (resources : List Str)
    (grants : List Value) (p : List Str) (path key : Str)
    → begin sha s clock io resources grants ≡ (ok p, s')
    → s.resources.path ≡ some path
    → listed key resources ≡ true
    → available (open_file path s'.file).resources key ≡ err (recovery_required key)
available-open_file sha s s' clock io resources grants p path key h kept l =
    let wanted = sorted_distinct resources in
    let facts = begin-eq-ok sha s s' clock io resources grants p h in
    let l' : listed key wanted ≡ true = rw listed-sorted_distinct l in
    rw (claim-file sha io wanted p s s' path key kept l' facts.2) (
      image-quarantines sha (activate wanted s).resources path key
        (rw (member-extend key wanted s.resources.active, l') refl))

failed-write :
    (sha : Str → Str) (path : Option Str) (reason : Str) (resources : List Str) (s : Store)
    {file : Str}
    → path ≡ some file
    → granted resources (write sha path (some reason) s)
      ≡ (err (rpc_error (bytes "RESOURCE_STATE_FAILED") reason), s)
failed-write sha none reason rs s e = cc
failed-write sha (some path) reason rs s e = refl

failed-claim :
    (sha : Str → Str) (reason : Str) (resources : List Str) (s : Store) (path key : Str)
    → s.resources.path ≡ some path
    → listed key resources ≡ true
    → claim sha (some reason) resources s
      ≡ (err (rpc_error (bytes "RESOURCE_STATE_FAILED") reason), activate resources s)
unfolding claim persist listed
failed-claim sha reason [] s path key e l = cc
failed-claim sha reason (r ∷ rs) s path key e l =
    failed-write sha s.resources.path reason (r ∷ rs) (activate (r ∷ rs) s) e

marked :
    (state : Resources) (resources : List Str) (key : Str)
    → available state key ≡ ok tt
    → listed key resources ≡ true
    → available (record state { active = extend resources state.active }) key
      ≡ err (still_executing key)
unfolding available
marked state rs key free l =
    rw (member-extend key rs state.active, l, (available-eq-ok state key free).0) refl

failed-begin :
    (sha : Str → Str) (s : Store) (clock : Str → ℕ) (reason : Str) (resources : List Str)
    (grants : List Value) (path key : Str)
    → check_resources sha s.resources clock grants (sorted_distinct resources) ≡ ok tt
    → check_scopes (sorted_distinct resources) grants ≡ ok tt
    → s.resources.path ≡ some path
    → listed key (sorted_distinct resources) ≡ true
    → begin sha s clock (some reason) resources grants ≡ (
      err (rpc_error (bytes "RESOURCE_STATE_FAILED") reason),
      activate (sorted_distinct resources) s,
    )
unfolding begin
failed-begin sha s clock reason resources grants path key checked scoped kept l =
    rw (checked, begin) (rw (scoped, begin) (failed-claim sha reason _ s path key kept l))

-- A `begin` that passes its checks and whose write fails grants no permit, leaves the file as it
-- was, and leaves the resources marked: each is refused from then on as still executing.
pub begin_stranded :
    (sha : Str → Str) (s : Store) (clock : Str → ℕ) (reason : Str) (resources : List Str)
    (grants : List Value) (path key : Str)
    → check_resources sha s.resources clock grants (sorted_distinct resources) ≡ ok tt
    → check_scopes (sorted_distinct resources) grants ≡ ok tt
    → s.resources.path ≡ some path
    → listed key resources ≡ true
    → let (result, s') = begin sha s clock (some reason) resources grants in
      (result ≡ err (rpc_error (bytes "RESOURCE_STATE_FAILED") reason))
      × (s'.file ≡ s.file)
      × (available s'.resources key ≡ err (still_executing key))
begin_stranded sha s clock reason resources grants path key checked scoped kept l =
    let wanted = sorted_distinct resources in
    let l' : listed key wanted ≡ true = rw listed-sorted_distinct l in
    let outcome =
      failed-begin sha s clock reason resources grants path key checked scoped kept l' in
    (
      ap (λ r. r.0) outcome,
      ap (λ r. r.1.file) outcome,
      ap (λ r. available r.1.resources key) outcome
          ∙ marked s.resources wanted key
              (check_resources-eq-ok sha s.resources clock grants wanted key checked l').0 l',
    )
