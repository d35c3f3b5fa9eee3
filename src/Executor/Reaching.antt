-- ===== src/Executor/Reaching.antt =====
-- Which paths pass `checked_path` of crates/workbench-runtime/src/executor.rs.
use mathlib.Core.List.{append-nil}
use distributed_workbench.Base.{
  Str, bytes, Bool, true, ◌||◌, Option, none, some, ◌==◌, ◌≡◌, arith, [], ◌∷◌, ◌++◌, ok, ok_or,
  map_err, >>=-eq-ok, ok_or-eq-ok, Bool-cases, inl, inr, ◌⊎◌, sym, ok-injective, subst, guard-eq-ok,
  map_err-eq-ok,
}
use distributed_workbench.Base.Lists.{All}
use distributed_workbench.Controller.{one_of}
use distributed_workbench.Executor.{invalid_params}
use distributed_workbench.Executor.Grants.{
  Files, Access, find_grant, covers_read, validate_read_grant, is_under, is_under_any, is_normal,
  reverse_onto, climb, resolve, resolve_missing, io_error, checked_path, outside, scope,
  grant_required,
}
use distributed_workbench.Json.{Value, get}
use distributed_workbench.Resources.{text_of}
use distributed_workbench.Schema.Grant.{ReadGrant, FsPath, is_approved}

-- A canonical path of the file system, and behind it names of what is not there yet, none of which
-- is `..`.
pub record IsResolved (files : Files) (path : FsPath) : Type 0 where
  pub ancestor : FsPath
  pub canonical : FsPath
  pub missing : FsPath
  pub known : files.canonicalize ancestor ≡ ok canonical
  pub whole : path ≡ canonical ++ missing
  pub normal : All (λ c. is_normal c ≡ true) missing

climb-normal :
    (files : Files) (up missing : FsPath) (found : FsPath × FsPath)
    → All (λ c. is_normal c ≡ true) missing
    → climb files up missing ≡ ok found
    → All (λ c. is_normal c ≡ true) found.1
unfolding climb
climb-normal files [] missing found n h = elim (Bool-cases (files.exists [])) [
  | inl there ↦
      subst (λ (f : FsPath × FsPath). All (λ c. is_normal c ≡ true) f.1)
        (ok-injective (rw there at h)) n
  | inr gone ↦ cc (rw gone at h)
]
climb-normal files (c ∷ up) missing found n h =
    elim (Bool-cases (files.exists (reverse_onto (c ∷ up) []))) [
      | inl there ↦
          subst (λ (f : FsPath × FsPath). All (λ c. is_normal c ≡ true) f.1)
            (ok-injective (rw (there, climb) at h)) n
      | inr gone ↦ elim (Bool-cases (is_normal c)) [
        | inl plain ↦
            climb-normal files up (c ∷ missing) found (plain, n)
              (rw plain at (rw (gone, climb) at h))
        | inr odd ↦ cc (rw odd at (rw (gone, climb) at h))
      ]
    ]

missing-IsResolved :
    (files : Files) (path checked : FsPath)
    → resolve_missing files path ≡ ok checked
    → IsResolved files checked
unfolding resolve_missing
missing-IsResolved files path checked h =
    let first = >>=-eq-ok (climb files (reverse_onto path []) []) _ h in
    let second =
      >>=-eq-ok (map_err (io_error files path) (files.canonicalize first.0.0)) _ first.2 in
    record {
      ancestor = first.0.0;
      canonical = second.0;
      missing = first.0.1;
      known = map_err-eq-ok (io_error files path) (files.canonicalize first.0.0) second.1;
      whole = sym (ok-injective second.2);
      normal = climb-normal files (reverse_onto path []) [] first.0 tt first.1;
    }

resolve-IsResolved :
    (files : Files) (must_exist : Bool) (path checked : FsPath)
    → resolve files must_exist path ≡ ok checked
    → IsResolved files checked
unfolding resolve
resolve-IsResolved files must_exist path checked h =
    elim (Bool-cases (must_exist || files.exists path)) [
      | inl there ↦ record {
        ancestor = path;
        canonical = checked;
        missing = [];
        known = map_err-eq-ok (io_error files path) (files.canonicalize path) (rw there at h);
        whole = sym (append-nil checked);
        normal = tt;
      }
      | inr gone ↦ missing-IsResolved files path checked (rw gone at h)
    ]

-- A grant that the executor knows covers the read.
pub record IsGranted (access : Access) (capability : Str) (path : FsPath) : Type 0 where
  pub id : Str
  pub grant : ReadGrant
  pub listed : find_grant id access.read_grants ≡ some grant
  pub approved : is_approved grant.state ≡ true
  pub own : (grant.executor_id == access.id) ≡ true
  pub allows : one_of grant.capabilities capability ≡ true
  pub under : is_under path grant.real_root ≡ true

validate-IsGranted :
    (files : Files) (access : Access) (params : Value) (path : FsPath) (capability : Str)
    (u : Unit {0})
    → validate_read_grant files access params path capability ≡ ok u
    → IsGranted access capability path
unfolding validate_read_grant
validate-IsGranted files access params path capability u h =
    let first =
      >>=-eq-ok
        (ok_or
          (scope (get params (bytes "_workspaceScope")) (get params (bytes "_workspaceSessionId")))
          (grant_required (bytes "workspace-scoped read grant is required")))
        _ h in
    let second =
      >>=-eq-ok
        (ok_or (text_of (get params (bytes "_readGrantId")))
          (grant_required (bytes "read grant required for " ++ files.display path)))
        _ first.2 in
    let third =
      >>=-eq-ok
        (ok_or (find_grant second.0 access.read_grants)
          (grant_required (bytes "read grant is unknown to executor")))
        _ second.2 in
    let covered = guard-eq-ok (covers_read access third.0 first.0 capability path) _ third.2 in
    record {
      id = second.0;
      grant = third.0;
      listed = ok_or-eq-ok (find_grant second.0 access.read_grants) _ third.1;
      approved = ground (arith, covered);
      own = ground (arith, covered);
      allows = ground (arith, covered);
      under = ground (arith, covered);
    }

-- Where a path that has passed lies.
abbrev pub IsInside : Access → Option Str → FsPath → Type 0
IsInside access none path = is_under_any path access.allowed_roots ≡ true
IsInside access (some capability) path =
    (is_under_any path access.allowed_roots ≡ true) ⊎ IsGranted access capability path

inside :
    (access : Access) (rc : Option Str) (path : FsPath)
    → is_under_any path access.allowed_roots ≡ true
    → IsInside access rc path
inside access none path h = h
inside access (some capability) path h = inl h

outside-IsInside :
    (files : Files) (access : Access) (params : Value) (rc : Option Str) (path checked : FsPath)
    → outside files access params rc path ≡ ok checked
    → (path ≡ checked) × IsInside access rc path
outside-IsInside files access params none path checked h = cc
outside-IsInside files access params (some capability) path checked h =
    let first = >>=-eq-ok (validate_read_grant files access params path capability) _ h in
    (
      ok-injective first.2,
      inr (validate-IsGranted files access params path capability first.0 first.1),
    )

-- A path that passes is a canonical path of the file system with plain names behind it, and it lies
-- in an allowed root or, for a read, in the root of an approved grant of this executor that allows
-- the capability.
pub checked_path-IsInside :
    (files : Files) (access : Access) (params : Value) (key : Str) (must_exist : Bool)
    (read_capability : Option Str) (path : FsPath)
    → checked_path files access params key must_exist read_capability ≡ ok path
    → IsResolved files path × IsInside access read_capability path
unfolding checked_path
checked_path-IsInside files access params key must_exist rc path h =
    let first =
      >>=-eq-ok (ok_or (text_of (get params key)) (invalid_params (key ++ bytes " is required"))) _
        h in
    let second = >>=-eq-ok (resolve files must_exist (files.path_of first.0)) _ first.2 in
    let found = resolve-IsResolved files must_exist (files.path_of first.0) second.0 second.1 in
    elim (Bool-cases (is_under_any second.0 access.allowed_roots)) [
      | inl own ↦
          let e : second.0 ≡ path = ok-injective (rw own at second.2) in
          (
            subst (IsResolved files) e found,
            subst (IsInside access rc) e (inside access rc second.0 own),
          )
      | inr foreign ↦
          let o = outside-IsInside files access params rc second.0 path (rw foreign at second.2) in
          (subst (IsResolved files) o.0 found, subst (IsInside access rc) o.0 o.1)
    ]
