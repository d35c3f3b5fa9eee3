-- ===== src/Executor/Revoking.antt =====
-- What a read grant of crates/workbench-runtime/src/executor.rs gives once it has been revoked, and
-- what a checked path is.
use distributed_workbench.Base.{
  ℕ, Str, bytes, false, Option, none, some, ◌≡◌, refl, List, ◌++◌, Result, ok, ok_or, >>=-eq-ok,
  ok_or-eq-ok, Bool-cases, inl, inr, guard-eq-ok, Bool, true, ok-injective, sym,
}
use distributed_workbench.Executor.{required_str, invalid_params}
use distributed_workbench.Executor.Finding.{find_grant-revoke_first}
use distributed_workbench.Executor.Grants.{
  Files, Access, find_grant, covers_read, validate_read_grant, revoke, revoked_at, scope,
  grant_required, outside, checked_path, is_under_any, resolve,
}
use distributed_workbench.Executor.Revoked.{
  IsRevoked, Op, performed, AreOthers, performed-IsRevoked,
}
use distributed_workbench.Json.{Value, get}
use distributed_workbench.Protocol.{RpcError}
use distributed_workbench.Resources.{text_of}
use distributed_workbench.Schema.Grant.{ReadGrant, FsPath, is_approved}

uncovered :
    (access : Access) (g : ReadGrant) (workspace capability : Str) (checked : FsPath)
    → is_approved g.state ≡ false
    → covers_read access g workspace capability checked ≡ false
uncovered access g workspace capability checked h = rw h refl

-- A grant that is not approved covers nothing.
validate-IsRevoked :
    {roots : List FsPath} (files : Files) (id : Str) (access : Access) (params : Value)
    (checked : FsPath) (capability : Str)
    → IsRevoked id roots access
    → text_of (get params (bytes "_readGrantId")) ≡ some id
    → validate_read_grant files access params checked capability ≡ ok tt
    → ⊥
unfolding validate_read_grant
validate-IsRevoked files id access params checked capability r named h =
    let first =
      >>=-eq-ok
        (ok_or
          (scope (get params (bytes "_workspaceScope")) (get params (bytes "_workspaceSessionId")))
          (grant_required (bytes "workspace-scoped read grant is required")))
        _ h in
    let second =
      >>=-eq-ok
        (ok_or (text_of (get params (bytes "_readGrantId")))
          (grant_required (bytes "read grant required for " ++ files.display checked)))
        _ first.2 in
    let grant_id = ok_or-eq-ok (text_of (get params (bytes "_readGrantId"))) _ second.1 in
    let same : second.0 ≡ id = cc (grant_id, named) in
    let third =
      >>=-eq-ok
        (ok_or (find_grant second.0 access.read_grants)
          (grant_required (bytes "read grant is unknown to executor")))
        _ second.2 in
    let found = ok_or-eq-ok (find_grant second.0 access.read_grants) _ third.1 in
    let one : third.0 ≡ r.grant = cc (found, r.found, same) in
    let covered = guard-eq-ok (covers_read access third.0 first.0 capability checked) _ third.2 in
    let over : is_approved third.0.state ≡ false = rw one r.over in
    cc (covered, uncovered access third.0 first.0 capability checked over)

outside-IsRevoked :
    {roots : List FsPath} (files : Files) (id : Str) (access : Access) (params : Value)
    (capability : Option Str) (checked path : FsPath)
    → IsRevoked id roots access
    → text_of (get params (bytes "_readGrantId")) ≡ some id
    → outside files access params capability checked ≡ ok path
    → ⊥
outside-IsRevoked files id access params none checked path r named h = cc
outside-IsRevoked files id access params (some capability) checked path r named h =
    let (u, passed, _) =
      >>=-eq-ok (validate_read_grant files access params checked capability) _ h in
    validate-IsRevoked files id access params checked capability r named passed

checked-IsRevoked :
    {roots : List FsPath} (files : Files) (id : Str) (access : Access) (params : Value) (key : Str)
    (must_exist : Bool) (capability : Option Str) (path : FsPath)
    → IsRevoked id roots access
    → text_of (get params (bytes "_readGrantId")) ≡ some id
    → checked_path files access params key must_exist capability ≡ ok path
    → is_under_any path roots ≡ true
unfolding checked_path
checked-IsRevoked files id access params key must_exist capability path r named h =
    let (raw, given, h1) =
      >>=-eq-ok (ok_or (text_of (get params key)) (invalid_params (key ++ bytes " is required"))) _
        h in
    let (checked, resolved, h2) = >>=-eq-ok (resolve files must_exist (files.path_of raw)) _ h1 in
    elim (Bool-cases (is_under_any checked access.allowed_roots)) [
      | inl own ↦
          let e : checked ≡ path = ok-injective (rw own at h2) in
          rw (sym e) (rw (sym r.same_roots) own)
      | inr foreign ↦ absurd (
          outside-IsRevoked files id access params capability checked path r named
            (rw foreign at h2))
    ]

-- Once a grant is revoked, and even if the write of the revocation failed, a read that presents it
-- passes `checked_path` only with a path in the roots that the executor allows to all, whatever other
-- grants are approved or revoked later, until it is approved again.
pub revoked_denied :
    (files : Files) (access : Access) (params : Value) (now : ℕ)
    (saved : Result RpcError (Unit {0})) (id : Str) (g : ReadGrant) (os : List Op) (read : Value)
    (key : Str) (must_exist : Bool) (capability : Option Str) (path : FsPath)
    → required_str params (bytes "grantId") ≡ ok id
    → find_grant id access.read_grants ≡ some g
    → AreOthers id os
    → text_of (get read (bytes "_readGrantId")) ≡ some id
    → checked_path files
        (performed files os (revoke access params now saved).0)
        read
        key
        must_exist
        capability
      ≡ ok path
    → is_under_any path access.allowed_roots ≡ true
unfolding revoke
revoked_denied files access params now saved id g os read key must_exist capability path named known
      others presented h =
    let r : IsRevoked id access.allowed_roots (revoke access params now saved).0 =
      rw (named, revoke)
        (rw known (record {
          same_roots = refl;
          grant = revoked_at now g;
          found = find_grant-revoke_first id now access.read_grants g known;
          over = refl;
        })) in
    checked-IsRevoked files id (performed files os (revoke access params now saved).0) read key
      must_exist capability path
      (performed-IsRevoked files id os (revoke access params now saved).0 others r) presented h
