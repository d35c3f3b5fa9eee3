-- ===== src/Tests/Grants.antt =====
-- Read grants and checked paths on a small file system.
use distributed_workbench.Base.{
  Str, bytes, Bool, false, none, some, ◌≡◌, refl, [], ◌∷◌, ok, Str-discrete, ℕ_discrete,
  if◌then◌else◌, true,
}
use distributed_workbench.Executor.{required_str}
use distributed_workbench.Executor.Grants.{
  Files, Access, find_grant, validate_read_grant, revoke, is_under, checked_path, resolve,
  resolve_missing, climb, is_under_any, approve, admissible,
}
use distributed_workbench.Executor.Reaching.{IsResolved, IsInside, checked_path-IsInside}
use distributed_workbench.Executor.Revoked.{approving, performed, perform}
use distributed_workbench.Executor.Revoking.{revoked_denied}
use distributed_workbench.Json.{Value, null, string, object, end, field, get, get_field, as_str}
use distributed_workbench.Schema.Grant.{ReadGrant, FsPath, approved}

abbrev root : FsPath
root = bytes "/" ∷ bytes "w" ∷ []

-- Every path below `/w` is there and canonical, but for those below `/w/new`.
abbrev is_new : FsPath → Bool
is_new path = is_under path (bytes "/" ∷ bytes "w" ∷ bytes "new" ∷ [])

abbrev files : Files
files = record {
  path_of = λ text. bytes "/" ∷ bytes "w" ∷ text ∷ bytes "log" ∷ [];
  exists = λ path. if is_new path then false else is_under path root;
  canonicalize = λ path. ok path;
  display = λ path. bytes "path";
}

abbrev grant_of : Str → ReadGrant
grant_of id = record {
  id = id;
  workspace_session_id = bytes "w1";
  executor_id = bytes "ex";
  requested_root = bytes "/" ∷ bytes "data" ∷ [];
  real_root = bytes "/" ∷ bytes "data" ∷ [];
  capabilities = bytes "filesystem.read" ∷ [];
  state = approved;
  requested_by = bytes "agent";
  created_at = 1;
  approved_at = some 2;
  revoked_at = none;
  approved_by = some (bytes "operator");
  audit = null;
}

abbrev access : Access
access = record {
  id = bytes "ex";
  allowed_roots = root ∷ [];
  grantable_read_roots = (bytes "/" ∷ bytes "data" ∷ []) ∷ [];
  read_grants = grant_of (bytes "g1") ∷ [];
}

abbrev read : Value
read = object (
    field (bytes "_readGrantId") (string (bytes "g1")) (
      field (bytes "_workspaceSessionId") (string (bytes "w1"))
        (field (bytes "path") (string (bytes "new")) end)))

abbrev new_path : FsPath
new_path = bytes "/" ∷ bytes "w" ∷ bytes "new" ∷ bytes "log" ∷ []

new_passes : checked_path files access read (bytes "path") false none ≡ ok new_path
unfolding checked_path resolve resolve_missing climb get get_field as_str Str-discrete ℕ_discrete
new_passes = refl

checked_path-IsInside_example : IsResolved files new_path × IsInside access none new_path
checked_path-IsInside_example =
    checked_path-IsInside files access read (bytes "path") false none new_path new_passes

abbrev revocation : Value
revocation = object (field (bytes "grantId") (string (bytes "g1")) end)

-- The grant covers the read before its revocation.
granted_before :
    validate_read_grant files access read
      (bytes "/" ∷ bytes "data" ∷ bytes "f" ∷ [])
      (bytes "filesystem.read")
    ≡ ok tt
unfolding validate_read_grant find_grant get get_field as_str Str-discrete ℕ_discrete
granted_before = refl

-- The path is in the executor's own roots, and passes with any grant.
after_revocation :
    checked_path files
      (performed files
        (approving (grant_of (bytes "g2")) (ok tt) ∷ [])
        (revoke access revocation 9 (ok tt)).0)
      read
      (bytes "path")
      false
      (some (bytes "filesystem.read"))
    ≡ ok new_path
unfolding checked_path resolve resolve_missing climb performed perform approve admissible revoke
    required_str find_grant get get_field as_str Str-discrete ℕ_discrete
after_revocation = refl

revoked_denied_example : is_under_any new_path access.allowed_roots ≡ true
unfolding required_str find_grant get get_field as_str Str-discrete ℕ_discrete
revoked_denied_example =
    revoked_denied files access revocation 9 (ok tt) (bytes "g1") (grant_of (bytes "g1"))
      (approving (grant_of (bytes "g2")) (ok tt) ∷ []) read (bytes "path") false
      (some (bytes "filesystem.read")) new_path refl refl (refl, tt) refl after_revocation
