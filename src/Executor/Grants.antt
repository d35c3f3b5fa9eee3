-- ===== src/Executor/Grants.antt =====
-- `checked_path`, `validate_read_grant` and the read grants of
-- crates/workbench-runtime/src/executor.rs. What the file system answers is an argument.
use distributed_workbench.Base.{
  ℕ, Str, bytes, Bool, true, false, not, ◌&&◌, ◌||◌, Option, none, some, ◌==◌, if◌then◌else◌, List,
  [], ◌∷◌, ◌++◌, Result, ok, err, ok_or, guard, map_err, ◌>>◌, ◌>>=◌,
}
use distributed_workbench.Base.Lists.{filter}
use distributed_workbench.Controller.{one_of}
use distributed_workbench.Executor.{required_str, invalid_params}
use distributed_workbench.Json.{Value, get}
use distributed_workbench.Protocol.{RpcError, rpc_error}
use distributed_workbench.Resources.{text_of}
use distributed_workbench.Schema.Grant.{ReadGrant, FsPath, is_approved, revoked}

-- The file system: `PathBuf::from`, whether a path exists, and its canonical form; and how a path is
-- printed.
pub record Files : Type 0 where
  pub path_of : Str → FsPath
  pub exists : FsPath → Bool
  pub canonicalize : FsPath → Result Str FsPath
  pub display : FsPath → Str

-- What an executor is made with, and its grants.
pub record Access : Type 0 where
  pub id : Str
  pub allowed_roots : List FsPath
  pub grantable_read_roots : List FsPath
  pub read_grants : List ReadGrant

-- `Path::starts_with`, component by component.
abbrev pub is_under : FsPath → (root : FsPath) → Bool
is_under path [] = true
is_under [] (r ∷ root) = false
is_under (p ∷ path) (r ∷ root) = p == r && is_under path root

abbrev pub is_under_any : FsPath → List FsPath → Bool
is_under_any path [] = false
is_under_any path (root ∷ roots) = is_under path root || is_under_any path roots

abbrev pub grant_required : Str → RpcError
grant_required text = rpc_error (bytes "READ_GRANT_REQUIRED") text

unfoldable pub find_grant : Str → List ReadGrant → Option ReadGrant
find_grant id [] = none
find_grant id (g ∷ gs) = if g.id == id then some g else find_grant id gs

-- `_workspaceScope`, or `_workspaceSessionId`.
abbrev pub scope : Option Value → Option Value → Option Str
scope none session = text_of session
scope (some v) session = text_of (some v)

-- A component that `file_name` gives.
abbrev pub is_normal : Str → Bool
is_normal c = not (one_of (bytes "/" ∷ bytes ".." ∷ bytes "." ∷ []) c)

abbrev path_invalid : Str → RpcError
path_invalid text = rpc_error (bytes "PATH_INVALID") text

abbrev pub reverse_onto : FsPath → FsPath → FsPath
reverse_onto [] path = path
reverse_onto (c ∷ up) path = reverse_onto up (c ∷ path)

-- Whether a grant covers a read.
abbrev pub covers_read : Access → ReadGrant → (workspace capability : Str) → FsPath → Bool
covers_read access g workspace capability checked =
    is_approved g.state
    && (g.workspace_session_id == workspace
        && (g.executor_id == access.id
            && (one_of g.capabilities capability && is_under checked g.real_root)))

module _ (files : Files) where
  -- The path stands with its last component first; the missing ones stand in their order.
  unfoldable pub climb : (up : FsPath) → (missing : FsPath) → Result RpcError (FsPath × FsPath)
  climb [] missing =
      if files.exists []
      then ok ([], missing)
      else err (path_invalid (bytes "path has no existing ancestor"))
  climb (c ∷ up) missing = elim (files.exists (reverse_onto (c ∷ up) [])) [
    | true ↦ ok (reverse_onto (c ∷ up) [], missing)
    | false ↦ elim (is_normal c) [
      | true ↦ climb up (c ∷ missing)
      | false ↦ err (path_invalid (bytes "path has no existing ancestor"))
    ]
  ]

  unfoldable pub io_error : FsPath → (error : Str) → RpcError
  io_error path error = path_invalid (files.display path ++ (bytes ": " ++ error))

  unfoldable pub resolve_missing : FsPath → Result RpcError FsPath
  resolve_missing path = do
    found ← climb (reverse_onto path []) []
    resolved ← map_err (io_error path) (files.canonicalize found.0)
    ok (resolved ++ found.1)

  unfoldable pub resolve : (must_exist : Bool) → FsPath → Result RpcError FsPath
  resolve must_exist path =
      if must_exist || files.exists path
      then map_err (io_error path) (files.canonicalize path)
      else resolve_missing path

  module _ (access : Access) where
    unfoldable pub validate_read_grant :
        (params : Value) → FsPath → (capability : Str) → Result RpcError (Unit {0})
    validate_read_grant params checked capability = do
      workspace ←
          ok_or
            (scope (get params (bytes "_workspaceScope"))
              (get params (bytes "_workspaceSessionId")))
            (grant_required (bytes "workspace-scoped read grant is required"))
      grant_id ←
          ok_or (text_of (get params (bytes "_readGrantId")))
            (grant_required (bytes "read grant required for " ++ files.display checked))
      grant ←
          ok_or (find_grant grant_id access.read_grants)
            (grant_required (bytes "read grant is unknown to executor"))
      guard (covers_read access grant workspace capability checked) (
          rpc_error (bytes "READ_GRANT_DENIED")
            (bytes "read grant does not cover this workspace, executor, capability, and real path"))

    abbrev pub outside : (params : Value) → Option Str → FsPath → Result RpcError FsPath
    outside params none checked = err (
        rpc_error (bytes "PATH_OUTSIDE_ALLOWED_ROOTS")
          (files.display checked ++ bytes " is outside executor roots"))
    outside params (some capability) checked =
        validate_read_grant params checked capability >> ok checked

    unfoldable pub checked_path :
        (params : Value)
        → (key : Str) → (must_exist : Bool) → (read_capability : Option Str)
        → Result RpcError FsPath
    checked_path params key must_exist read_capability = do
      raw ← ok_or (text_of (get params key)) (invalid_params (key ++ bytes " is required"))
      checked ← resolve must_exist (files.path_of raw)
      if is_under_any checked access.allowed_roots
          then ok checked
          else outside params read_capability checked

-- `retain` and `push`.
abbrev pub other_than : Str → ReadGrant → Bool
other_than id g = not (g.id == id)

abbrev pub replaced_grant : ReadGrant → List ReadGrant → List ReadGrant
replaced_grant g grants = filter (other_than g.id) grants ++ g ∷ []

abbrev invalid_grant : Str → RpcError
invalid_grant text = rpc_error (bytes "INVALID_READ_GRANT") text

unfoldable pub admissible : Files → Access → ReadGrant → Result RpcError (Unit {0})
admissible files access g = do
  _ ←
      guard (g.executor_id == access.id && is_approved g.state)
        (invalid_grant (bytes "approved grant must target this executor"))
  real ← map_err invalid_grant (files.canonicalize g.real_root)
  guard (is_under_any real access.grantable_read_roots) (
      rpc_error (bytes "READ_GRANT_ROOT_NOT_ALLOWED")
        (bytes "grant root is outside configured grantable roots"))

-- `read-grant.approve` of a grant that parses; the answer of the write comes last.
unfoldable pub approve :
    Files
    → (access : Access) → ReadGrant
    → (saved : Result RpcError (Unit {0})) → Access × Result RpcError ReadGrant
approve files access g saved = elim (admissible files access g) [
  | err e ↦ (access, err e)
  | ok u ↦ (record access { read_grants = replaced_grant g access.read_grants }, saved >> ok g)
]

-- `iter_mut().find(…)`, and the change of what it finds.
abbrev pub revoked_at : ℕ → ReadGrant → ReadGrant
revoked_at now g = record g { state = revoked; revoked_at = some now }

unfoldable pub revoke_first : (id : Str) → (now : ℕ) → List ReadGrant → List ReadGrant
revoke_first id now [] = []
revoke_first id now (g ∷ gs) =
    if g.id == id then revoked_at now g ∷ gs else g ∷ revoke_first id now gs

abbrev pub revoke_found :
    Access
    → (id : Str) → (now : ℕ) → (saved : Result RpcError (Unit {0})) → Option ReadGrant
    → Access × Result RpcError ReadGrant
revoke_found access id now saved none =
    (access, err (rpc_error (bytes "READ_GRANT_NOT_FOUND") (bytes "unknown read grant: " ++ id)))
revoke_found access id now saved (some g) = (
  record access { read_grants = revoke_first id now access.read_grants },
  saved >> ok (revoked_at now g),
)

-- `read-grant.revoke`
unfoldable pub revoke :
    (access : Access)
    → (params : Value) → (now : ℕ) → (saved : Result RpcError (Unit {0}))
    → Access × Result RpcError ReadGrant
revoke access params now saved = elim (required_str params (bytes "grantId")) [
  | err e ↦ (access, err e)
  | ok id ↦ revoke_found access id now saved (find_grant id access.read_grants)
]

-- `read-grant.find`, once its parameters are read and the path is canonical.
unfoldable pub find_covering :
    (access : Access) → (workspace capability : Str) → FsPath → List ReadGrant → Option ReadGrant
find_covering access workspace capability checked [] = none
find_covering access workspace capability checked (g ∷ gs) =
    if covers_read access g workspace capability checked
    then some g
    else find_covering access workspace capability checked gs
