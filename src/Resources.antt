-- ===== src/Resources.antt =====
-- crates/workbench-runtime/src/resource.rs: the arbitration of an executor's resources. The file that
-- `persist` writes is part of the state; a failure of the file system is the `io` of a call.
pub mod Arbitration
pub mod Commands
pub mod Events
pub mod Granting
pub mod Marks
pub mod Permits
pub mod Restart
use distributed_workbench.Base.{
  ℕ, zero, suc, ◌+◌, ◌/◌, ◌%◌, Str, bytes, Option, none, some, Bool, true, false, not, List, [],
  ◌∷◌, ◌++◌, Result, ok, err, ◌>>◌, guard, if◌then◌else◌, ltb, ok_or,
}
use distributed_workbench.Base.Map.{Map, insert}
use distributed_workbench.Base.Map.Without.{IdSet, keys, member}
use distributed_workbench.Json.{
  Value, null, number, string, object, end, field, unsigned, get, as_str,
}
use distributed_workbench.Lease.{
  LeaseTable, LeaseError, active, not_found, owned_by_other, invalid_handoff, default_table,
}
use distributed_workbench.Protocol.{RpcError, rpc_error}
use distributed_workbench.Schema.Lease.{Lease, LeaseKind, driver, resource}
use distributed_workbench.Lease

pub record Snapshot : Type 0 where
  pub leases : List Lease
  pub fences : Map ℕ
  pub active : IdSet

-- `path` is the file, if the table is kept in one.
pub record Resources : Type 0 where
  pub table : LeaseTable
  pub active : IdSet
  pub quarantined : IdSet
  pub path : Option Str

-- The decimal digits of a number below 10 ^ fuel.
unfoldable pub decimal : ℕ → ℕ → Str
decimal zero n = []
decimal (suc fuel) n =
    let more = decimal fuel (n / 10) in
    if ltb n 10 then (48 + n) ∷ [] else more ++ ((48 + n % 10) ∷ [])

-- The texts of `LeaseError`; a `u64` has at most 20 digits.
unfoldable pub lease_error_text : LeaseError → Str
lease_error_text (active owner expires_at) =
    bytes "resource is leased by " ++ (owner ++ (bytes " until " ++ decimal 20 expires_at))
lease_error_text not_found = bytes "lease not found"
lease_error_text owned_by_other = bytes "lease is owned by another writer"
lease_error_text invalid_handoff = bytes "handoff target does not match"

lease_error_code : LeaseError → Str
lease_error_code (active owner expires_at) = bytes "RESOURCE_BUSY"
lease_error_code not_found = bytes "RESOURCE_LEASE_REQUIRED"
lease_error_code _ = bytes "RESOURCE_LEASE_INVALID"

unfoldable pub lease_error : LeaseError → RpcError
unfolding lease_error_code lease_error_text
lease_error e = rpc_error (lease_error_code e) (lease_error_text e)

abbrev pub is_empty : Str → Bool
is_empty [] = true
is_empty (c ∷ s) = false

abbrev pub nonempty : Option Str → Option Str
nonempty none = none
nonempty (some s) = if is_empty s then none else some s

abbrev pub text_of : Option Value → Option Str
text_of none = none
text_of (some v) = as_str v

-- The helper `string`.
unfoldable pub string_param : Value → Str → Result RpcError Str
string_param params key =
    ok_or (nonempty (text_of (get params key)))
      (rpc_error (bytes "INVALID_PARAMS") (key ++ bytes " is required"))

-- `None` and `Some` as JSON.
abbrev optional_text : Option Str → Value
optional_text none = null
optional_text (some s) = string s

abbrev kind_text : LeaseKind → Str
kind_text driver = bytes "driver"
kind_text resource = bytes "resource"

-- `json!(lease)`
unfoldable pub lease_value : Lease → Value
lease_value l = object (
    field (bytes "acquiredAt") (number (unsigned l.acquired_at)) (
      field (bytes "expiresAt") (number (unsigned l.expires_at)) (
        field (bytes "fence") (number (unsigned l.fence)) (
          field (bytes "handoffTo") (optional_text l.handoff_to) (
            field (bytes "id") (string l.id) (
              field (bytes "kind") (string (kind_text l.kind)) (
                field (bytes "owner") (string l.owner) (
                  field (bytes "resource") (string l.resource) (
                    field (bytes "token") (string l.token)
                      (field (bytes "updatedAt") (number (unsigned l.updated_at)) end))))))))))

-- The executor's state with its file.
pub record Store : Type 0 where
  pub resources : Resources
  pub file : Option Snapshot

-- What a call draws from its surroundings: two readings of the clock, two random identifiers, and
-- the text of the error by which a write fails, if it fails.
pub record Env : Type 0 where
  pub checked : ℕ
  pub now : ℕ
  pub id_uuid : Str
  pub token_uuid : Str
  pub io : Option Str

-- `Resources::open` of a file with the given content.
unfoldable pub open_file : Str → Option Snapshot → Store
open_file path none = record {
  resources = record { table = default_table; active = []; quarantined = []; path = some path };
  file = none;
}
open_file path (some s) = record {
  resources = record {
    table = Lease.from_snapshot s.leases s.fences;
    active = [];
    quarantined = s.active;
    path = some path;
  };
  file = some s;
}

-- `active.extend(...)`
unfoldable pub extend : List Str → IdSet → IdSet
extend [] ids = ids
extend (r ∷ rs) ids = extend rs (insert r tt ids)

module _ (sha : Str → Str) where
  -- What `persist` writes.
  unfoldable pub image : Resources → Snapshot
  image state = record {
    leases = Lease.persistence_snapshot sha state.table;
    fences = Lease.fence_snapshot state.table;
    active = extend (keys state.quarantined) state.active;
  }

  -- The path and the failure of the write, if any. A write that fails leaves the file as it was.
  abbrev pub write : (path io : Option Str) → Store → Result RpcError (Unit {0}) × Store
  write none io s = (ok tt, s)
  write (some path) none s = (ok tt, record s { file = some (image s.resources) })
  write (some path) (some reason) s = (err (rpc_error (bytes "RESOURCE_STATE_FAILED") reason), s)

  unfoldable pub persist : Option Str → Store → Result RpcError (Unit {0}) × Store
  persist io s = write s.resources.path io s

-- The errors of `available`.
abbrev pub recovery_required : Str → RpcError
recovery_required key =
    rpc_error (bytes "RESOURCE_RECOVERY_REQUIRED")
      (bytes "uncertain operation on " ++ (key ++ bytes " survived Executor restart"))

abbrev pub still_executing : Str → RpcError
still_executing key =
    rpc_error (bytes "RESOURCE_BUSY") (bytes "operation is still executing on " ++ key)

unfoldable pub available : Resources → Str → Result RpcError (Unit {0})
available state key = do
  guard (not (member key state.quarantined)) (recovery_required key)
  guard (not (member key state.active)) (still_executing key)
