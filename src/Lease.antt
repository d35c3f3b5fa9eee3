-- ===== src/Lease.antt =====
-- crates/workbench-core/src/lease.rs: the lease table. The clock and the random identifiers are
-- arguments of each call, one for each reading; the SHA-256 of a text, in hexadecimal, is `sha`.
pub mod Calls
pub mod Fencing
pub mod Holding
pub mod Cases
pub mod Invariant
pub mod Reaping
pub mod Restart
use distributed_workbench.Base.{
  ℕ, Str, bytes, Option, none, some, Bool, not, ◌&&◌, List, [], ◌∷◌, map, Result, ok, err, ◌>>=◌,
  ◌>>◌, guard, ok_or, if◌then◌else◌, ltb, leb, ◌==◌, is_some_of, max, starts_with, add_u64,
  saturating_add, ◌++◌,
}
use distributed_workbench.Base.Lists.{filter}
use distributed_workbench.Base.Map.{Map, lookup, insert, remove, values}
use distributed_workbench.Schema.Lease.{Lease, LeaseKind}

pub data LeaseError : Type 0 where
  active : Str → ℕ → LeaseError
  not_found owned_by_other invalid_handoff : LeaseError

pub record LeaseTable : Type 0 where
  pub leases : Map Lease
  pub fences : Map ℕ

abbrev pub default_table : LeaseTable
default_table = record { leases = []; fences = [] }

-- `map.get(key).copied().unwrap_or(default)`
abbrev pub or_default : Option ℕ → ℕ → ℕ
or_default none d = d
or_default (some n) d = n

-- The fence last handed out for a resource; 0 if there is none.
abbrev pub fence_of : Str → Map ℕ → ℕ
fence_of k fences = or_default (lookup k fences) 0

module _ (sha : Str → Str) where
  unfoldable pub token_digest : Str → Str
  token_digest token = bytes "sha256:" ++ sha token

  unfoldable pub token_matches : Str → Str → Bool
  token_matches stored presented =
      if starts_with stored (bytes "sha256:")
      then token_digest presented == stored
      else stored == presented

-- The loop of `from_snapshot`.
unfoldable pub restore : List Lease → LeaseTable → LeaseTable
restore [] t = t
restore (l ∷ ls) t = restore ls (record {
  leases = insert l.resource l t.leases;
  fences = insert l.resource (max (fence_of l.resource t.fences) l.fence) t.fences;
})

unfoldable pub from_snapshot : List Lease → Map ℕ → LeaseTable
from_snapshot leases fences = restore leases (record { leases = []; fences = fences })

unfoldable pub from_leases : List Lease → LeaseTable
from_leases leases = from_snapshot leases []

-- The first test of `acquire`.
unfoldable pub refuse_live : Option Lease → ℕ → Result LeaseError (Unit {0})
refuse_live none now = ok tt
refuse_live (some l) now = if ltb now l.expires_at then err (active l.owner l.expires_at) else ok tt

unfoldable pub acquire :
    LeaseTable
    → LeaseKind
    → (resource owner : Str) (ttl_ms now : ℕ) (id_uuid token_uuid : Str)
    → Result LeaseError (Lease × LeaseTable)
acquire t kind resource owner ttl_ms now id_uuid token_uuid = do
  refuse_live (lookup resource t.leases) now
  let fence = add_u64 (fence_of resource t.fences) 1
  let lease : Lease = record {
    id = bytes "lease_" ++ id_uuid;
    kind = kind;
    resource = resource;
    owner = owner;
    token = bytes "token_" ++ token_uuid;
    fence = fence;
    acquired_at = now;
    updated_at = now;
    expires_at = saturating_add now ttl_ms;
    handoff_to = none;
  }
  ok (
    lease,
    record { leases = insert resource lease t.leases; fences = insert resource fence t.fences },
  )

unfoldable pub get : LeaseTable → Str → Option Lease
get t resource = lookup resource t.leases

-- A lease written back through `get_mut`.
abbrev pub put : LeaseTable → Str → Lease → LeaseTable
put t resource l = record t { leases = insert resource l t.leases }

module _ (sha : Str → Str) where
  unfoldable pub validate :
      LeaseTable → (resource owner token : Str) (now : ℕ) → Result LeaseError Lease
  validate t resource owner token now = do
    lease ← ok_or (lookup resource t.leases) not_found
    guard (not (leb lease.expires_at now)) not_found
    guard (lease.owner == owner && token_matches sha lease.token token) owned_by_other
    ok lease

  unfoldable pub renew :
      LeaseTable
      → (resource owner token : Str) (ttl_ms checked now : ℕ)
      → Result LeaseError (Lease × LeaseTable)
  renew t resource owner token ttl_ms checked now = do
    lease ← validate t resource owner token checked
    let renewed = record lease { updated_at = now; expires_at = saturating_add now ttl_ms }
    ok (record renewed { token = token }, put t resource renewed)

  unfoldable pub handoff :
      LeaseTable
      → (resource owner token target : Str) (checked now : ℕ)
      → Result LeaseError (Lease × LeaseTable)
  handoff t resource owner token target checked now = do
    lease ← validate t resource owner token checked
    let handed_off = record lease { handoff_to = some target; updated_at = now }
    ok (record handed_off { token = token }, put t resource handed_off)

  unfoldable pub release :
      LeaseTable → (resource owner token : Str) (now : ℕ) → Result LeaseError (Lease × LeaseTable)
  release t resource owner token now = do
    validate t resource owner token now >>= λ _. ok tt
    lease ← ok_or (lookup resource t.leases) not_found
    ok (lease, record t { leases = remove resource t.leases })

-- A lease as a third party sees it, `token.clear()`.
abbrev pub public : Lease → Lease
public l = record l { token = [] }

unfoldable pub request_handoff :
    LeaseTable → (resource target : Str) (checked now : ℕ) → Result LeaseError (Lease × LeaseTable)
request_handoff t resource target checked now = do
  lease ← ok_or (lookup resource t.leases) not_found
  guard (not (leb lease.expires_at checked)) not_found
  let requested = record lease { handoff_to = some target; updated_at = now }
  ok (public requested, put t resource requested)

unfoldable pub cancel_handoff :
    LeaseTable → (resource target : Str) (now : ℕ) → Result LeaseError (Lease × LeaseTable)
cancel_handoff t resource target now = do
  lease ← ok_or (lookup resource t.leases) not_found
  guard (is_some_of lease.handoff_to target) invalid_handoff
  let cancelled = record lease { handoff_to = none; updated_at = now }
  ok (public cancelled, put t resource cancelled)

unfoldable pub take_handoff :
    LeaseTable
    → (resource target : Str) (ttl_ms now : ℕ) (token_uuid : Str)
    → Result LeaseError (Lease × LeaseTable)
take_handoff t resource target ttl_ms now token_uuid = do
  lease ← ok_or (lookup resource t.leases) not_found
  guard (is_some_of lease.handoff_to target) invalid_handoff
  let fence = add_u64 (or_default (lookup resource t.fences) lease.fence) 1
  let taken = record lease {
    owner = target;
    token = bytes "token_" ++ token_uuid;
    fence = fence;
    acquired_at = now;
    updated_at = now;
    expires_at = saturating_add now ttl_ms;
    handoff_to = none;
  }
  ok (
    taken,
    record { leases = insert resource taken t.leases; fences = insert resource fence t.fences },
  )

unfoldable pub snapshot : LeaseTable → List Lease
snapshot t = values t.leases

-- The closure that `persistence_snapshot` maps over the leases.
unfoldable pub hide_token : (Str → Str) → Lease → Lease
hide_token sha l =
    if starts_with l.token (bytes "sha256:")
    then l
    else record l { token = token_digest sha l.token }

unfoldable pub persistence_snapshot : (Str → Str) → LeaseTable → List Lease
persistence_snapshot sha t = map (hide_token sha) (values t.leases)

unfoldable pub fence_snapshot : LeaseTable → Map ℕ
fence_snapshot t = t.fences

abbrev pub push_removed : Option Lease → List Lease × Map Lease → List Lease × Map Lease
push_removed none p = p
push_removed (some l) (removed, m) = (l ∷ removed, m)

-- `resources.into_iter().filter_map(|resource| self.leases.remove(&resource))`
unfoldable pub remove_all : List Str → Map Lease → List Lease × Map Lease
remove_all [] m = ([], m)
remove_all (r ∷ rs) m = push_removed (lookup r m) (remove_all rs (remove r m))

unfoldable pub reap_expired : LeaseTable → ℕ → List Lease × LeaseTable
reap_expired t now =
    let expired = map (λ l. l.resource) (filter (λ l. leb l.expires_at now) (values t.leases)) in
    let (removed, m) = remove_all expired t.leases in (removed, record t { leases = m })
