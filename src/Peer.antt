-- ===== src/Peer.antt =====
-- crates/workbench-runtime/src/peer.rs: frames, the handshake, the checks of a configuration, and the
-- loop that connects again. A path is its text; what a connection attempt does is an answer.
pub mod Answers
pub mod Backoff
pub mod Bridge
pub mod Handshake
pub mod Quoting
use distributed_workbench.Base.{
  ℕ, ◌+◌, ◌*◌, Str, bytes, Bool, true, false, not, ◌&&◌, ◌||◌, Option, none, some, ◌==◌,
  if◌then◌else◌, List, [], ◌∷◌, ◌++◌, Result, ok, err, guard, ◌>>◌, ◌>>=◌, leb, min, saturating_add,
}
use distributed_workbench.Base.Trim.{is, is_empty}
use distributed_workbench.Protocol.{Request, Response}

pub data TargetRole : Type 0 where
  controller executor : TargetRole

pub data PeerFrame : Type 0 where
  hello hello_ack : (protocol node_id : Str) → (roles : List TargetRole) → PeerFrame
  request : (id : Str) → TargetRole → Request → PeerFrame
  response : (id : Str) → Response → PeerFrame

pub record PeerStatus : Type 0 where
  pub peer_id : Str
  pub host : Str
  pub connection_id : Str
  pub generation : ℕ
  pub state : Str
  pub updated_at : ℕ
  pub error : Option Str

abbrev is_controller : TargetRole → Bool
is_controller controller = true
is_controller executor = false

abbrev any_role : (TargetRole → Bool) → List TargetRole → Bool
any_role p [] = false
any_role p (r ∷ rs) = p r || any_role p rs

unfoldable pub has_required_roles : List TargetRole → Bool
has_required_roles roles =
    any_role is_controller roles && any_role (λ r. not (is_controller r)) roles

-- Durations in milliseconds.
abbrev pub backoff_initial : ℕ
backoff_initial = 1000

abbrev pub backoff_max : ℕ
backoff_max = 60000

abbrev pub stable_connection : ℕ
stable_connection = 30000

unfoldable pub next_peer_backoff : (current connected_for : ℕ) → ℕ
next_peer_backoff current connected_for =
    if leb stable_connection connected_for then backoff_initial else min (current * 2) backoff_max

abbrev is_alphanumeric : ℕ → Bool
is_alphanumeric c =
    (leb b'0' c && leb c b'9') || ((leb b'A' c && leb c b'Z') || (leb b'a' c && leb c b'z'))

abbrev pub is_id_byte : ℕ → Bool
is_id_byte c = is_alphanumeric c || (is c b'.' || (is c b'_' || is c b'-'))

abbrev pub all_bytes : (ℕ → Bool) → Str → Bool
all_bytes p [] = true
all_bytes p (c ∷ s) = p c && all_bytes p s

unfoldable pub validate_id : (name value : Str) → Result Str (Unit {0})
validate_id name value =
    guard (not (is_empty value || not (all_bytes is_id_byte value)))
      (bytes "invalid " ++ (name ++ (bytes ": " ++ value)))

-- `Path::is_absolute` on Unix.
abbrev is_absolute : Str → Bool
is_absolute [] = false
is_absolute (c ∷ s) = is c b'/'

unfoldable pub validate_absolute_paths : List Str → Result Str (Unit {0})
validate_absolute_paths [] = ok tt
validate_absolute_paths (p ∷ ps) =
    guard (is_absolute p) (bytes "peer path must be absolute: " ++ p) >> validate_absolute_paths ps

abbrev pub is_root_byte : ℕ → Bool
is_root_byte c = not (is c 10) && (not (is c 13) && not (is c 39))

unfoldable pub validate_remote_root : Str → Result Str (Unit {0})
validate_remote_root path =
    guard (not (is_empty path || not (all_bytes is_root_byte path)))
      (bytes "invalid remote state root: " ++ path)

-- `PeerConnectConfig`
pub record PeerConnectConfig : Type 0 where
  pub local_id : Str
  pub peer_id : Str
  pub host : Str
  pub local_controller_socket : Str
  pub local_executor_socket : Str
  pub expose_controller_socket : Str
  pub expose_executor_socket : Str
  pub remote_executable : Str
  pub remote_state_root : Str
  pub remote_windows : Bool
  pub state_path : Str

-- The checks of `connect_peer` up to the call of the local controller.
unfoldable pub validate_connect : PeerConnectConfig → Result Str (Unit {0})
validate_connect c = do
  _ ← validate_id (bytes "local id") c.local_id
  _ ← validate_id (bytes "peer id") c.peer_id
  _ ← validate_id (bytes "host") c.host
  _ ← validate_absolute_paths (
      c.local_controller_socket ∷ c.local_executor_socket ∷ c.expose_controller_socket
      ∷ c.expose_executor_socket ∷ c.state_path ∷ [])
  _ ← validate_remote_root c.remote_state_root
  validate_remote_root c.remote_executable

-- One attempt: when it starts and ends, how long it took, and how it ended.
pub record Attempt : Type 0 where
  pub began : ℕ
  pub ended : ℕ
  pub elapsed : ℕ
  pub outcome : Result Str (Unit {0})

abbrev reason : Result Str (Unit {0}) → Str
reason (ok tt) = bytes "peer transport closed"
reason (err e) = e

module _ (config : PeerConnectConfig) (connection_id : Str) where
  abbrev status : (generation : ℕ) → (state : Str) → (at_ms : ℕ) → Option Str → PeerStatus
  status generation state at_ms error = record {
    peer_id = config.peer_id;
    host = config.host;
    connection_id = connection_id;
    generation = generation;
    state = state;
    updated_at = at_ms;
    error = error;
  }

  -- The statuses that the loop writes around its attempts; what an attempt that becomes ready writes
  -- itself is not among them.
  unfoldable pub connect_statuses : (generation : ℕ) → List Attempt → List PeerStatus
  connect_statuses generation [] = []
  connect_statuses generation (a ∷ rest) =
      status generation (bytes "connecting") a.began none
      ∷ status generation (bytes "reconnecting") a.ended (some (reason a.outcome))
      ∷ connect_statuses (saturating_add generation 1) rest

-- How long the loop sleeps after each attempt.
unfoldable pub connect_sleeps : (backoff : ℕ) → List Attempt → List ℕ
connect_sleeps backoff [] = []
connect_sleeps backoff (a ∷ rest) =
    next_peer_backoff backoff a.elapsed ∷ connect_sleeps (next_peer_backoff backoff a.elapsed) rest
