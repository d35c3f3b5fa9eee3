-- ===== src/Peer/Bridge.antt =====
-- `PeerBridge` and `read_frames` of crates/workbench-runtime/src/peer.rs: the calls that wait for an
-- answer of the other side. The order of what threads do is a list of events; which request is
-- passed to a local role has no part in it.
use distributed_workbench.Base.{
  ℕ, ◌+◌, Str, bytes, Bool, true, false, ◌==◌, if◌then◌else◌, ◌≡◌, List, [], ◌∷◌, Result, ok, err,
}
use distributed_workbench.Base.Map.{insert, remove}
use distributed_workbench.Base.Map.Without.{IdSet, member}
use distributed_workbench.Peer.{hello, hello_ack, request, response}
use distributed_workbench.Peer.Handshake.{Received, closed, undecodable, frame}
use distributed_workbench.Protocol.{Response, failure, rpc_error}

-- The ids whose callers wait, and the answers that callers have got, the latest first.
pub record Bridge : Type 0 where
  pub pending : IdSet
  pub answered : List (Str × Response)

abbrev pub peer_failure : (code message : Str) → Response
peer_failure code message = failure (bytes "peer") (rpc_error code message)

unfoldable pub disconnected : Response
disconnected = peer_failure (bytes "PEER_DISCONNECTED") (bytes "peer framed connection closed")

abbrev pub answer : Str → Response → Bridge → Bridge
answer id r b = record { pending = remove id b.pending; answered = (id, r) ∷ b.answered }

-- `call_with_timeout` up to the wait: the id is registered before the frame is written.
unfoldable pub begin_call : (id : Str) → (written : Result Str (Unit {0})) → Bridge → Bridge
begin_call id (ok tt) b = record b { pending = insert id tt b.pending }
begin_call id (err e) b =
    answer id (peer_failure (bytes "PEER_WRITE_FAILED") e)
      (record b { pending = insert id tt b.pending })

-- The wait is over with no answer. A caller whose answer has come has it.
unfoldable pub expire : (id reason : Str) → Bridge → Bridge
expire id reason b =
    if member id b.pending
    then answer id (peer_failure (bytes "PEER_RESPONSE_TIMEOUT") reason) b
    else b

-- A response nobody waits for is passed over.
unfoldable pub deliver : (id : Str) → Response → Bridge → Bridge
deliver id r b = if member id b.pending then answer id r b else b

abbrev pub drain_all : IdSet → List (Str × Response) → List (Str × Response)
drain_all [] answers = answers
drain_all ((id, u) ∷ ids) answers = (id, disconnected) ∷ drain_all ids answers

-- `std::mem::take` of the waiting callers, each of whom is told.
unfoldable pub drain : Bridge → Bridge
drain b = record { pending = []; answered = drain_all b.pending b.answered }

-- Whether the loop of `read_frames_inner` goes on after what it has read, and the bridge.
unfoldable pub read_frame : Received → Bridge → Bridge × Bool
read_frame closed b = (b, false)
read_frame undecodable b = (b, false)
read_frame (frame (hello protocol node_id roles)) b = (b, false)
read_frame (frame (hello_ack protocol node_id roles)) b = (b, false)
read_frame (frame (request id role r)) b = (b, true)
read_frame (frame (response id r)) b = (deliver id r b, true)

-- What happens to the bridge, in the order in which it happens.
pub data Event : Type 0 where
  calling : (id : Str) → (written : Result Str (Unit {0})) → Event
  expiring : (id reason : Str) → Event
  reading : Received → Event

abbrev pub after_frame : Bridge × Bool → Bridge
after_frame (b, true) = b
after_frame (b, false) = drain b

unfoldable pub step : Event → Bridge → Bridge
step (calling id written) b = begin_call id written b
step (expiring id reason) b = expire id reason b
step (reading received) b = after_frame (read_frame received b)

unfoldable pub run : List Event → Bridge → Bridge
run [] b = b
run (e ∷ es) b = run es (step e b)

abbrev pub one : Bool → ℕ
one true = 1
one false = 0

abbrev pub answers : Str → List (Str × Response) → ℕ
answers id [] = 0
answers id ((j, r) ∷ rest) = one (j == id) + answers id rest

-- How many answers a caller has or will get.
abbrev pub tally : Str → Bridge → ℕ
tally id b = answers id b.answered + one (member id b.pending)

abbrev pub called : Str → Event → ℕ
called id (calling j written) = one (j == id)
called id (expiring j reason) = 0
called id (reading received) = 0

abbrev pub calls : Str → List Event → ℕ
calls id [] = 0
calls id (e ∷ es) = called id e + calls id es

-- A new call has an id for which nobody waits.
abbrev pub IsFresh : Event → Bridge → Type 0
IsFresh (calling id written) b = member id b.pending ≡ false
IsFresh (expiring id reason) b = Unit {0}
IsFresh (reading received) b = Unit {0}

abbrev pub AreFresh : List Event → Bridge → Type 0
AreFresh [] b = Unit {0}
AreFresh (e ∷ es) b = IsFresh e b × AreFresh es (step e b)
