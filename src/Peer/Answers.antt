-- ===== src/Peer/Answers.antt =====
-- Every call over the bridge of crates/workbench-runtime/src/peer.rs gets one answer.
use distributed_workbench.Base.{
  ◌+◌, Str, bytes, true, false, ◌==◌, if◌then◌else◌, ◌≡◌, refl, arith, List, [], ◌∷◌, Result, ok,
  err, Bool-cases, inl, inr,
}
use distributed_workbench.Base.Map.{lookup, insert, remove, lookup-insert, lookup-remove}
use distributed_workbench.Base.Map.Order.{IsSorted, insert-IsSorted, remove-IsSorted, Above-lookup}
use distributed_workbench.Base.Map.Without.{IdSet, member}
use distributed_workbench.Peer.{hello, hello_ack, request, response}
use distributed_workbench.Peer.Bridge.{
  step, run, peer_failure, Bridge, begin_call, expire, deliver, drain, drain_all, read_frame, Event,
  calling, expiring, reading, answers, tally, called, calls, IsFresh, AreFresh, one, answer,
}
use distributed_workbench.Peer.Handshake.{Received, closed, undecodable, frame}
use distributed_workbench.Protocol.{Response}

member-insert :
    (j k : Str) (m : IdSet)
    → one (member j (insert k tt m)) ≡ (if k == j then 1 else one (member j m))
member-insert j k m = ground (arith, lookup-insert j k tt m)

member-remove :
    (j k : Str) (m : IdSet) → one (member j (remove k m)) ≡ (if k == j then 0 else one (member j m))
member-remove j k m = ground (arith, lookup-remove j k m)

-- An answer to a caller who waits.
tally-answer :
    (id j : Str) (r : Response) (b : Bridge)
    → member j b.pending ≡ true
    → tally id (answer j r b) ≡ tally id b
tally-answer id j r b h = ground (arith, lookup-remove id j b.pending)

tally-begin_call :
    (id j : Str) (written : Result Str (Unit {0})) (b : Bridge)
    → member j b.pending ≡ false
    → tally id (begin_call j written b) ≡ one (j == id) + tally id b
unfolding begin_call
tally-begin_call id j (ok tt) b h = ground (arith, lookup-insert id j tt b.pending)
tally-begin_call id j (err e) b h =
    ground (arith, lookup-insert id j tt b.pending, lookup-remove id j (insert j tt b.pending))

tally-deliver : (id j : Str) (r : Response) (b : Bridge) → tally id (deliver j r b) ≡ tally id b
unfolding deliver
tally-deliver id j r b = elim (Bool-cases (member j b.pending)) [
  | inl waits ↦ rw (waits, deliver) (tally-answer id j r b waits)
  | inr gone ↦ rw (gone, deliver) refl
]

tally-expire : (id j reason : Str) (b : Bridge) → tally id (expire j reason b) ≡ tally id b
unfolding expire
tally-expire id j reason b = elim (Bool-cases (member j b.pending)) [
  | inl waits ↦
      rw (waits, expire)
        (tally-answer id j (peer_failure (bytes "PEER_RESPONSE_TIMEOUT") reason) b waits)
  | inr gone ↦ rw (gone, expire) refl
]

answers-drain_all :
    (id : Str) (m : IdSet) (rest : List (Str × Response))
    → IsSorted m
    → answers id (drain_all m rest) ≡ answers id rest + one (member id m)
unfolding lookup
answers-drain_all id [] rest s = omega arith
answers-drain_all id ((j, u) ∷ m) rest s =
    ground (arith, answers-drain_all id m rest s.1, Above-lookup j m s.0)

tally-drain : (id : Str) (b : Bridge) → IsSorted b.pending → tally id (drain b) ≡ tally id b
unfolding drain lookup
tally-drain id b s = ground (arith, answers-drain_all id b.pending b.answered s)

deliver-IsSorted :
    (id : Str) (r : Response) (b : Bridge) → IsSorted b.pending → IsSorted (deliver id r b).pending
unfolding deliver
deliver-IsSorted id r b s = elim (Bool-cases (member id b.pending)) [
  | inl waits ↦ rw (waits, deliver) (remove-IsSorted id b.pending s)
  | inr gone ↦ rw (gone, deliver) s
]

expire-IsSorted :
    (id reason : Str) (b : Bridge) → IsSorted b.pending → IsSorted (expire id reason b).pending
unfolding expire
expire-IsSorted id reason b s = elim (Bool-cases (member id b.pending)) [
  | inl waits ↦ rw (waits, expire) (remove-IsSorted id b.pending s)
  | inr gone ↦ rw (gone, expire) s
]

step-IsSorted : (e : Event) (b : Bridge) → IsSorted b.pending → IsSorted (step e b).pending
unfolding step begin_call read_frame drain
step-IsSorted (calling id (ok tt)) b s = insert-IsSorted id tt b.pending s
step-IsSorted (calling id (err e)) b s =
    remove-IsSorted id (insert id tt b.pending) (insert-IsSorted id tt b.pending s)
step-IsSorted (expiring id reason) b s = expire-IsSorted id reason b s
step-IsSorted (reading closed) b s = tt
step-IsSorted (reading undecodable) b s = tt
step-IsSorted (reading (frame (hello p n rs))) b s = tt
step-IsSorted (reading (frame (hello_ack p n rs))) b s = tt
step-IsSorted (reading (frame (request id role r))) b s = s
step-IsSorted (reading (frame (response id r))) b s = deliver-IsSorted id r b s

tally-step :
    (id : Str) (e : Event) (b : Bridge)
    → IsSorted b.pending
    → IsFresh e b
    → tally id (step e b) ≡ called id e + tally id b
unfolding step read_frame
tally-step id (calling j written) b s new = tally-begin_call id j written b new
tally-step id (expiring j reason) b s new = omega (arith, tally-expire id j reason b)
tally-step id (reading closed) b s new = omega (arith, tally-drain id b s)
tally-step id (reading undecodable) b s new = omega (arith, tally-drain id b s)
tally-step id (reading (frame (hello p n rs))) b s new = omega (arith, tally-drain id b s)
tally-step id (reading (frame (hello_ack p n rs))) b s new = omega (arith, tally-drain id b s)
tally-step id (reading (frame (request j role r))) b s new = omega arith
tally-step id (reading (frame (response j r))) b s new = omega (arith, tally-deliver id j r b)

-- Whatever order calls, answers, expiries and the end of the connection come in, a caller has had or
-- still awaits as many answers as it has made calls: none is lost, and none comes twice.
pub tally-run :
    (id : Str) (es : List Event) (b : Bridge)
    → IsSorted b.pending
    → AreFresh es b
    → tally id (run es b) ≡ calls id es + tally id b
unfolding run
tally-run id [] b s new = omega arith
tally-run id (e ∷ es) b s new =
    omega (arith, tally-run id es (step e b) (step-IsSorted e b s) new.1, tally-step id e b s new.0)

-- Once the other side has closed, or has sent what is no frame or a handshake frame, nobody waits.
pub step-drained :
    (received : Received) (b : Bridge)
    → (read_frame received b).1 ≡ false
    → (step (reading received) b).pending ≡ []
unfolding step read_frame drain
step-drained closed b h = refl
step-drained undecodable b h = refl
step-drained (frame (hello p n rs)) b h = refl
step-drained (frame (hello_ack p n rs)) b h = refl
step-drained (frame (request id role r)) b h = cc
step-drained (frame (response id r)) b h = cc
