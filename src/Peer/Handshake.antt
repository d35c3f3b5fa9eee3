-- ===== src/Peer/Handshake.antt =====
-- The handshake of crates/workbench-runtime/src/peer.rs.
use distributed_workbench.Base.{
  Str, bytes, Bool, true, ◌&&◌, ◌==◌, if◌then◌else◌, ◌≡◌, refl, ◌↔◌, List, [], ◌∷◌, Result, ok, err,
  arith, Str-discrete, Bool-cases, ℕ_discrete, inl, inr,
}
use distributed_workbench.Peer.{
  TargetRole, controller, executor, PeerFrame, hello, hello_ack, request, response,
  has_required_roles,
}

abbrev pub peer_protocol : Str
peer_protocol = bytes "workbench.peer/v1"

abbrev both_roles : List TargetRole
both_roles = controller ∷ executor ∷ []

-- What is read of the other side: a frame, nothing at its end, or what does not decode.
pub data Received : Type 0 where
  closed undecodable : Received
  frame : PeerFrame → Received

pub data HandshakeError : Type 0 where
  closed_before undecoded : HandshakeError
  invalid : PeerFrame → HandshakeError

-- The frame that opens a handshake.
unfoldable pub hello_of : (local_id : Str) → PeerFrame
hello_of local_id = hello peer_protocol local_id both_roles

abbrev accepted : (protocol node_id : Str) → List TargetRole → (expected : Str) → Bool
accepted protocol node_id roles expected =
    protocol == peer_protocol && (node_id == expected && has_required_roles roles)

unfoldable pub read_handshake_frame : Received → Result HandshakeError PeerFrame
read_handshake_frame closed = err closed_before
read_handshake_frame undecodable = err undecoded
read_handshake_frame (frame f) = ok f

abbrev acknowledged : (expected : Str) → PeerFrame → Result HandshakeError (Unit {0})
acknowledged expected (hello_ack protocol node_id roles) =
    if accepted protocol node_id roles expected
    then ok tt
    else err (invalid (hello_ack protocol node_id roles))
acknowledged expected (hello protocol node_id roles) = err (invalid (hello protocol node_id roles))
acknowledged expected (request id role r) = err (invalid (request id role r))
acknowledged expected (response id r) = err (invalid (response id r))

-- What the initiator makes of the reply to its `hello_of local_id`.
unfoldable pub initiate_handshake :
    (expected_peer_id : Str) → Received → Result HandshakeError (Unit {0})
initiate_handshake expected reply = elim (read_handshake_frame reply) [
  | err e ↦ err e
  | ok f ↦ acknowledged expected f
]

abbrev welcomed : (expected local_id : Str) → PeerFrame → Result HandshakeError PeerFrame
welcomed expected local_id (hello protocol node_id roles) =
    if accepted protocol node_id roles expected
    then ok (hello_ack peer_protocol local_id both_roles)
    else err (invalid (hello protocol node_id roles))
welcomed expected local_id (hello_ack protocol node_id roles) =
    err (invalid (hello_ack protocol node_id roles))
welcomed expected local_id (request id role r) = err (invalid (request id role r))
welcomed expected local_id (response id r) = err (invalid (response id r))

-- The acceptor's reply, or why it sends none.
unfoldable pub accept_handshake :
    (expected_peer_id local_id : Str) → Received → Result HandshakeError PeerFrame
accept_handshake expected local_id received = elim (read_handshake_frame received) [
  | err e ↦ err e
  | ok f ↦ welcomed expected local_id f
]

abbrev pub reply : Result HandshakeError PeerFrame → Received
reply (ok f) = frame f
reply (err e) = closed

accepted_self :
    (id expected : Str) → accepted peer_protocol id both_roles expected ≡ (id == expected)
unfolding has_required_roles Str-discrete ℕ_discrete
accepted_self id expected = ground arith

initiate_self :
    (id expected : Str)
    → (initiate_handshake expected (frame (hello_ack peer_protocol id both_roles)) ≡ ok tt)
      ↔ ((id == expected) ≡ true)
unfolding initiate_handshake read_handshake_frame
initiate_self id expected = elim (Bool-cases (id == expected)) [
  | inl same ↦ (λ _. same, λ _. rw (accepted_self id expected) (rw same refl))
  | inr other ↦ (λ h. cc (rw other at (rw (accepted_self id expected) at h)), λ h. cc (other, h))
]

accept_self :
    (id expected local_id : Str)
    → accept_handshake expected local_id (frame (hello_of id)) ≡ (
        if id == expected
        then ok (hello_ack peer_protocol local_id both_roles)
        else err (invalid (hello peer_protocol id both_roles)))
unfolding accept_handshake read_handshake_frame hello_of
accept_self id expected local_id = rw (accepted_self id expected) refl

closed_fails :
    (expected : Str)
    → ◌≡◌ {A = Result HandshakeError (Unit {0})} (initiate_handshake expected closed) (ok tt)
    → ⊥
unfolding initiate_handshake read_handshake_frame
closed_fails expected h = cc

same_text : (s t : Str) → ((s == t) ≡ true) ↔ (s ≡ t)
same_text s t = (λ h. ground arith, λ h. ground arith)

-- Where each side hears what the other says, the handshake of two nodes succeeds for the initiator
-- exactly when each is the node that the other expects.
pub handshake_iff :
    (a b expected_of_a expected_of_b : Str)
    → (initiate_handshake expected_of_a
          (reply (accept_handshake expected_of_b b (frame (hello_of a))))
        ≡ ok tt)
      ↔ ((a ≡ expected_of_b) × (b ≡ expected_of_a))
handshake_iff a b expected_of_a expected_of_b = elim (Bool-cases (a == expected_of_b)) [
  | inl known ↦ rw (accept_self a expected_of_b b) (
      rw known (
        λ h. (
          (same_text a expected_of_b).0 known,
          (same_text b expected_of_a).0 ((initiate_self b expected_of_a).0 h),
        ),
        λ h. (initiate_self b expected_of_a).1 ((same_text b expected_of_a).1 h.1),
      ))
  | inr other ↦ rw (accept_self a expected_of_b b) (
      rw other (
        λ h. absurd (closed_fails expected_of_a h),
        λ h. cc (other, (same_text a expected_of_b).1 h.0),
      ))
]
