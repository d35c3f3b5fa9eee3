-- ===== src/Lease/Holding.antt =====
-- Who holds a resource: `acquire` against a live lease, and the token after a handoff.
use distributed_workbench.Base.{
  ◌++◌, Str, ℕ, starts_with, ◌≡◌, some, ok, err, ◌↔◌, ◌<◌, ◌∙◌, arith, Option-cases, inl, ap, sym,
  inr, ◌==◌, ℕ_discrete, true, bytes, refl, none, [], verdict,
}
use distributed_workbench.Base.Map.{lookup-insert, lookup}
use distributed_workbench.Lease.{
  validate, acquire, LeaseTable, token_matches, refuse_live, LeaseError, active, take_handoff,
  request_handoff, cancel_handoff, put, public,
}
use distributed_workbench.Lease.Cases.{validate-eq-ok, acquire-eq-ok, take_handoff-eq-ok}
use distributed_workbench.Schema.Lease.{LeaseKind, Lease}

refusal :
    (t : LeaseTable) (kind : LeaseKind) (r o : Str) (ttl now : ℕ) (id token : Str) (l : Lease)
    → lookup r t.leases ≡ some l
    → now < l.expires_at
    → acquire t kind r o ttl now id token ≡ err (active l.owner l.expires_at)
unfolding acquire refuse_live
refusal t kind r o ttl now id token l found live = rw (found, acquire) (ground arith)

refused :
    (t : LeaseTable) (kind : LeaseKind) (r o : Str) (ttl now : ℕ) (id token : Str) (x : LeaseError)
    → acquire t kind r o ttl now id token ≡ err x
    → (l : Lease) × (lookup r t.leases ≡ some l)
      × (now < l.expires_at)
      × (x ≡ active l.owner l.expires_at)
unfolding acquire refuse_live
refused t kind r o ttl now id token x h = elim (Option-cases (lookup r t.leases)) [
  | inl e ↦ absurd (ground arith)
  | inr (l, e) ↦ (l, e, ground arith, ground arith)
]

-- `acquire` refuses exactly when a lease of the resource has not run out, with the owner and the
-- deadline of that lease.
pub acquire-refuses :
    (t : LeaseTable) (kind : LeaseKind) (r o : Str) (ttl now : ℕ) (id token : Str) (x : LeaseError)
    → (acquire t kind r o ttl now id token ≡ err x) ↔ (
        (l : Lease) × (lookup r t.leases ≡ some l)
        × (now < l.expires_at)
        × (x ≡ active l.owner l.expires_at))
acquire-refuses t kind r o ttl now id token x = (
  refused t kind r o ttl now id token x,
  λ (l, found, live, e). refusal t kind r o ttl now id token l found live ∙ ap err (sym e),
)

-- While a token validates, nobody can acquire the resource, under whatever name.
pub acquire-validate :
    (sha : Str → Str) (t : LeaseTable) (r o token : Str) (now : ℕ) (l : Lease) (kind : LeaseKind)
    (o' : Str) (ttl : ℕ) (id token' : Str)
    → validate sha t r o token now ≡ ok l
    → acquire t kind r o' ttl now id token' ≡ err (active o l.expires_at)
acquire-validate sha t r o token now l kind o' ttl id token' h =
    let facts = validate-eq-ok sha t r o token now l h in
    refusal t kind r o' ttl now id token' l facts.0 facts.1
    ∙ ap (λ w. err (active w l.expires_at)) facts.2

-- A minted token is compared as it is: it does not look like a digest.
pub token_matches-minted :
    (sha : Str → Str) (uuid presented : Str)
    → token_matches sha (bytes "token_" ++ uuid) presented ≡ ((bytes "token_" ++ uuid) == presented)
unfolding token_matches starts_with ℕ_discrete
token_matches-minted sha uuid presented = refl

-- The verdict on a lease that is in the table.
pub validate-found :
    (sha : Str → Str) (t : LeaseTable) (r o token : Str) (now : ℕ) (l : Lease)
    → lookup r t.leases ≡ some l
    → now < l.expires_at
    → l.owner ≡ o
    → token_matches sha l.token token ≡ true
    → validate sha t r o token now ≡ ok l
unfolding validate
validate-found sha t r o token now l found live owned matches = rw (found, validate) (ground arith)

==-refl : (s : Str) → (s == s) ≡ true
==-refl s = ground arith

-- What is granted under a minted token validates for that owner and token, and for no other, until
-- it runs out.
abbrev pub HeldBy : (Str → Str) → LeaseTable → Str → Lease → Type 0
HeldBy sha t r l =
    ((later : ℕ) → later < l.expires_at → validate sha t r l.owner l.token later ≡ ok l)
    × ((o token : Str) (later : ℕ) (m : Lease)
        → validate sha t r o token later ≡ ok m
        → (o ≡ l.owner) × (token ≡ l.token) × (m ≡ l))

minted-HeldBy :
    (sha : Str → Str) (t : LeaseTable) (r uuid : Str) (l : Lease)
    → lookup r t.leases ≡ some l
    → l.token ≡ bytes "token_" ++ uuid
    → HeldBy sha t r l
minted-HeldBy sha t r uuid l found minted = (
  λ later live.
      validate-found sha t r l.owner l.token later l found live refl
        (rw (minted, token_matches-minted sha uuid) (==-refl (bytes "token_" ++ uuid))),
  λ o token later m h.
      let facts = validate-eq-ok sha t r o token later m h in
      ground (arith, facts.0, facts.2, facts.3, token_matches-minted sha uuid token),
)

-- After `acquire` the new lease is held by its owner and token alone.
pub acquire-HeldBy :
    (sha : Str → Str) (t t' : LeaseTable) (kind : LeaseKind) (r o : Str) (ttl now : ℕ)
    (id token : Str) (l : Lease)
    → acquire t kind r o ttl now id token ≡ ok (l, t')
    → (l.owner ≡ o) × HeldBy sha t' r l
acquire-HeldBy sha t t' kind r o ttl now id token l h =
    let facts = acquire-eq-ok t t' kind r o ttl now id token l h in
    (facts.1, minted-HeldBy sha t' r token l (rw (facts.5, lookup-insert) (ground arith)) facts.2)

-- After `take_handoff` the target holds the lease with the token minted there; the former owner,
-- with whatever token, and anybody else are refused.
pub take_handoff-HeldBy :
    (sha : Str → Str) (t t' : LeaseTable) (r target : Str) (ttl now : ℕ) (token : Str) (l : Lease)
    → take_handoff t r target ttl now token ≡ ok (l, t')
    → (l.owner ≡ target) × (l.token ≡ bytes "token_" ++ token) × HeldBy sha t' r l
take_handoff-HeldBy sha t t' r target ttl now token l h =
    let facts = take_handoff-eq-ok t t' r target ttl now token l h in
    (
      facts.4,
      facts.5,
      minted-HeldBy sha t' r token l (rw (facts.9, lookup-insert) (ground arith)) facts.5,
    )

request_handoff-eq-ok :
    (t t' : LeaseTable) (r target : Str) (checked now : ℕ) (l : Lease)
    → request_handoff t r target checked now ≡ ok (l, t')
    → (old : Lease) × (lookup r t.leases ≡ some old)
      × (l.token ≡ [])
      × (t' ≡ put t r (record old { handoff_to = some target; updated_at = now }))
unfolding request_handoff
request_handoff-eq-ok t t' r target checked now l h = elim (Option-cases (lookup r t.leases)) [
  | inl e ↦ absurd (ground arith)
  | inr (old, e) ↦ (old, e, ground arith, ground arith)
]

-- A write to a lease that keeps its owner, token and deadline changes no verdict.
pub verdict-put :
    (sha : Str → Str) (t : LeaseTable) (r : Str) (old new : Lease) (k o token : Str) (at : ℕ)
    → lookup r t.leases ≡ some old
    → new.owner ≡ old.owner
    → new.token ≡ old.token
    → new.expires_at ≡ old.expires_at
    → verdict (validate sha (put t r new) k o token at) ≡ verdict (validate sha t k o token at)
unfolding validate
verdict-put sha t r old new k o token at found e₁ e₂ e₃ =
    rw (lookup-insert k r new t.leases, validate)
      (ground (arith, ap (λ s. token_matches sha s token) e₂))

lookup-put_self : (t : LeaseTable) (r : Str) (l : Lease) → lookup r (put t r l).leases ≡ some l
lookup-put_self t r l = rw lookup-insert (ground arith)

cancel_handoff-found :
    (t : LeaseTable) (r target : Str) (now : ℕ) (l : Lease)
    → lookup r t.leases ≡ some l
    → l.handoff_to ≡ some target
    → let cancelled : Lease = record l { handoff_to = none; updated_at = now } in
      cancel_handoff t r target now ≡ ok (public cancelled, put t r cancelled)
unfolding cancel_handoff
cancel_handoff-found t r target now l found requested = rw (found, cancel_handoff) (ground arith)

-- A handoff that is requested and then cancelled hands out no token and changes no verdict of
-- `validate`: the cancellation succeeds, at any later time, and no request is left.
pub cancel_handoff-request_handoff :
    (sha : Str → Str) (t t' : LeaseTable) (r target : Str) (checked now later : ℕ) (l : Lease)
    → request_handoff t r target checked now ≡ ok (l, t')
    → (m : Lease) × (t'' : LeaseTable) × (cancel_handoff t' r target later ≡ ok (m, t''))
      × (m.handoff_to ≡ none)
      × (l.token ≡ [])
      × (m.token ≡ [])
      × ((k o token : Str) (at : ℕ)
          → verdict (validate sha t'' k o token at) ≡ verdict (validate sha t k o token at))
cancel_handoff-request_handoff sha t t' r target checked now later l h =
    let (old, found, hidden, written) = request_handoff-eq-ok t t' r target checked now l h in
    let requested : Lease = record old { handoff_to = some target; updated_at = now } in
    let cancelled : Lease = record old { handoff_to = none; updated_at = later } in
    let found' : lookup r t'.leases ≡ some requested = rw written (lookup-put_self t r requested) in
    (
      public cancelled,
      put t' r cancelled,
      cancel_handoff-found t' r target later requested found' refl,
      refl,
      hidden,
      refl,
      λ k o token at.
          verdict-put sha t' r requested cancelled k o token at found' refl refl refl
          ∙ rw written (verdict-put sha t r old requested k o token at found refl refl refl),
    )
