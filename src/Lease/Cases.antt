-- ===== src/Lease/Cases.antt =====
-- What a call can do to the table: nothing, or one write. A property of the table after a call
-- follows from the two cases.
use distributed_workbench.Schema.Lease.{LeaseKind}
use distributed_workbench.Base.{
  ◌++◌, ok, Result-cases, true, ◌<◌, ℕ, ◌≡◌, Str, none, some, saturating_add, arith, Option-cases,
  inl, inr, bytes, add_u64,
}
use distributed_workbench.Base.Map.{lookup, remove, insert}
use distributed_workbench.Lease.{
  LeaseTable, put, renew, handoff, request_handoff, cancel_handoff, release, validate,
  token_matches, take_handoff, acquire, or_default, fence_of, refuse_live,
}
use distributed_workbench.Lease.Calls.{after}
use distributed_workbench.Schema.Lease.{Lease}

-- A lease that validates is in the table, has not run out, and its owner and token match.
pub validate-eq-ok :
    (sha : Str → Str) (t : LeaseTable) (r o token : Str) (now : ℕ) (l : Lease)
    → validate sha t r o token now ≡ ok l
    → (lookup r t.leases ≡ some l)
      × (now < l.expires_at)
      × (l.owner ≡ o)
      × (token_matches sha l.token token ≡ true)
unfolding validate
validate-eq-ok sha t r o token now l h = ground arith

pub validate-lookup :
    (sha : Str → Str) (t : LeaseTable) (r o token : Str) (now : ℕ) (l : Lease)
    → validate sha t r o token now ≡ ok l
    → lookup r t.leases ≡ some l
validate-lookup sha t r o token now l h = (validate-eq-ok sha t r o token now l h).0

module _ {ℓ} (P : LeaseTable → Type ℓ) (t : LeaseTable) (stays : P t) where
  pub renew_cases :
      (sha : Str → Str) (r o token : Str) (ttl checked now : ℕ)
      → ((l : Lease)
          → lookup r t.leases ≡ some l
          → P (put t r (record l { updated_at = now; expires_at = saturating_add now ttl })))
      → P (after t (renew sha t r o token ttl checked now))
  unfolding renew
  renew_cases sha r o token ttl checked now write =
      elim (Result-cases (validate sha t r o token checked)) [
        | inl (x, e) ↦ rw (e, renew) stays
        | inr (l, e) ↦ rw (e, renew) (write l (validate-lookup sha t r o token checked l e))
      ]

  pub handoff_cases :
      (sha : Str → Str) (r o token target : Str) (checked now : ℕ)
      → ((l : Lease)
          → lookup r t.leases ≡ some l
          → P (put t r (record l { handoff_to = some target; updated_at = now })))
      → P (after t (handoff sha t r o token target checked now))
  unfolding handoff
  handoff_cases sha r o token target checked now write =
      elim (Result-cases (validate sha t r o token checked)) [
        | inl (x, e) ↦ rw (e, handoff) stays
        | inr (l, e) ↦ rw (e, handoff) (write l (validate-lookup sha t r o token checked l e))
      ]

  pub request_handoff_cases :
      (r target : Str) (checked now : ℕ)
      → ((l : Lease)
          → lookup r t.leases ≡ some l
          → P (put t r (record l { handoff_to = some target; updated_at = now })))
      → P (after t (request_handoff t r target checked now))
  unfolding request_handoff
  request_handoff_cases r target checked now write = elim (Option-cases (lookup r t.leases)) [
    | inl e ↦ rw (e, request_handoff) stays
    | inr (l, e) ↦ rw (e, request_handoff) (ground (arith, write l e))
  ]

  pub cancel_handoff_cases :
      (r target : Str) (now : ℕ)
      → ((l : Lease)
          → lookup r t.leases ≡ some l
          → P (put t r (record l { handoff_to = none; updated_at = now })))
      → P (after t (cancel_handoff t r target now))
  unfolding cancel_handoff
  cancel_handoff_cases r target now write = elim (Option-cases (lookup r t.leases)) [
    | inl e ↦ rw (e, cancel_handoff) stays
    | inr (l, e) ↦ rw (e, cancel_handoff) (ground (arith, write l e))
  ]

  pub release_cases :
      (sha : Str → Str) (r o token : Str) (now : ℕ)
      → P (record t { leases = remove r t.leases })
      → P (after t (release sha t r o token now))
  unfolding release
  release_cases sha r o token now write = elim (Result-cases (validate sha t r o token now)) [
    | inl (x, e) ↦ rw (e, release) stays
    | inr (l, e) ↦ rw (e, release) (rw (validate-lookup sha t r o token now l e) write)
  ]

-- A grant of `acquire`: no live lease stood in its way, and the fence is the next one.
pub acquire-eq-ok :
    (t t' : LeaseTable) (kind : LeaseKind) (r o : Str) (ttl now : ℕ) (id token : Str) (l : Lease)
    → acquire t kind r o ttl now id token ≡ ok (l, t')
    → (l.resource ≡ r)
      × (l.owner ≡ o)
      × (l.token ≡ bytes "token_" ++ token)
      × (l.fence ≡ add_u64 (fence_of r t.fences) 1)
      × (l.expires_at ≡ saturating_add now ttl)
      × (t' ≡ record { leases = insert r l t.leases; fences = insert r l.fence t.fences })
      × (refuse_live (lookup r t.leases) now ≡ ok tt)
unfolding acquire
acquire-eq-ok t t' kind r o ttl now id token l h = ground arith

pub take_handoff-eq-ok :
    (t t' : LeaseTable) (r target : Str) (ttl now : ℕ) (token : Str) (l : Lease)
    → take_handoff t r target ttl now token ≡ ok (l, t')
    → (old : Lease) × (lookup r t.leases ≡ some old)
      × (old.handoff_to ≡ some target)
      × (l.resource ≡ old.resource)
      × (l.owner ≡ target)
      × (l.token ≡ bytes "token_" ++ token)
      × (l.fence ≡ add_u64 (or_default (lookup r t.fences) old.fence) 1)
      × (l.expires_at ≡ saturating_add now ttl)
      × (l.handoff_to ≡ none)
      × (t' ≡ record { leases = insert r l t.leases; fences = insert r l.fence t.fences })
unfolding take_handoff
take_handoff-eq-ok t t' r target ttl now token l h = elim (Option-cases (lookup r t.leases)) [
  | inl e ↦ absurd (ground arith)
  | inr (old, e) ↦ (
    old,
    e,
    ground arith,
    ground arith,
    ground arith,
    ground arith,
    ground arith,
    ground arith,
    ground arith,
    ground arith,
  )
]
