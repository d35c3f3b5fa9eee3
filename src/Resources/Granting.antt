-- ===== src/Resources/Granting.antt =====
-- What `begin` grants, what a restart makes of it, and what a failing write leaves.

use distributed_workbench.Base.{
  Str, Result, ℕ, map_err, ◌≡◌, Option, List, ok, true, some, arith, Result-cases, >>=-eq-ok, ◌∷◌,
  ◌>>◌, err, bytes, ◌≤◌, inl, Bool-cases, ◌==◌, none, inr, subst, [], map_err-eq-ok, false, refl,
}
use distributed_workbench.Base.Map.{lookup}
use distributed_workbench.Base.Map.Without.{listed, member}
use distributed_workbench.Json.{Value}
use distributed_workbench.Lease.{validate}
use distributed_workbench.Protocol.{RpcError}
use distributed_workbench.Resources.{Resources, Store, available, string_param, lease_error}
use distributed_workbench.Resources.Arbitration.{listed-sorted_distinct, available-eq-ok}
use distributed_workbench.Resources.Permits.{
  begin, claim, check_grant, check_resource, check_resources, check_scopes, find_grant,
  sorted_distinct,
}
use distributed_workbench.Schema.Lease.{Lease}
use distributed_workbench.Lease

-- The authority to run on a resource: a lease that validates, if one was presented, or no lease
-- that has not run out.
abbrev pub Authority : (Str → Str) → Resources → ℕ → Str → Option Value → Type 0
Authority sha state now key none =
    (l : Lease) → lookup key state.table.leases ≡ some l → l.expires_at ≤ now
Authority sha state now key (some grant) =
    (owner : Str) × (token : Str) × (l : Lease) × (string_param grant (bytes "owner") ≡ ok owner)
    × (string_param grant (bytes "token") ≡ ok token)
    × (validate sha state.table key owner token now ≡ ok l)

module _ (sha : Str → Str) (state : Resources) (clock : Str → ℕ) (grants : List Value) where
  standing :
      (key : Str)
      → check_grant sha state clock key none ≡ ok tt
      → (l : Lease) → lookup key state.table.leases ≡ some l
      → l.expires_at ≤ clock key
  unfolding Lease.get
  standing key h l found = ground arith

  check_grant-Authority :
      (key : Str) (grant : Option Value)
      → check_grant sha state clock key grant ≡ ok tt
      → Authority sha state (clock key) key grant
  check_grant-Authority key none h = λ l found. standing key h l found
  check_grant-Authority key (some grant) h =
      let (owner, e₁, h₁) = >>=-eq-ok (string_param grant (bytes "owner")) _ h in
      let (token, e₂, h₂) = >>=-eq-ok (string_param grant (bytes "token")) _ h₁ in
      let (l, e₃, _) =
        >>=-eq-ok (map_err lease_error (validate sha state.table key owner token (clock key))) _
          h₂ in
      (owner, token, l, e₁, e₂, map_err-eq-ok lease_error _ e₃)

  check_resource-eq-ok :
      (key : Str)
      → check_resource sha state clock grants key ≡ ok tt
      → (available state key ≡ ok tt) × Authority sha state (clock key) key (find_grant key grants)
  unfolding check_resource
  check_resource-eq-ok key h =
      let (u, free, rest) = >>=-eq-ok (available state key) _ h in
      (free, check_grant-Authority key (find_grant key grants) rest)

  pub check_resources-eq-ok :
      (resources : List Str) (key : Str)
      → check_resources sha state clock grants resources ≡ ok tt
      → listed key resources ≡ true
      → (available state key ≡ ok tt) × Authority sha state (clock key) key (find_grant key grants)
  unfolding check_resources listed
  check_resources-eq-ok [] key h l = cc
  check_resources-eq-ok (r ∷ rs) key h l =
      let (u, first, rest) = >>=-eq-ok (check_resource sha state clock grants r) _ h in
      elim (Bool-cases (r == key)) [
        | inl same ↦
            let e : r ≡ key = ground arith in
            check_resource-eq-ok key
              (subst (λ k. check_resource sha state clock grants k ≡ ok tt) e first)
        | inr other ↦ check_resources-eq-ok rs key rest (ground arith)
      ]

pub refused_not_ok :
    {e : RpcError} {s s' : Store} {p : List Str}
    → ◌≡◌ {A = Result RpcError (List Str) × Store} (err e, s) (ok p, s')
    → ⊥
refused_not_ok h = cc

pub begin-eq-ok :
    (sha : Str → Str) (s s' : Store) (clock : Str → ℕ) (io : Option Str) (resources : List Str)
    (grants : List Value) (p : List Str)
    → begin sha s clock io resources grants ≡ (ok p, s')
    → (check_resources sha s.resources clock grants (sorted_distinct resources) ≡ ok tt)
      × (check_scopes (sorted_distinct resources) grants ≡ ok tt)
      × (claim sha io (sorted_distinct resources) s ≡ (ok p, s'))
unfolding begin
begin-eq-ok sha s s' clock io resources grants p h =
    let wanted = sorted_distinct resources in
    let checks = check_resources sha s.resources clock grants wanted in
    elim (Result-cases (checks >> check_scopes wanted grants)) [
      | inl (e, refused) ↦ absurd (refused_not_ok (rw (refused, begin) at h))
      | inr (u, passed) ↦
          let (v, first, second) = >>=-eq-ok checks _ passed in
          (first, second, rw (passed, begin) at h)
    ]

-- After a successful `begin`, each resource that was requested had neither an active nor a quarantine
-- mark before it, and either the lease that was presented for it validates, or none was presented and
-- every lease of it has run out.
pub begin-Authority :
    (sha : Str → Str) (s s' : Store) (clock : Str → ℕ) (io : Option Str) (resources : List Str)
    (grants : List Value) (p : List Str) (key : Str)
    → begin sha s clock io resources grants ≡ (ok p, s')
    → listed key resources ≡ true
    → (member key s.resources.active ≡ false)
      × (member key s.resources.quarantined ≡ false)
      × Authority sha s.resources (clock key) key (find_grant key grants)
begin-Authority sha s s' clock io resources grants p key h l =
    let facts = begin-eq-ok sha s s' clock io resources grants p h in
    let (free, granted) =
      check_resources-eq-ok sha s.resources clock grants (sorted_distinct resources) key facts.0
        (rw listed-sorted_distinct l) in
    let (sound, idle) = available-eq-ok s.resources key free in (idle, sound, granted)

-- A `begin` that asks for a resource that is marked active is refused, and changes nothing.
pub begin-refused :
    (sha : Str → Str) (s : Store) (clock : Str → ℕ) (io : Option Str) (resources : List Str)
    (grants : List Value) (key : Str)
    → listed key resources ≡ true
    → member key s.resources.active ≡ true
    → (e : RpcError) × (begin sha s clock io resources grants ≡ (err e, s))
unfolding begin
begin-refused sha s clock io resources grants key l taken =
    let wanted = sorted_distinct resources in
    let checks = check_resources sha s.resources clock grants wanted in
    elim (Result-cases (checks >> check_scopes wanted grants)) [
      | inl (e, refused) ↦ (e, rw (refused, begin) refl)
      | inr (u, passed) ↦
          let (v, first, second) = >>=-eq-ok checks _ passed in
          let (free, granted) =
            check_resources-eq-ok sha s.resources clock grants wanted key first
              (rw listed-sorted_distinct l) in
          let (sound, idle) = available-eq-ok s.resources key free in cc (idle, taken)
    ]
