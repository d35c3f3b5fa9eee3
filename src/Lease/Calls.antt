-- ===== src/Lease/Calls.antt =====
-- A history of a lease table: calls with their clock readings and random identifiers, in the order
-- in which the lock of the table lets them in.
use distributed_workbench.Base.{ℕ, Str, ◌==◌, if◌then◌else◌, List, [], ◌∷◌, ◌++◌, Result, ok, err}
use distributed_workbench.Schema.Lease.{Lease, LeaseKind}
use distributed_workbench.Lease.{
  LeaseTable, LeaseError, acquire, renew, handoff, request_handoff, cancel_handoff, take_handoff,
  release, reap_expired,
}

pub data Op : Type 0 where
  acquires : LeaseKind → (resource owner : Str) (ttl_ms : ℕ) → Op
  renews : (resource owner token : Str) (ttl_ms : ℕ) → Op
  hands_off : (resource owner token target : Str) → Op
  requests cancels : (resource target : Str) → Op
  takes : (resource target : Str) (ttl_ms : ℕ) → Op
  releases : (resource owner token : Str) → Op
  reaps : Op

-- `checked` is the clock as `validate` reads it, `now` as the rest of the call does.
pub record Call : Type 0 where
  pub op : Op
  pub checked : ℕ
  pub now : ℕ
  pub id_uuid : Str
  pub token_uuid : Str

-- A call that fails leaves the table as it was.
abbrev pub after : LeaseTable → Result LeaseError (Lease × LeaseTable) → LeaseTable
after t (ok (_, t')) = t'
after t (err e) = t

module _ (sha : Str → Str) where
  unfoldable pub perform : LeaseTable → Call → Op → LeaseTable
  perform t c (acquires kind resource owner ttl_ms) =
      after t (acquire t kind resource owner ttl_ms c.now c.id_uuid c.token_uuid)
  perform t c (renews resource owner token ttl_ms) =
      after t (renew sha t resource owner token ttl_ms c.checked c.now)
  perform t c (hands_off resource owner token target) =
      after t (handoff sha t resource owner token target c.checked c.now)
  perform t c (requests resource target) =
      after t (request_handoff t resource target c.checked c.now)
  perform t c (cancels resource target) = after t (cancel_handoff t resource target c.now)
  perform t c (takes resource target ttl_ms) =
      after t (take_handoff t resource target ttl_ms c.now c.token_uuid)
  perform t c (releases resource owner token) =
      after t (release sha t resource owner token c.checked)
  perform t c reaps = (reap_expired t c.now).1

  abbrev pub step : LeaseTable → Call → LeaseTable
  step t c = perform t c c.op

  unfoldable pub run : LeaseTable → List Call → LeaseTable
  run t [] = t
  run t (c ∷ cs) = run (step t c) cs

-- The fence that a call grants on a resource, if it grants one.
abbrev pub granted : Str → Str → Result LeaseError (Lease × LeaseTable) → List ℕ
granted r resource (ok (l, _)) = if resource == r then l.fence ∷ [] else []
granted r resource (err e) = []

unfoldable pub grants_of : Str → LeaseTable → Call → Op → List ℕ
grants_of r t c (acquires kind resource owner ttl_ms) =
    granted r resource (acquire t kind resource owner ttl_ms c.now c.id_uuid c.token_uuid)
grants_of r t c (takes resource target ttl_ms) =
    granted r resource (take_handoff t resource target ttl_ms c.now c.token_uuid)
grants_of r t c _ = []

module _ (sha : Str → Str) where
  -- The fences granted on a resource in a history, in their order.
  unfoldable pub grants : Str → LeaseTable → List Call → List ℕ
  grants r t [] = []
  grants r t (c ∷ cs) = grants_of r t c c.op ++ grants r (step sha t c) cs
