-- ===== src/Executor/Revoked.antt =====
-- Histories of the read grants of crates/workbench-runtime/src/executor.rs, in which a revoked grant
-- stays revoked.
use distributed_workbench.Base.{
  ℕ, Str, bytes, false, Option, none, some, ◌==◌, ◌≡◌, refl, arith, List, [], ◌∷◌, Result,
  Bool-cases, Result-cases, inl, inr, ◌∙◌,
}
use distributed_workbench.Base.Lists.{filter}
use distributed_workbench.Executor.{required_str}
use distributed_workbench.Executor.Finding.{
  find_grant-revoke_first, find_grant-revoke_other, find_grant-filter, find_grant-append,
}
use distributed_workbench.Executor.Grants.{
  Files, Access, find_grant, admissible, approve, revoke, revoke_first, revoke_found, revoked_at,
  other_than,
}
use distributed_workbench.Json.{Value}
use distributed_workbench.Protocol.{RpcError}
use distributed_workbench.Schema.Grant.{ReadGrant, FsPath, is_approved}

-- The grant is known, and it is not approved; the executor's roots are these.
pub record IsRevoked (id : Str) (roots : List FsPath) (access : Access) : Type 0 where
  pub same_roots : access.allowed_roots ≡ roots
  pub grant : ReadGrant
  pub found : find_grant id access.read_grants ≡ some grant
  pub over : is_approved grant.state ≡ false

-- A call that changes the grants, with the answer of its write.
pub data Op : Type 0 where
  approving : (g : ReadGrant) → (saved : Result RpcError (Unit {0})) → Op
  revoking : (params : Value) → (now : ℕ) → (saved : Result RpcError (Unit {0})) → Op

module _ (files : Files) where
  unfoldable pub perform : Op → Access → Access
  perform (approving g saved) access = (approve files access g saved).0
  perform (revoking params now saved) access = (revoke access params now saved).0

  unfoldable pub performed : List Op → Access → Access
  performed [] access = access
  performed (o ∷ os) access = performed os (perform o access)

-- No call approves the grant again.
abbrev pub IsOther : Str → Op → Type 0
IsOther id (approving g saved) = (g.id == id) ≡ false
IsOther id (revoking params now saved) = Unit {0}

abbrev pub AreOthers : Str → List Op → Type 0
AreOthers id [] = Unit {0}
AreOthers id (o ∷ os) = IsOther id o × AreOthers id os

approve-IsRevoked :
    {roots : List FsPath} (files : Files) (id : Str) (access : Access) (g : ReadGrant)
    (saved : Result RpcError (Unit {0}))
    → (g.id == id) ≡ false
    → IsRevoked id roots access
    → IsRevoked id roots (approve files access g saved).0
unfolding approve
approve-IsRevoked files id access g saved other r =
    elim (Result-cases (admissible files access g)) [
      | inl (e, refused) ↦ rw (refused, approve) r
      | inr (u, fine) ↦
          rw (fine, approve)
            (record {
              same_roots = r.same_roots;
              grant = r.grant;
              found =
                  find_grant-append id g (filter (other_than g.id) access.read_grants) other
                  ∙ (find_grant-filter g.id id access.read_grants other ∙ r.found);
              over = r.over;
            })
    ]

revoke_first-IsRevoked :
    {roots : List FsPath} (id k : Str) (now : ℕ) (access : Access)
    → IsRevoked id roots access
    → IsRevoked id roots (record access { read_grants = revoke_first k now access.read_grants })
revoke_first-IsRevoked id k now access r = elim (Bool-cases (k == id)) [
  | inr other ↦ record {
    same_roots = r.same_roots;
    grant = r.grant;
    found = find_grant-revoke_other k id now access.read_grants other ∙ r.found;
    over = r.over;
  }
  | inl same ↦
      let e : k ≡ id = ground arith in
      rw e (record {
        same_roots = r.same_roots;
        grant = revoked_at now r.grant;
        found = find_grant-revoke_first id now access.read_grants r.grant r.found;
        over = refl;
      })
]

revoke_found-IsRevoked :
    {roots : List FsPath} (id k : Str) (now : ℕ) (saved : Result RpcError (Unit {0}))
    (access : Access) (found : Option ReadGrant)
    → IsRevoked id roots access
    → IsRevoked id roots (revoke_found access k now saved found).0
revoke_found-IsRevoked id k now saved access none r = r
revoke_found-IsRevoked id k now saved access (some g) r = revoke_first-IsRevoked id k now access r

revoke-IsRevoked :
    {roots : List FsPath} (id : Str) (access : Access) (params : Value) (now : ℕ)
    (saved : Result RpcError (Unit {0}))
    → IsRevoked id roots access
    → IsRevoked id roots (revoke access params now saved).0
unfolding revoke
revoke-IsRevoked id access params now saved r =
    elim (Result-cases (required_str params (bytes "grantId"))) [
      | inl (e, refused) ↦ rw (refused, revoke) r
      | inr (k, named) ↦
          rw (named, revoke)
            (revoke_found-IsRevoked id k now saved access (find_grant k access.read_grants) r)
    ]

perform-IsRevoked :
    {roots : List FsPath} (files : Files) (id : Str) (o : Op) (access : Access)
    → IsOther id o
    → IsRevoked id roots access
    → IsRevoked id roots (perform files o access)
unfolding perform
perform-IsRevoked files id (approving g saved) access other r =
    approve-IsRevoked files id access g saved other r
perform-IsRevoked files id (revoking params now saved) access other r =
    revoke-IsRevoked id access params now saved r

pub performed-IsRevoked :
    {roots : List FsPath} (files : Files) (id : Str) (os : List Op) (access : Access)
    → AreOthers id os
    → IsRevoked id roots access
    → IsRevoked id roots (performed files os access)
unfolding performed
performed-IsRevoked files id [] access other r = r
performed-IsRevoked files id (o ∷ os) access other r =
    performed-IsRevoked files id os (perform files o access) other.1
      (perform-IsRevoked files id o access other.0 r)
