-- ===== src/Lease/Restart.antt =====
-- A table that is written to disk and read back, with the tokens hidden.
use distributed_workbench.Base.{
  List, Str, ℕ, ◌∷◌, ◌≡◌, ap, [], ◌∙◌, max, Option-cases, inl, arith, inr, some, refl, sym,
  starts_with, ℕ_discrete, ◌==◌, bytes, ◌++◌, verdict, false, Bool-cases,
}
use distributed_workbench.Base.Map.{
  Map, values, lookup, insert, map_values, lookup-map_values, values-map_values,
}
use distributed_workbench.Base.Map.Order.{
  collect, IsSorted, collect-values, insert-lookup, IsKeyed, All-lookup, AllEntries,
  map_values-IsSorted, map_values-IsKeyed,
}
use distributed_workbench.Lease.{
  restore, from_snapshot, snapshot, fence_snapshot, LeaseTable, fence_of, token_matches,
  persistence_snapshot, hide_token, token_digest, validate,
}
use distributed_workbench.Lease.Invariant.{Recorded, IsValid, resource_of}
use distributed_workbench.Schema.Lease.{Lease}

-- Each lease's fence is within the one recorded for its resource.
abbrev AllRecorded : Map ℕ → List Lease → Type 0
AllRecorded fences [] = Unit {0}
AllRecorded fences (l ∷ ls) = Recorded l.fence (lookup l.resource fences) × AllRecorded fences ls

AllRecorded-values :
    (fences : Map ℕ) (m : Map Lease)
    → IsKeyed resource_of m
    → AllEntries (λ k l. Recorded l.fence (lookup k fences)) m
    → AllRecorded fences (values m)
AllRecorded-values fences [] keyed h = tt
AllRecorded-values fences ((k, l) ∷ m) keyed h =
    (rw keyed.0 h.0, AllRecorded-values fences m keyed.1 h.1)

insert-Recorded :
    (l : Lease) (fences : Map ℕ)
    → IsSorted fences
    → Recorded l.fence (lookup l.resource fences)
    → insert l.resource (max (fence_of l.resource fences) l.fence) fences ≡ fences
insert-Recorded l fences s h = elim (Option-cases (lookup l.resource fences)) [
  | inl e ↦ absurd (ground arith)
  | inr (f, e) ↦
      rw e (
        ap (λ n. insert l.resource n fences) (ground arith) ∙ insert-lookup l.resource f fences s e)
]

restore-collect :
    (ls : List Lease) (t : LeaseTable)
    → IsSorted t.fences
    → AllRecorded t.fences ls
    → restore ls t ≡ record t { leases = collect resource_of ls t.leases }
unfolding restore collect
restore-collect [] t s h = refl
restore-collect (l ∷ ls) t s h =
    ap (λ f. restore ls (record { leases = insert l.resource l t.leases; fences = f }))
      (insert-Recorded l t.fences s h.0)
    ∙ restore-collect ls (record t { leases = insert l.resource l t.leases }) s h.1

-- A table is rebuilt from its own snapshot: no lease and no fence is lost or changed.
pub from_snapshot-snapshot :
    (t : LeaseTable) → IsValid t → from_snapshot (snapshot t) (fence_snapshot t) ≡ t
unfolding from_snapshot snapshot fence_snapshot
from_snapshot-snapshot t v =
    restore-collect (values t.leases) (record { leases = []; fences = t.fences }) v.fences_sorted
      (AllRecorded-values t.fences t.leases v.keyed (All-lookup _ t.leases v.sorted v.fenced))
    ∙ ap (λ m. record { leases = m; fences = t.fences })
        (collect-values resource_of t.leases v.keyed v.sorted)

-- What a restart makes of a table: its leases with their tokens hidden.
abbrev pub restart : (Str → Str) → LeaseTable → LeaseTable
restart sha t = from_snapshot (persistence_snapshot sha t) (fence_snapshot t)

abbrev pub hidden : (Str → Str) → LeaseTable → LeaseTable
hidden sha t = record t { leases = map_values (hide_token sha) t.leases }

hide_token-resource : (sha : Str → Str) (l : Lease) → (hide_token sha l).resource ≡ l.resource
unfolding hide_token
hide_token-resource sha l = ground arith

hide_token-fence : (sha : Str → Str) (l : Lease) → (hide_token sha l).fence ≡ l.fence
unfolding hide_token
hide_token-fence sha l = ground arith

hidden-IsValid : (sha : Str → Str) (t : LeaseTable) → IsValid t → IsValid (hidden sha t)
hidden-IsValid sha t v = record {
  sorted = map_values-IsSorted (hide_token sha) t.leases v.sorted;
  fences_sorted = v.fences_sorted;
  keyed =
      map_values-IsKeyed resource_of (hide_token sha) (hide_token-resource sha) t.leases v.keyed;
  fenced = λ k l e. hidden_fence k l e;
}
  where
    hidden_fence :
        (k : Str) (l : Lease)
        → lookup k (hidden sha t).leases ≡ some l
        → Recorded l.fence (lookup k t.fences)
    hidden_fence k l e = elim (Option-cases (lookup k t.leases)) [
      | inl missing ↦ absurd (ground (arith, lookup-map_values (hide_token sha) k t.leases))
      | inr (old, found) ↦ ground (
        arith,
        lookup-map_values (hide_token sha) k t.leases,
        v.fenced k old found,
        hide_token-fence sha old,
      )
    ]

-- A restart keeps every lease and every fence, and changes nothing of a lease but its token.
pub restart_lem : (sha : Str → Str) (t : LeaseTable) → IsValid t → restart sha t ≡ hidden sha t
unfolding persistence_snapshot
restart_lem sha t v =
    ap (λ ls. from_snapshot ls (fence_snapshot t))
      (sym (values-map_values (hide_token sha) t.leases))
    ∙ unfold snapshot fence_snapshot in
      from_snapshot-snapshot (hidden sha t) (hidden-IsValid sha t v)

digest_eq : (a b : Str) → ((bytes "sha256:" ++ a) == (bytes "sha256:" ++ b)) ≡ (a == b)
digest_eq a b = ground arith

matches_digest :
    (sha : Str → Str) (s token : Str)
    → token_matches sha (bytes "sha256:" ++ s) token ≡ (sha token == s)
unfolding token_matches token_digest starts_with ℕ_discrete
matches_digest sha s token = digest_eq (sha token) s

matches_plain :
    (sha : Str → Str) (stored token : Str)
    → starts_with stored (bytes "sha256:") ≡ false
    → token_matches sha stored token ≡ (stored == token)
unfolding token_matches
matches_plain sha stored token h = ground arith

-- A token matches the hidden form of a stored token just as it matched the stored token, unless
-- the two collide under the hash.
token_matches-hide_token :
    (sha : Str → Str) (l : Lease) (token : Str)
    → (sha token ≡ sha l.token → token ≡ l.token)
    → token_matches sha (hide_token sha l).token token ≡ token_matches sha l.token token
unfolding hide_token token_digest
token_matches-hide_token sha l token no_collision =
    elim (Bool-cases (starts_with l.token (bytes "sha256:"))) [
      | inl hashed ↦ rw (hashed, hide_token) refl
      | inr plain ↦
          rw (plain, hide_token)
            (matches_digest sha (sha l.token) token
              ∙ same
              ∙ sym (matches_plain sha l.token token plain))
    ]
  where
    same : (sha token == sha l.token) ≡ (l.token == token)
    same = ground (arith, no_collision, ap sha)

hide_token-owner : (sha : Str → Str) (l : Lease) → (hide_token sha l).owner ≡ l.owner
unfolding hide_token
hide_token-owner sha l = ground arith

hide_token-expires_at : (sha : Str → Str) (l : Lease) → (hide_token sha l).expires_at ≡ l.expires_at
unfolding hide_token
hide_token-expires_at sha l = ground arith

-- A restart changes no verdict of `validate`: a token that validated before validates after, an
-- error stays the same error, for every owner, token and time. The hash may not map the presented
-- token and the stored one to one value unless they are equal.
pub verdict-restart :
    (sha : Str → Str) (t : LeaseTable) (r o token : Str) (now : ℕ)
    → IsValid t
    → ((l : Lease) → lookup r t.leases ≡ some l → sha token ≡ sha l.token → token ≡ l.token)
    → verdict (validate sha (restart sha t) r o token now) ≡ verdict (validate sha t r o token now)
unfolding validate
verdict-restart sha t r o token now v no_collision = elim (Option-cases (lookup r t.leases)) [
  | inl e ↦ rw (restart_lem sha t v, lookup-map_values (hide_token sha), e, validate) (ground arith)
  | inr (l, e) ↦
      rw (restart_lem sha t v, lookup-map_values (hide_token sha), e, validate)
        (ground (
          arith,
          hide_token-owner sha l,
          hide_token-expires_at sha l,
          token_matches-hide_token sha l token (no_collision l e),
        ))
]
