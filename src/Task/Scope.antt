-- ===== src/Task/Scope.antt =====
-- The scoped key tells its four parts apart, as long as the first three hold no NUL byte.
use distributed_workbench.Base.{Str, ◌≢◌, ◌≡◌, ◌∷◌, ◌++◌, ℕ, [], refl}
use distributed_workbench.Base.Lists.{All}
use distributed_workbench.Task.{scoped_idempotency_key}

abbrev pub HasNoNul : Str → Type 0
HasNoNul s = All (λ c. c ≢ 0) s

tail-eq : {a b : ℕ} {s t : Str} → (a ∷ s) ≡ (b ∷ t) → s ≡ t
tail-eq e = cc

head-tail-eq : {a b : ℕ} {s t s' t' : Str} → (a ∷ s) ≡ (b ∷ t) → s' ≡ t' → (a ∷ s') ≡ (b ∷ t')
head-tail-eq e p = cc

split_at_nul :
    (s t r q : Str) → HasNoNul s → HasNoNul t → s ++ (0 ∷ r) ≡ t ++ (0 ∷ q) → (s ≡ t) × (r ≡ q)
split_at_nul [] [] r q hs ht e = (refl, cc)
split_at_nul [] (b ∷ t) r q hs ht e = absurd (ht.0 (cc))
split_at_nul (a ∷ s) [] r q hs ht e = absurd (hs.0 (cc))
split_at_nul (a ∷ s) (b ∷ t) r q hs ht e =
    let (same, rest) = split_at_nul s t r q hs.1 ht.1 (tail-eq e) in (head-tail-eq e same, rest)

-- Two submissions whose session, executor and capability hold no NUL byte share a scoped key only
-- if they agree in all four parts.
pub scoped_idempotency_key-injective :
    (session executor capability key session' executor' capability' key' : Str)
    → HasNoNul session
    → HasNoNul executor
    → HasNoNul capability
    → HasNoNul session'
    → HasNoNul executor'
    → HasNoNul capability'
    → scoped_idempotency_key session executor capability key
      ≡ scoped_idempotency_key session' executor' capability' key'
    → (session ≡ session') × (executor ≡ executor') × (capability ≡ capability') × (key ≡ key')
unfolding scoped_idempotency_key
scoped_idempotency_key-injective s e c k s' e' c' k' hs he hc hs' he' hc' same =
    let (p, rest) = split_at_nul s s' _ _ hs hs' same in
    let (q, rest') = split_at_nul e e' _ _ he he' rest in
    let (r, last) = split_at_nul c c' _ _ hc hc' rest' in (p, q, r, last)

-- With NUL bytes in a part two different submissions can share a key.
shared_key :
    scoped_idempotency_key (97 ∷ 0 ∷ 98 ∷ []) (99 ∷ []) (100 ∷ []) (101 ∷ [])
    ≡ scoped_idempotency_key (97 ∷ []) (98 ∷ []) (99 ∷ []) (100 ∷ 0 ∷ 101 ∷ [])
unfolding scoped_idempotency_key
shared_key = refl
