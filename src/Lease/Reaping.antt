-- ===== src/Lease/Reaping.antt =====
-- `reap_expired` against a single pass that sorts the leases by their deadline.
use distributed_workbench.Base.{
  List, Str, ℕ, map, Bool, ◌≢◌, ◌≡◌, ◌∷◌, leb, arith, [], refl, ap, Bool-cases, inl, inr, ◌∙◌, some,
  if◌then◌else◌,
}
use distributed_workbench.Base.Lists.{All, filter}
use distributed_workbench.Base.Map.{remove, lookup, Map, values, remove_absent}
use distributed_workbench.Base.Map.Order.{IsSorted, Above, IsKeyed, lt-ne, Above-lookup}
use distributed_workbench.Lease.{remove_all, reap_expired, LeaseTable, push_removed}
use distributed_workbench.Lease.Invariant.{IsValid, resource_of}
use distributed_workbench.Schema.Lease.{Lease}

abbrev pub is_expired : ℕ → Lease → Bool
is_expired now l = leb l.expires_at now

-- The entries whose lease has not run out.
unfoldable pub live : ℕ → Map Lease → Map Lease
live now [] = []
live now ((k, l) ∷ m) =
    let rest = live now m in if leb l.expires_at now then rest else (k, l) ∷ rest

abbrev resources : ℕ → Map Lease → List Str
resources now m = map resource_of (filter (is_expired now) (values m))

resources-ne :
    (now : ℕ) (j : Str) (m : Map Lease)
    → Above j m
    → IsKeyed resource_of m
    → All (λ r. r ≢ j) (resources now m)
resources-ne now j [] a h = tt
resources-ne now j ((k, l) ∷ m) a h =
    ground (arith, resources-ne now j m a.1 h.1, lt-ne j k a.0, h.0)

-- Entries that are not named stay in front.
remove_all-cons :
    (rs : List Str) (j : Str) (l : Lease) (m : Map Lease)
    → All (λ r. r ≢ j) rs
    → remove_all rs ((j, l) ∷ m) ≡ ((remove_all rs m).0, (j, l) ∷ (remove_all rs m).1)
unfolding remove_all lookup remove
remove_all-cons [] j l m h = refl
remove_all-cons (r ∷ rs) j l m h = ground (arith, h.0, remove_all-cons rs j l (remove r m) h.1)

remove_first : (j : Str) (l : Lease) (m : Map Lease) → Above j m → remove j ((j, l) ∷ m) ≡ m
unfolding remove
remove_first j l m a = ground (arith, remove_absent j m (Above-lookup j m a))

abbrev keep : Str → Lease → List Lease × Map Lease → List Lease × Map Lease
keep k l (removed, m) = (removed, (k, l) ∷ m)

lookup-head : (k : Str) (l : Lease) (m : Map Lease) → lookup k ((k, l) ∷ m) ≡ some l
unfolding lookup
lookup-head k l m = ground arith

remove_all-hit :
    (r k : Str) (l : Lease) (m : Map Lease) (rs : List Str)
    → r ≡ k
    → Above k m
    → remove_all (r ∷ rs) ((k, l) ∷ m) ≡ push_removed (some l) (remove_all rs m)
unfolding remove_all
remove_all-hit r k l m rs e a =
    rw e λ i. push_removed (lookup-head k l m i) (remove_all rs (remove_first k l m a i))

remove_all-resources :
    (now : ℕ) (m : Map Lease)
    → IsSorted m
    → IsKeyed resource_of m
    → remove_all (resources now m) m ≡ (filter (is_expired now) (values m), live now m)
unfolding remove_all live
remove_all-resources now [] s h = refl
remove_all-resources now ((k, l) ∷ m) s h = elim (Bool-cases (leb l.expires_at now)) [
  | inl over ↦
      rw (over, live)
        (remove_all-hit l.resource k l m (resources now m) h.0 s.0
          ∙ ap (push_removed (some l)) (remove_all-resources now m s.1 h.1))
  | inr good ↦
      rw (good, live)
        (remove_all-cons (resources now m) k l m (resources-ne now k m s.0 h.1)
          ∙ ap (keep k l) (remove_all-resources now m s.1 h.1))
]

-- Reaping returns the leases that have run out, in the order of their resources, and leaves all
-- others and every fence as they were.
pub reap_expired_lem :
    (t : LeaseTable) (now : ℕ)
    → IsValid t
    → reap_expired t now
      ≡ (filter (is_expired now) (values t.leases), record t { leases = live now t.leases })
unfolding reap_expired
reap_expired_lem t now v =
    ap (λ ((removed, m) : List Lease × Map Lease). (removed, record t { leases = m }))
      (remove_all-resources now t.leases v.sorted v.keyed)
