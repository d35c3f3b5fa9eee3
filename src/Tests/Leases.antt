-- ===== src/Tests/Leases.antt =====
-- The lease table on concrete calls.
use distributed_workbench.Base.{
  ◌≡◌, ◌<◌, ◌↔◌, verdict, Str, List, [], ◌∷◌, ℕ, subst, some, none, bytes, refl, ok, err, arith,
  Str-discrete, ℕ_discrete, add_u64, saturating_add, starts_with,
}
use distributed_workbench.Base.Lists.{length}
use distributed_workbench.Base.Map.{lookup, insert, remove}
use distributed_workbench.Lease.{
  validate, take_handoff, request_handoff, reap_expired, from_snapshot, acquire, LeaseTable,
  token_matches, snapshot, restore, refuse_live, put, default_table, active, public, fence_of,
  fence_snapshot, remove_all,
}
use distributed_workbench.Lease.Calls.{
  grants, grants_of, run, perform, Call, Op, acquires, requests, takes, reaps,
}
use distributed_workbench.Lease.Fencing.{HasRoom, Rises, grants-Rises}
use distributed_workbench.Lease.Holding.{HeldBy, acquire-refuses, take_handoff-HeldBy}
use distributed_workbench.Lease.Invariant.{IsValid, run-IsValid, from_snapshot-IsValid}
use distributed_workbench.Lease.Restart.{restart, verdict-restart, from_snapshot-snapshot}
use distributed_workbench.Schema.Lease.{Lease, resource}

abbrev no_hash : Str → Str
no_hash s = s

abbrev repo : Str
repo = bytes "git:repo"

abbrev alice : Str
alice = bytes "alice"

abbrev bob : Str
bob = bytes "bob"

-- Alice's lease of the repository from 1000 to 61000.
abbrev first_lease : Lease
first_lease = record {
  id = bytes "lease_a";
  kind = resource;
  resource = repo;
  owner = alice;
  token = bytes "token_b";
  fence = 1;
  acquired_at = 1000;
  updated_at = 1000;
  expires_at = 61000;
  handoff_to = none;
}

abbrev held : LeaseTable
held = record { leases = (repo, first_lease) ∷ []; fences = (repo, 1) ∷ [] }

first_acquired :
    acquire default_table resource repo alice 60000 1000 (bytes "a") (bytes "b")
    ≡ ok (first_lease, held)
unfolding acquire refuse_live lookup insert add_u64 saturating_add
first_acquired = refl

default-IsValid : IsValid default_table
default-IsValid = unfold from_snapshot restore in from_snapshot-IsValid [] [] tt

held-restored : from_snapshot (first_lease ∷ []) [] ≡ held
unfolding from_snapshot restore lookup insert
held-restored = refl

held-IsValid : IsValid held
held-IsValid = subst IsValid held-restored (from_snapshot-IsValid (first_lease ∷ []) [] tt)

-- Bob asks for the lease, and has it after a second.
abbrev requested_lease : Lease
requested_lease = record first_lease { handoff_to = some bob; updated_at = 2000 }

abbrev requested : LeaseTable
requested = put held repo requested_lease

request_granted : request_handoff held repo bob 2000 2000 ≡ ok (public requested_lease, requested)
unfolding request_handoff lookup insert Str-discrete ℕ_discrete
request_granted = refl

abbrev taken_lease : Lease
taken_lease = record first_lease {
  owner = bob;
  token = bytes "token_c";
  fence = 2;
  acquired_at = 3000;
  updated_at = 3000;
  expires_at = 63000;
}

abbrev taken : LeaseTable
taken = record {
  leases = insert repo taken_lease requested.leases;
  fences = insert repo 2 requested.fences;
}

taken_over : take_handoff requested repo bob 60000 3000 (bytes "c") ≡ ok (taken_lease, taken)
unfolding take_handoff lookup insert add_u64 saturating_add Str-discrete ℕ_discrete
taken_over = refl

abbrev call : Op → ℕ → Call
call op at = record { op = op; checked = at; now = at; id_uuid = bytes "i"; token_uuid = bytes "t" }

abbrev history : List Call
history =
    call (acquires resource repo alice 60000) 1000
    ∷ call (acquires resource repo bob 60000) 2000
    ∷ call (requests repo bob) 3000
    ∷ call (takes repo bob 60000) 4000
    ∷ call reaps 64000
    ∷ call (acquires resource repo alice 60000) 65000
    ∷ []

-- Three grants, the refused `acquire` granting nothing.
granted_fences : grants no_hash repo default_table history ≡ 1 ∷ 2 ∷ 3 ∷ []
unfolding grants perform grants_of acquire refuse_live lookup insert add_u64 saturating_add
    request_handoff take_handoff reap_expired remove_all remove Str-discrete ℕ_discrete
granted_fences = refl

default-HasRoom : HasRoom (length history) default_table
default-HasRoom k = unfold lookup in omega arith

grants-Rises_example :
    Rises 0
      (grants no_hash repo default_table history)
      (fence_of repo (run no_hash default_table history).fences)
unfolding lookup
grants-Rises_example =
    grants-Rises no_hash repo default_table history default-IsValid default-HasRoom

acquire-refuses_example :
    (acquire held resource repo bob 60000 2000 (bytes "i") (bytes "t") ≡ err (active alice 61000))
    ↔ ((l : Lease) × (lookup repo held.leases ≡ some l)
        × (2000 < l.expires_at)
        × (active alice 61000 ≡ active l.owner l.expires_at))
acquire-refuses_example =
    acquire-refuses held resource repo bob 60000 2000 (bytes "i") (bytes "t") (active alice 61000)

first_validates : validate no_hash held repo alice (bytes "token_b") 2000 ≡ ok first_lease
unfolding validate token_matches starts_with lookup Str-discrete ℕ_discrete
first_validates = refl

take_handoff-HeldBy_example :
    (bob ≡ bob) × (bytes "token_c" ≡ bytes "token_c") × HeldBy no_hash taken repo taken_lease
take_handoff-HeldBy_example =
    take_handoff-HeldBy no_hash requested taken repo bob 60000 3000 (bytes "c") taken_lease
      taken_over

verdict-restart_example :
    verdict (validate no_hash (restart no_hash held) repo alice (bytes "token_b") 2000)
    ≡ verdict (validate no_hash held repo alice (bytes "token_b") 2000)
verdict-restart_example =
    verdict-restart no_hash held repo alice (bytes "token_b") 2000 held-IsValid
      (λ l found same. same)

from_snapshot-snapshot_example : from_snapshot (snapshot held) (fence_snapshot held) ≡ held
from_snapshot-snapshot_example = from_snapshot-snapshot held held-IsValid

run-IsValid_example : IsValid (run no_hash held history)
run-IsValid_example = run-IsValid no_hash held history held-IsValid
