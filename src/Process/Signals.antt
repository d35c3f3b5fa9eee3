-- ===== src/Process/Signals.antt =====
-- Which processes the table of crates/workbench-runtime/src/process.rs signals.
use mathlib.Core.List.{append-nil}
use distributed_workbench.Base.{
  Str, true, Option, none, some, ◌≡◌, refl, arith, Bool-cases, inl, inr, Option-cases, [], Result,
  ok, err, Result-cases,
}
use distributed_workbench.Base.Lists.{All, is_nil}
use distributed_workbench.Base.Map.{Map, lookup}
use distributed_workbench.Process.{ProcessRecord, Seen, refresh, is_running, matched}
use distributed_workbench.Process.Refreshing.{refresh-IsRefreshed}
use distributed_workbench.Process.Table.{
  Group, Os, Outcome, get_process, stop, Start, launch, start, restart, after_kill, stop_refreshed,
  stop_found, guarded, restarted, restart_got, again,
}
use distributed_workbench.Protocol.{RpcError}

-- The group is led by the process that the table has under the id: it was running when last seen,
-- lives, and was born when the record says.
pub record IsOwn (seen : Seen) (records : Map ProcessRecord) (id : Str) (group : Group)
    : Type 0 where
  pub owner : ProcessRecord
  pub listed : lookup id records ≡ some owner
  pub leads : owner.pid ≡ group.leader
  pub ran : is_running owner.state ≡ true
  pub born : matched owner.birth_identity (seen.birth group.leader) ≡ true
  pub lives : seen.is_alive group.leader ≡ true

after_kill-signalled :
    (os : Os) (records : Map ProcessRecord) (id : Str) (r : ProcessRecord)
    (answer : Result RpcError (Unit {0}))
    → (after_kill os records id r answer).signalled ≡ []
after_kill-signalled os records id r (ok tt) = refl
after_kill-signalled os records id r (err e) = refl

refreshed-IsOwn :
    (os : Os) (records : Map ProcessRecord) (id : Str) (r : ProcessRecord)
    → lookup id records ≡ some r
    → All (IsOwn os.seen records id) (stop_refreshed os records id (refresh os.seen r)).signalled
refreshed-IsOwn os records id r found =
    let seen = refresh-IsRefreshed os.seen r in
    elim (Bool-cases (is_running (refresh os.seen r).state)) [
      | inr over ↦ rw over tt
      | inl runs ↦ elim (Bool-cases (refresh os.seen r).identity_verified) [
        | inr unknown ↦ rw (runs) (rw unknown tt)
        | inl known ↦ rw (runs) (
            rw known (
              record {
                owner = r;
                listed = found;
                leads = ground (arith, seen.pid);
                ran = ground (arith, seen.verified);
                born = ground (arith, seen.verified, seen.pid);
                lives = ground (arith, seen.verified, seen.pid);
              },
              tt,
            ))
      ]
    ]

stop_found-IsOwn :
    (os : Os) (records : Map ProcessRecord) (id : Str) (found : Option ProcessRecord)
    → lookup id records ≡ found
    → All (IsOwn os.seen records id) (stop_found os records id found).signalled
stop_found-IsOwn os records id none h = tt
stop_found-IsOwn os records id (some r) h = refreshed-IsOwn os records id r h

-- A stop signals no process group but the one that the process under the id leads, and this one only
-- when the process was running when last seen, lives, and was born when the record says: the group of
-- a pid that another process has taken is not signalled.
pub stop-IsOwn :
    (os : Os) (records : Map ProcessRecord) (id : Str)
    → All (IsOwn os.seen records id) (stop os records id).signalled
unfolding stop
stop-IsOwn os records id = stop_found-IsOwn os records id (lookup id records) refl

launch-signalled :
    (os : Os) (records : Map ProcessRecord) (s : Start) → (launch os records s).signalled ≡ []
unfolding launch
launch-signalled os records s = elim (Result-cases (os.open_log s.log_path)) [
  | inl (e, refused) ↦ rw (refused, launch) refl
  | inr (offset, there) ↦ elim (Result-cases (os.spawn s.cwd s.argv s.env)) [
    | inl (e, refused) ↦ rw (there, launch) (rw (refused, launch) refl)
    | inr (pid, made) ↦ rw (there, launch) (rw (made, launch) refl)
  ]
]

guarded-signalled : (later : Os) (s : Start) (o : Outcome) → (guarded later s o).signalled ≡ []
guarded-signalled later s o = elim (Result-cases o.result) [
  | inl (e, refused) ↦ rw refused (launch-signalled later o.records s)
  | inr (r, got) ↦ elim (Bool-cases (is_running r.state)) [
    | inl runs ↦ rw got (rw runs refl)
    | inr over ↦ rw got (rw over (launch-signalled later o.records s))
  ]
]

start-signalled :
    (first later : Os) (records : Map ProcessRecord) (s : Start)
    → (start first later records s).signalled ≡ []
unfolding start
start-signalled first later records s = elim (Bool-cases (is_nil s.argv)) [
  | inl empty ↦ rw (empty, start) refl
  | inr given ↦ rw (given, start) (guarded-signalled later s (get_process first records s.id))
]

get_process-signalled :
    (os : Os) (records : Map ProcessRecord) (id : Str) → (get_process os records id).signalled ≡ []
unfolding get_process
get_process-signalled os records id = elim (Option-cases (lookup id records)) [
  | inl none_there ↦ rw (none_there, get_process) refl
  | inr (r, found) ↦ rw (found, get_process) refl
]

restarted-IsOwn :
    (P : Group → Type 0) (first later : Os) (r : ProcessRecord) (o : Outcome)
    → All P o.signalled
    → All P (restarted first later r o).signalled
restarted-IsOwn P first later r o h = elim (Result-cases o.result) [
  | inl (e, refused) ↦ rw refused h
  | inr (stopped_one, done) ↦
      rw done (rw (start-signalled first later o.records (again r)) (rw (append-nil o.signalled) h))
]

restart_got-IsOwn :
    (at_stop first later : Os) (id : Str) (o : Outcome)
    → o.signalled ≡ []
    → All (IsOwn at_stop.seen o.records id) (restart_got at_stop first later id o).signalled
restart_got-IsOwn at_stop first later id o quiet_one = elim (Result-cases o.result) [
  | inl (e, refused) ↦ rw refused (rw quiet_one tt)
  | inr (r, got) ↦ elim (Bool-cases r.restartable) [
    | inr fixed ↦ rw got (rw fixed tt)
    | inl free ↦ rw got (
        rw free (
          restarted-IsOwn (IsOwn at_stop.seen o.records id) first later r
            (stop at_stop o.records id) (stop-IsOwn at_stop o.records id)))
  ]
]

-- A restart signals no process group but the one led by the process that the table has under the id
-- after the first refresh, and only while that process lives and was born when the record says.
pub restart-IsOwn :
    (at_get at_stop first later : Os) (records : Map ProcessRecord) (id : Str)
    → All
        (IsOwn at_stop.seen (get_process at_get records id).records id)
        (restart at_get at_stop first later records id).signalled
unfolding restart
restart-IsOwn at_get at_stop first later records id =
    restart_got-IsOwn at_stop first later id (get_process at_get records id)
      (get_process-signalled at_get records id)
