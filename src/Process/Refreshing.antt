-- ===== src/Process/Refreshing.antt =====
-- What a refresh keeps of a process record, and what it finds out.
use distributed_workbench.Base.{
  Str, true, false, not, Option, none, some, ◌≡◌, arith, ◌&&◌, if◌then◌else◌, ◌||◌,
}
use distributed_workbench.Process.{
  failed, ProcessRecord, Seen, refresh, recheck_tunnel, note_log, probe_pending, is_running,
  matched, mismatch,
}

-- Two records of one process: the same identity, in the same state.
pub record AreSame (a b : ProcessRecord) : Type 0 where
  pub id : b.id ≡ a.id
  pub pid : b.pid ≡ a.pid
  pub birth : b.birth_identity ≡ a.birth_identity
  pub state : b.state ≡ a.state
  pub verified : b.identity_verified ≡ a.identity_verified

same_trans : {a b c : ProcessRecord} → AreSame a b → AreSame b c → AreSame a c
same_trans h k = record {
  id = cc (h.id, k.id);
  pid = cc (h.pid, k.pid);
  birth = cc (h.birth, k.birth);
  state = cc (h.state, k.state);
  verified = cc (h.verified, k.verified);
}

recheck_same : (seen : Seen) (r : ProcessRecord) → AreSame r (recheck_tunnel seen r)
unfolding recheck_tunnel
recheck_same seen r = ground arith

note_log_same : (seen : Seen) (r : ProcessRecord) → AreSame r (note_log seen r)
unfolding note_log
note_log_same seen r = ground arith

probe_same : (seen : Seen) (r : ProcessRecord) → AreSame r (probe_pending seen r)
unfolding probe_pending
probe_same seen r = ground arith

-- A process is verified exactly when it was running, lives, and was born when the record says; it has
-- failed when it was running and does not live or was born at another time; no other state changes.
pub record IsRefreshed (seen : Seen) (a b : ProcessRecord) : Type 0 where
  pub id : b.id ≡ a.id
  pub pid : b.pid ≡ a.pid
  pub birth : b.birth_identity ≡ a.birth_identity
  pub verified :
      b.identity_verified
      ≡ (is_running a.state && (seen.is_alive a.pid && matched a.birth_identity (seen.birth a.pid)))
  pub state : b.state ≡ (
      if is_running a.state
        && (not (seen.is_alive a.pid) || mismatch a.birth_identity (seen.birth a.pid))
      then failed
      else a.state)

matched-mismatch : (e o : Option Str) → matched e o ≡ true → mismatch e o ≡ false
matched-mismatch none o h = cc
matched-mismatch (some e) none h = cc
matched-mismatch (some e) (some o) h = ground arith

-- What a refresh finds out about any record, with any answers of the system.
pub refresh-IsRefreshed : (seen : Seen) (r : ProcessRecord) → IsRefreshed seen r (refresh seen r)
unfolding refresh
refresh-IsRefreshed seen r =
    let base = record r { observed_at = some (seen.clock 0); identity_verified = true } in
    let one = recheck_same seen base in
    let two = note_log_same seen (recheck_tunnel seen base) in
    let three = probe_same seen (note_log seen (recheck_tunnel seen base)) in
    let fits = matched-mismatch r.birth_identity (seen.birth r.pid) in
    ground (arith, same_trans (same_trans one two) three)
