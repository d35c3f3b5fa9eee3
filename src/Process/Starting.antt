-- ===== src/Process/Starting.antt =====
-- When the table of crates/workbench-runtime/src/process.rs spawns a process.
use distributed_workbench.Base.{
  ℕ, Str, true, false, Option, none, some, ◌≡◌, refl, arith, Bool-cases, inl, inr, Option-cases, [],
  ◌∷◌, ok, err, Result-cases, ◌⊎◌, ◌≢◌, ◌↔◌, ok-injective, sym, ◌∙◌, List,
}
use distributed_workbench.Base.Lists.{is_nil}
use distributed_workbench.Base.Map.{Map, lookup, insert}
use distributed_workbench.Process.{
  ProcessRecord, refresh, is_running, ProcessState, running, mismatch, stopped, failed,
}
use distributed_workbench.Process.Refreshing.{refresh-IsRefreshed}
use distributed_workbench.Process.Table.{Os, Outcome, get_process, Start, launch, start, guarded}
use distributed_workbench.Protocol.{RpcError}

-- What lets a start pass the process that the table may have under the id: it is not known, has been
-- stopped or has failed, does not live, or was born at another time, or the table cannot be written.
pub data MaySpawn (first : Os) (records : Map ProcessRecord) (id : Str) : Type 0 where
  unknown : lookup id records ≡ none → MaySpawn first records id
  over :
      (r : ProcessRecord)
      → lookup id records ≡ some r
      → r.state ≢ running
      → MaySpawn first records id
  gone :
      (r : ProcessRecord)
      → lookup id records ≡ some r
      → first.seen.is_alive r.pid ≡ false
      → MaySpawn first records id
  another :
      (r : ProcessRecord) (expected actual : Str)
      → lookup id records ≡ some r
      → r.birth_identity ≡ some expected
      → first.seen.birth r.pid ≡ some actual
      → expected ≢ actual
      → MaySpawn first records id
  unwritten :
      (r : ProcessRecord) (e : RpcError)
      → lookup id records ≡ some r
      → first.save (insert id (refresh first.seen r) records) ≡ err e
      → MaySpawn first records id

-- The log can be opened, and the process made.
abbrev pub CanLaunch : Os → Start → Type 0
CanLaunch later s =
    (offset : ℕ) × (pid : ℕ) × (later.open_log s.log_path ≡ ok offset)
    × (later.spawn s.cwd s.argv s.env ≡ ok pid)

-- No record that the call finds runs.
abbrev FoundOver : Outcome → Type 0
FoundOver o = (r : ProcessRecord) → o.result ≡ ok r → is_running r.state ≡ false

launch_iff :
    (later : Os) (records : Map ProcessRecord) (s : Start)
    → ((launch later records s).spawned ≡ s.id ∷ []) ↔ CanLaunch later s
unfolding launch
launch_iff later records s = elim (Result-cases (later.open_log s.log_path)) [
  | inl (e, refused) ↦ (λ h. cc (rw (refused, launch) at h), λ c. cc (c.2, refused))
  | inr (offset, there) ↦ elim (Result-cases (later.spawn s.cwd s.argv s.env)) [
    | inl (e, refused) ↦
        (λ h. cc (rw (refused, launch) at (rw (there, launch) at h)), λ c. cc (c.3, refused))
    | inr (pid, made) ↦
        (λ _. (offset, pid, there, made), λ _. rw (there, launch) (rw (made, launch) refl))
  ]
]

guarded_iff :
    (later : Os) (s : Start) (o : Outcome)
    → ((guarded later s o).spawned ≡ s.id ∷ []) ↔ (CanLaunch later s × FoundOver o)
guarded_iff later s o = elim (Result-cases o.result) [
  | inl (e, refused) ↦ (
    λ h. ((launch_iff later o.records s).0 (rw refused at h), λ r got. cc (refused, got)),
    λ c. rw refused ((launch_iff later o.records s).1 c.0),
  )
  | inr (r, got) ↦ elim (Bool-cases (is_running r.state)) [
    | inl runs ↦ (λ h. cc (rw runs at (rw got at h)), λ c. cc (c.1 r got, runs))
    | inr done ↦ (
      λ h. (
        (launch_iff later o.records s).0 (rw done at (rw got at h)),
        λ q same. cc (ok-injective (sym got ∙ same), done),
      ),
      λ c. rw got (rw done ((launch_iff later o.records s).1 c.0)),
    )
  ]
]

is_running-running : (state : ProcessState) → is_running state ≡ true → state ≡ running
is_running-running running h = refl
is_running-running stopped h = cc
is_running-running failed h = cc

not_running : (state : ProcessState) → state ≢ running → is_running state ≡ false
not_running running h = absurd (h refl)
not_running stopped h = refl
not_running failed h = refl

mismatch-another :
    (a b : Option Str)
    → mismatch a b ≡ true
    → (expected : Str) × (actual : Str) × (a ≡ some expected)
      × (b ≡ some actual)
      × (expected ≢ actual)
mismatch-another none b h = cc
mismatch-another (some e) none h = cc
mismatch-another (some e) (some o) h = (e, o, refl, refl, ground arith)

-- A process that a refresh no longer finds running.
refreshed_over :
    (first : Os) (records : Map ProcessRecord) (id : Str) (r : ProcessRecord)
    → lookup id records ≡ some r
    → is_running (refresh first.seen r).state ≡ false
    → MaySpawn first records id
refreshed_over first records id r found h =
    let now = (refresh-IsRefreshed first.seen r).state in
    elim (Bool-cases (is_running r.state)) [
      | inr done ↦ over r found (λ e. cc (rw e at done))
      | inl runs ↦ elim (Bool-cases (first.seen.is_alive r.pid)) [
        | inr dead ↦ gone r found dead
        | inl alive ↦ elim (Bool-cases (mismatch r.birth_identity (first.seen.birth r.pid))) [
          | inl other ↦
              let (expected, actual, e, o, differ) = mismatch-another _ _ other in
              another r expected actual found e o differ
          | inr same ↦ cc (rw (runs, alive, same) at now, runs, h)
        ]
      ]
    ]

over_refreshed :
    (first : Os) (r : ProcessRecord)
    → (is_running r.state ≡ false)
      ⊎ ((first.seen.is_alive r.pid ≡ false)
          ⊎ (mismatch r.birth_identity (first.seen.birth r.pid) ≡ true))
    → is_running (refresh first.seen r).state ≡ false
over_refreshed first r (inl done) = ground (arith, (refresh-IsRefreshed first.seen r).state)
over_refreshed first r (inr (inl dead)) = ground (arith, (refresh-IsRefreshed first.seen r).state)
over_refreshed first r (inr (inr other)) = ground (arith, (refresh-IsRefreshed first.seen r).state)

found_over :
    (first : Os) (records : Map ProcessRecord) (id : Str) (r : ProcessRecord)
    → lookup id records ≡ some r
    → is_running (refresh first.seen r).state ≡ false
    → FoundOver (get_process first records id)
unfolding get_process
found_over first records id r found done q got =
    elim (Result-cases (first.save (insert id (refresh first.seen r) records))) [
      | inl (e, refused) ↦ cc (rw refused at (rw (found, get_process) at got))
      | inr (u, written) ↦
          rw (sym (ok-injective (rw written at (rw (found, get_process) at got)))) done
    ]

get_process-MaySpawn :
    (first : Os) (records : Map ProcessRecord) (id : Str)
    → FoundOver (get_process first records id) ↔ MaySpawn first records id
unfolding get_process
get_process-MaySpawn first records id = (
  λ h. elim (Option-cases (lookup id records)) [
    | inl missing ↦ unknown missing
    | inr (r, found) ↦ elim (Result-cases (first.save (insert id (refresh first.seen r) records))) [
      | inl (e, refused) ↦ unwritten r e found refused
      | inr (u, written) ↦
          refreshed_over first records id r found
            (h (refresh first.seen r) (rw (found, get_process) (rw written refl)))
    ]
  ],
  elim [
    | unknown missing ↦ λ r got. cc (rw (missing, get_process) at got)
    | over r found done ↦
        found_over first records id r found
          (over_refreshed first r (inl (not_running r.state done)))
    | gone r found dead ↦
        found_over first records id r found (over_refreshed first r (inr (inl dead)))
    | another r expected actual found e o differ ↦
        found_over first records id r found
          (over_refreshed first r (inr (inr (rw (e, o) (ground arith)))))
    | unwritten r e found refused ↦ λ q got. cc (rw refused at (rw (found, get_process) at got))
  ],
)

nil_if : {A : Type 0} (xs : List A) → is_nil xs ≡ true → xs ≡ []
nil_if [] h = refl
nil_if (x ∷ xs) h = cc

not_nil : {A : Type 0} (xs : List A) → is_nil xs ≡ false → xs ≢ []
not_nil [] h = cc
not_nil (x ∷ xs) h = λ e. cc e

-- A start spawns a process exactly when it has arguments, the log can be opened and the process made,
-- and the table has none under the id that runs, lives, and is not known to be born at another time,
-- or cannot be written: then a second process is started beside one that runs.
pub start_iff :
    (first later : Os) (records : Map ProcessRecord) (s : Start)
    → ((start first later records s).spawned ≡ s.id ∷ [])
      ↔ ((s.argv ≢ []) × CanLaunch later s × MaySpawn first records s.id)
unfolding start
start_iff first later records s = elim (Bool-cases (is_nil s.argv)) [
  | inl empty ↦ (λ h. cc (rw (empty, start) at h), λ c. absurd (c.0 (nil_if s.argv empty)))
  | inr given ↦
      let parts = guarded_iff later s (get_process first records s.id) in
      let passes = get_process-MaySpawn first records s.id in
      (
        λ h.
            let (made, done) = parts.0 (rw (given, start) at h) in
            (not_nil s.argv given, made, passes.0 done),
        λ c. rw (given, start) (parts.1 (c.1, passes.1 c.2)),
      )
]
