-- ===== src/Tests/Executors.antt =====
-- The executor's rules on concrete calls.
use distributed_workbench.Base.{
  ℕ, ◌≤◌, Str, bytes, Option, some, ◌≡◌, refl, arith, List, [], ◌∷◌, ok, Str-discrete, ℕ_discrete,
  starts_with, str_lt, inl,
}
use distributed_workbench.Base.Map.{Map, lookup, insert}
use distributed_workbench.Executor.{workspace_driver, required_str}
use distributed_workbench.Executor.Capacity.{
  Running, Turn, coming, ending, turns, IsCounted, turns-IsCounted,
}
use distributed_workbench.Executor.Fences.{
  FenceRecord, Enforced, key_of, enforce_authority, enforce_contract, enforce_fences, check_all,
  check_one, check_workspace, record_all,
}
use distributed_workbench.Executor.Keeping.{Call, enforce, enforced}
use distributed_workbench.Executor.Rendering.{
  Contract, canonical_name, expected_resources, render_all, distinct, supplied_resources, covers,
}
use distributed_workbench.Executor.Rising.{fence_at}
use distributed_workbench.Executor.Stale.{Presents, accepted-AtLeast}
use distributed_workbench.Json.{
  Value, null, number, string, array, object, nil, cons, end, field, unsigned, get, get_field,
  as_str, as_u64,
}
use distributed_workbench.Json.Objects.{as_array}

abbrev idle : Running
idle = record {
  capacity = record {
    mutating_pool = record { maximum = 1; active = 0 };
    readonly_pool = record { maximum = 2; active = 0 };
    probes = record { maximum = 1; active = 0 };
  };
  operations = [];
}

-- The second command finds no place until the first has ended.
abbrev commands : List Turn
commands =
    coming (bytes "command.run") null
    ∷ coming (bytes "command.run") null
    ∷ coming (bytes "logs.read") null
    ∷ ending 1
    ∷ coming (bytes "command.run") null
    ∷ []

turns-IsCounted_example : IsCounted (turns commands idle)
turns-IsCounted_example = turns-IsCounted commands idle (ground arith)

abbrev driver : ℕ → Value
driver fence = object (
    field (bytes "controllerId") (string (bytes "ctl")) (
      field (bytes "fence") (number (unsigned fence))
        (field (bytes "resource") (string (bytes "workspace:w1")) end)))

abbrev writing : ℕ → Call
writing fence = record {
  action = bytes "fs.write";
  params = object (
      field (bytes "_authority") (array (cons (driver fence) nil))
        (field (bytes "_workspaceSessionId") (string (bytes "w1")) end));
  clock = λ n. 1000;
  save = λ records. ok tt;
}

abbrev catalog : Str → Option Contract
catalog name = some (record { authority = workspace_driver; locks = [] })

abbrev shown : Value → Str
shown v = bytes "0"

abbrev fences : ℕ → Map FenceRecord
fences fence =
    (bytes "ctl/workspace:w1", record { controller_id = bytes "ctl"; fence = fence }) ∷ []

abbrev after : Enforced
after = record { records = fences 7; result = ok tt }

written_twice :
    enforce shown 1 catalog
      (bytes "ex")
      (enforced shown 1 catalog (bytes "ex") (writing 6 ∷ []) (fences 5))
      (writing 7)
    ≡ some after
unfolding enforce enforced enforce_authority enforce_contract enforce_fences check_all check_one
    check_workspace record_all canonical_name expected_resources render_all distinct
    supplied_resources covers required_str get get_field as_str as_u64 as_array lookup insert
    starts_with str_lt Str-discrete ℕ_discrete
written_twice = refl

driver-Presents : Presents (writing 7).params (bytes "ctl") (bytes "workspace:w1") 7
unfolding required_str get get_field as_str as_u64 as_array starts_with Str-discrete ℕ_discrete
driver-Presents = record {
  authorities = cons (driver 7) nil;
  given = refl;
  authority = driver 7;
  among = inl refl;
  named = refl;
  over = refl;
  workspace = refl;
  fenced = refl;
}

accepted-AtLeast_example : fence_at (key_of (bytes "ctl") (bytes "workspace:w1")) (fences 5) ≤ 7
accepted-AtLeast_example =
    accepted-AtLeast shown 1 catalog (bytes "ex") (fences 5) (writing 6 ∷ []) (writing 7) [] after
      (bytes "ctl") (bytes "workspace:w1") 7 refl written_twice refl driver-Presents
