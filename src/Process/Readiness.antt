-- ===== src/Process/Readiness.antt =====
-- `readiness_once` of crates/workbench-runtime/src/process.rs.
use distributed_workbench.Base.{
  ℕ, Str, bytes, Bool, true, false, ◌||◌, Option, none, some, ◌==◌, if◌then◌else◌, List, [], ◌∷◌,
  ◌++◌, Result, ok, err, ok_or, ◌>>=◌, contains, map_err,
}
use distributed_workbench.Base.Lists.{drop}
use distributed_workbench.Base.Lines.{strip_first, strip_last, lines}
use distributed_workbench.Json.{
  Value, Values, Fields, null, boolean, number, string, array, object, nil, cons, end, field, get,
  as_u64,
}
use distributed_workbench.Protocol.{RpcError, rpc_error}
use distributed_workbench.Resources.{decimal, text_of}

-- What the system answers during a probe: whether one of an address's sockets accepts, or why the
-- address has none; which paths exist; the bytes of a file; and `String::from_utf8_lossy`.
pub record Probed : Type 0 where
  pub connects : Str → Result Str Bool
  pub exists : Str → Bool
  pub read : Str → Option Str
  pub from_utf8_lossy : Str → Str

abbrev pub invalid_readiness : Str → RpcError
invalid_readiness text = rpc_error (bytes "INVALID_READINESS") text

abbrev text_or : Option Str → Str → Str
text_or none d = d
text_or (some s) d = s

abbrev u64_of : Option Value → Option ℕ
u64_of none = none
u64_of (some v) = as_u64 v

unfoldable pub readiness_type : Value → Str
readiness_type spec = text_or (text_of (get spec (bytes "type"))) []

abbrev any_line : Str → List Str → Bool
any_line exact [] = false
any_line exact (l ∷ ls) = l == exact || any_line exact ls

-- A pattern between `^` and `$` is a whole line.
abbrev exact_line : Option Str → Option Str
exact_line none = none
exact_line (some rest) = strip_last b'$' rest

abbrev matches_log : Option Str → (pattern content : Str) → Bool
matches_log none pattern content = contains content pattern
matches_log (some exact) pattern content = any_line exact (lines content)

module _ (probed : Probed) (log_path : Str) (log_start_offset : ℕ) where
  abbrev in_log : (pattern : Str) → Option Str → Bool
  in_log pattern none = false
  in_log pattern (some content) =
      matches_log (exact_line (strip_first b'^' pattern)) pattern
        (probed.from_utf8_lossy (drop log_start_offset content))

  unfoldable pub tcp_once : Value → Result RpcError Bool
  tcp_once spec = do
    port ←
        ok_or (u64_of (get spec (bytes "port"))) (invalid_readiness (bytes "tcp port is required"))
    let host = text_or (text_of (get spec (bytes "host"))) (bytes "127.0.0.1")
    map_err invalid_readiness (probed.connects (host ++ (bytes ":" ++ decimal 20 port)))

  abbrev file_there : Option Str → Bool
  file_there none = false
  file_there (some path) = probed.exists path

  unfoldable pub log_once : Value → Result RpcError Bool
  unfolding drop strip_first strip_last lines
  log_once spec = do
    pattern ←
        ok_or (text_of (get spec (bytes "pattern")))
          (invalid_readiness (bytes "log pattern is required"))
    ok (in_log pattern (probed.read log_path))

  -- Every type but `all`.
  unfoldable pub single_once : Value → Result RpcError Bool
  unfolding tcp_once log_once readiness_type
  single_once spec =
      if readiness_type spec == bytes "tcp"
      then tcp_once spec
      else if readiness_type spec == bytes "file"
      then ok (file_there (text_of (get spec (bytes "path"))))
      else if readiness_type spec == bytes "log"
      then log_once spec
      else err (invalid_readiness (bytes "unsupported readiness type: " ++ readiness_type spec))

  -- The first probe that is not ready, or that fails, decides.
  abbrev and_then : Result RpcError Bool → Result RpcError Bool → Result RpcError Bool
  and_then (ok true) rest = rest
  and_then (ok false) rest = ok false
  and_then (err e) rest = err e

  unfoldable mutual
    unfolding single_once

    pub readiness_once : Value → Result RpcError Bool
    readiness_once (object fs) = elim (readiness_type (object fs) == bytes "all") [
      | true ↦ all_once fs
      | false ↦ single_once (object fs)
    ]
    readiness_once null = single_once null
    readiness_once (boolean b) = single_once (boolean b)
    readiness_once (number n) = single_once (number n)
    readiness_once (string s) = single_once (string s)
    readiness_once (array vs) = single_once (array vs)

    -- The field `probes`.
    pub all_once : Fields → Result RpcError Bool
    all_once end = err (invalid_readiness (bytes "all probes are required"))
    all_once (field k v fs) = elim (k == bytes "probes") [
      | true ↦ listed_once v
      | false ↦ all_once fs
    ]

    pub listed_once : Value → Result RpcError Bool
    listed_once (array vs) = some_once vs
    listed_once null = err (invalid_readiness (bytes "all probes are required"))
    listed_once (boolean b) = err (invalid_readiness (bytes "all probes are required"))
    listed_once (number n) = err (invalid_readiness (bytes "all probes are required"))
    listed_once (string s) = err (invalid_readiness (bytes "all probes are required"))
    listed_once (object fs) = err (invalid_readiness (bytes "all probes are required"))

    pub some_once : Values → Result RpcError Bool
    some_once nil = err (invalid_readiness (bytes "all requires at least one probe"))
    some_once (cons v vs) = and_then (readiness_once v) (each_once vs)

    pub each_once : Values → Result RpcError Bool
    each_once nil = ok true
    each_once (cons v vs) = and_then (readiness_once v) (each_once vs)
