-- ===== src/Controller/Locks.antt =====
-- `render_lock` and `render_capability_authority_resource` of
-- crates/workbench-runtime/src/controller.rs.
pub mod Rounds
use distributed_workbench.Base.{
  ℕ, zero, suc, ◌+◌, Str, bytes, Bool, true, false, ◌&&◌, Option, none, some, if◌then◌else◌, ◌≡◌,
  refl, arith, List, [], ◌∷◌, ◌++◌, leb, Bool-cases, Option-cases, inl, inr, ◌≤◌, ◌<◌, Result, ok,
  err, ok_or, ◌>>=◌, Result-cases, ◌∙◌, ap,
}
use distributed_workbench.Base.Replace.{replace, split_once, behind}
use distributed_workbench.Base.Trim.{is}
use distributed_workbench.Json.{Value, null, boolean, number, string, array, object, get}
use distributed_workbench.Protocol.{RpcError, rpc_error}

-- `rendered.find("${")`, as what stands before the marker and what stands after it.
unfoldable pub find_open : Str → Option (Str × Str)
find_open [] = none
find_open (c ∷ []) = none
find_open (c ∷ d ∷ s) =
    if is c b'$' && is d b'{' then some ([], s) else behind c (find_open (d ∷ s))

-- The serializer of JSON is a parameter.
module _ (to_string : Value → Str) where
  unfoldable pub lock_text : Value → Str
  lock_text (string s) = s
  lock_text null = to_string null
  lock_text (boolean b) = to_string (boolean b)
  lock_text (number n) = to_string (number n)
  lock_text (array vs) = to_string (array vs)
  lock_text (object fs) = to_string (object fs)

  module _ (template : Str) (input : Value) where
    abbrev replaced : (before : Str) → Str × Str → Result RpcError Str
    replaced before (key, behind_it) = do
      value ←
          ok_or (get input key)
            (rpc_error (bytes "INVALID_LOCK_INPUT") (bytes "lock requires input field " ++ key))
      ok (before ++ (lock_text value ++ behind_it))

    -- One round of the loop: the first placeholder gives way to its value.
    unfoldable pub expand : (before inside : Str) → Result RpcError Str
    unfolding split_once
    expand before inside = do
      parts ← ok_or (split_once b'}' inside) (rpc_error (bytes "INVALID_LOCK_TEMPLATE") template)
      replaced before parts

    abbrev round :
        (Str → Option (Result RpcError Str)) → Result RpcError Str → Option (Result RpcError Str)
    round rest (err e) = some (err e)
    round rest (ok next) = rest next

    abbrev turn :
        (Str → Option (Result RpcError Str))
        → (rendered : Str) → Option (Str × Str)
        → Option (Result RpcError Str)
    turn rest rendered none = some (ok rendered)
    turn rest rendered (some (before, inside)) = round rest (expand before inside)

    -- The loop, for so many rounds; `none` where it has not ended by then.
    unfoldable pub render_loop : (rounds : ℕ) → (rendered : Str) → Option (Result RpcError Str)
    unfolding find_open expand
    render_loop zero rendered = none
    render_loop (suc n) rendered = turn (λ next. render_loop n next) rendered (find_open rendered)

  unfoldable pub render_lock :
      (rounds : ℕ) → (template : Str) → (input : Value) → Option (Result RpcError Str)
  unfolding render_loop
  render_lock rounds template input = render_loop template input rounds template

  unfoldable pub render_capability_authority_resource :
      (rounds : ℕ) → (template executor_id : Str) → Value → Option (Result RpcError Str)
  unfolding render_lock replace
  render_capability_authority_resource rounds template executor_id input =
      render_lock rounds (replace (bytes "${executorId}") executor_id template) input
