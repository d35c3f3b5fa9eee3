-- ===== src/Controller/Locks/Rounds.antt =====
-- How many rounds the loop of `render_lock` takes.
use mathlib.Core.List.{append_assoc}
use distributed_workbench.Base.{
  ℕ, zero, suc, ◌+◌, Str, bytes, Bool, false, ◌&&◌, Option, none, some, if◌then◌else◌, ◌≡◌, refl,
  arith, [], ◌∷◌, ◌++◌, Bool-cases, Option-cases, inl, inr, ◌<◌, Result, ok, err, ok_or,
  Result-cases, >>=-eq-ok, ok_or-eq-ok, ◌||◌,
}
use distributed_workbench.Base.Replace.{split_once, behind}
use distributed_workbench.Base.Trim.{is}
use distributed_workbench.Controller.Locks.{find_open, lock_text, expand, render_loop, render_lock}
use distributed_workbench.Json.{Value, string, get}
use distributed_workbench.Protocol.{RpcError, rpc_error}

-- How many closing braces a text has.
abbrev pub braces : Str → ℕ
braces [] = 0
braces (c ∷ s) = if is c b'}' then suc (braces s) else braces s

braces-append : (s t : Str) → braces (s ++ t) ≡ braces s + braces t
braces-append [] t = omega arith
braces-append (c ∷ s) t = ground (arith, braces-append s t)

behind-inv :
    (c : ℕ) (o : Option (Str × Str)) (before rest : Str)
    → behind c o ≡ some (before, rest)
    → (first : Str) × (o ≡ some (first, rest)) × (before ≡ c ∷ first)
behind-inv c none before rest h = cc
behind-inv c (some (first, r)) before rest h = (first, cc, cc)

braces-find_open :
    (s before inside : Str)
    → find_open s ≡ some (before, inside)
    → braces s ≡ braces before + braces inside
unfolding find_open
braces-find_open [] before inside h = cc
braces-find_open (c ∷ []) before inside h = cc
braces-find_open (c ∷ d ∷ s) before inside h = elim (Bool-cases (is c b'$' && is d b'{')) [
  | inl here ↦
      let e = rw here at h in
      let empty : before ≡ [] = cc in let rest : inside ≡ s = cc in rw (empty, rest) (ground arith)
  | inr on ↦
      let parts = behind-inv c (find_open (d ∷ s)) before inside (rw on at h) in
      let ih = braces-find_open (d ∷ s) parts.0 inside parts.1 in rw (parts.2) (ground arith)
]

braces-split_once :
    (s key rest : Str)
    → split_once b'}' s ≡ some (key, rest)
    → (braces key ≡ 0) × (braces s ≡ suc (braces rest))
unfolding split_once
braces-split_once [] key rest h = cc
braces-split_once (c ∷ s) key rest h = elim (Bool-cases (is c b'}')) [
  | inl here ↦
      let e : ◌≡◌ {A = Option (Str × Str)} (some ([], s)) (some (key, rest)) = ground arith in
      let empty : key ≡ [] = cc in let same : rest ≡ s = cc in rw (empty, same) (ground arith)
  | inr on ↦
      let h' : behind c (split_once b'}' s) ≡ some (key, rest) = ground arith in
      let parts = behind-inv c (split_once b'}' s) key rest h' in
      let ih = braces-split_once s parts.0 rest parts.1 in rw (parts.2) (ground arith)
]

-- No field of the input puts a closing brace into the text.
abbrev pub IsBraceless : (Value → Str) → Value → Type 0
IsBraceless to_string input =
    (key : Str) (v : Value) → get input key ≡ some v → braces (lock_text to_string v) ≡ 0

expand-braces :
    (to_string : Value → Str) (template : Str) (input : Value) (before inside next : Str)
    → IsBraceless to_string input
    → expand to_string template input before inside ≡ ok next
    → suc (braces next) ≡ braces before + braces inside
unfolding expand
expand-braces to_string template input before inside next plain h =
    let split =
      >>=-eq-ok
        (ok_or (split_once b'}' inside) (rpc_error (bytes "INVALID_LOCK_TEMPLATE") template)) _ h in
    let parts = braces-split_once inside (split.0.0) (split.0.1) (ok_or-eq-ok _ _ split.1) in
    let found =
      >>=-eq-ok
        (ok_or (get input split.0.0) (
          rpc_error (bytes "INVALID_LOCK_INPUT") (bytes "lock requires input field " ++ split.0.0)))
        _ split.2 in
    let value = plain split.0.0 found.0 (ok_or-eq-ok _ _ found.1) in
    let made : before ++ (lock_text to_string found.0 ++ split.0.1) ≡ next = cc (found.2) in
    rw (← made) (
      omega (
        arith,
        braces-append before (lock_text to_string found.0 ++ split.0.1),
        braces-append (lock_text to_string found.0) split.0.1,
        value,
        parts.1,
      ))

-- The loop has ended, and what it has rendered has no placeholder left.
abbrev pub Ends : Option (Result RpcError Str) → Type 0
Ends none = ⊥
Ends (some (err e)) = Unit {0}
Ends (some (ok text)) = find_open text ≡ none

module _ (to_string : Value → Str) (template : Str) (input : Value) where
  render_loop-Ends :
      (n : ℕ) (rendered : Str)
      → IsBraceless to_string input
      → braces rendered < n
      → Ends (render_loop to_string template input n rendered)
  unfolding render_loop
  render_loop-Ends zero rendered plain h = absurd (omega arith)
  render_loop-Ends (suc n) rendered plain h = elim (Option-cases (find_open rendered)) [
    | inl done ↦ rw (done, render_loop) done
    | inr ((before, inside), found) ↦
        elim (Result-cases (expand to_string template input before inside)) [
          | inl (e, refused) ↦ rw (found, render_loop) (rw (refused, render_loop) tt)
          | inr (next, passed) ↦
              let counted = braces-find_open rendered before inside found in
              let fewer = expand-braces to_string template input before inside next plain passed in
              rw (found, render_loop)
                (rw (passed, render_loop) (render_loop-Ends n next plain (omega arith)))
        ]
  ]

-- Where no field of the input puts a closing brace into the text, one round more than the template has
-- closing braces is enough: the loop ends, with an error or with a text that has no placeholder.
pub render_lock-Ends :
    (to_string : Value → Str) (template : Str) (input : Value) (rounds : ℕ)
    → IsBraceless to_string input
    → braces template < rounds
    → Ends (render_lock to_string rounds template input)
unfolding render_lock
render_lock-Ends to_string template input rounds plain h =
    render_loop-Ends to_string template input rounds template plain h

abbrev pub has_byte : ℕ → Str → Bool
has_byte b [] = false
has_byte b (c ∷ s) = is c b || has_byte b s

abbrev pub placeholder : Str → Str
placeholder key = b'$' ∷ b'{' ∷ (key ++ b'}' ∷ [])

find_open-placeholder :
    (before inside : Str)
    → has_byte b'$' before ≡ false
    → find_open (before ++ b'$' ∷ b'{' ∷ inside) ≡ some (before, inside)
unfolding find_open
find_open-placeholder [] inside h = refl
find_open-placeholder (c ∷ []) inside h = ground arith
find_open-placeholder (c ∷ d ∷ before) inside h =
    ground (arith, find_open-placeholder (d ∷ before) inside)

split_once-placeholder :
    (key rest : Str)
    → has_byte b'}' key ≡ false
    → split_once b'}' (key ++ b'}' ∷ rest) ≡ some (key, rest)
unfolding split_once
split_once-placeholder [] rest h = refl
split_once-placeholder (c ∷ key) rest h = ground (arith, split_once-placeholder key rest)

placeholder-append :
    (key after : Str) → placeholder key ++ after ≡ b'$' ∷ b'{' ∷ (key ++ b'}' ∷ after)
placeholder-append key after = simp append_assoc

module _ (to_string : Value → Str) (template : Str) (input : Value) (before key after : Str) where
  -- A field that holds its own placeholder is put in its own place.
  expand_self :
      has_byte b'}' key ≡ false
      → get input key ≡ some (string (placeholder key))
      → expand to_string template input before (key ++ b'}' ∷ after)
        ≡ ok (before ++ (placeholder key ++ after))
  unfolding expand lock_text
  expand_self plain h = rw (split_once-placeholder key after plain, expand) (rw (h, expand) refl)

  render_loop_self :
      (n : ℕ)
      → has_byte b'$' before ≡ false
      → has_byte b'}' key ≡ false
      → get input key ≡ some (string (placeholder key))
      → render_loop to_string template input n (before ++ b'$' ∷ b'{' ∷ (key ++ b'}' ∷ after))
        ≡ none
  unfolding render_loop
  render_loop_self zero first plain h = refl
  render_loop_self (suc n) first plain h =
      rw (find_open-placeholder before (key ++ b'}' ∷ after) first, render_loop)
        (rw (expand_self plain h, render_loop)
          (rw (placeholder-append key after) (render_loop_self n first plain h)))

-- The loop never ends on a template whose first placeholder has no `$` in front of it and no `}` in its
-- key, and whose input field of that key holds the same placeholder: no number of rounds is enough.
pub render_lock_forever :
    (to_string : Value → Str) (input : Value) (before key after : Str) (rounds : ℕ)
    → has_byte b'$' before ≡ false
    → has_byte b'}' key ≡ false
    → get input key ≡ some (string (placeholder key))
    → render_lock to_string rounds (before ++ (placeholder key ++ after)) input ≡ none
unfolding render_lock
render_lock_forever to_string input before key after rounds first plain h =
    rw (placeholder-append key after) (
      render_loop_self to_string (before ++ b'$' ∷ b'{' ∷ (key ++ b'}' ∷ after)) input before key
        after rounds first plain h)
