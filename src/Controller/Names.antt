-- ===== src/Controller/Names.antt =====
-- The resources that a command names.
use distributed_workbench.Base.{
  ◌≤◌, ◌<◌, ◌≡◌, Str, bytes, List, ◌++◌, Result, ok, guard, ok_or, not, ◌||◌, leb, false, refl,
  arith, subst, ap, suc, Option, none, some, >>=-eq-ok, refused_not_ok,
}
use distributed_workbench.Base.Lists.{length, All}
use distributed_workbench.Controller.{
  command_resource, command_names, command_resources, resources_of, has_control, count,
}
use distributed_workbench.Json.{
  Value, Values, null, boolean, number, string, array, object, nil, cons, get, as_str,
}

-- A name of 1 to 512 bytes without control characters, behind `command:`.
abbrev pub IsNamed : Str → Type 0
IsNamed s =
    (name : Str) × (s ≡ bytes "command:" ++ name)
    × (0 < length name)
    × (length name ≤ 512)
    × (has_control name ≡ false)

command_resource-IsNamed : (v : Value) (s : Str) → command_resource v ≡ ok s → IsNamed s
unfolding command_resource
command_resource-IsNamed v s h =
    let (name, text, rest) = >>=-eq-ok (ok_or (as_str v) _) _ h in
    let (u, tested, last) =
      >>=-eq-ok
        (guard (not (leb (length name) 0 || (not (leb (length name) 512) || has_control name))) _) _
        rest in
    (
      name,
      ground (arith, last),
      ground (arith, tested),
      ground (arith, tested),
      ground (arith, tested),
    )

ok-injective : {E A : Type 0} {a b : A} → ◌≡◌ {A = Result E A} (ok a) (ok b) → a ≡ b
ok-injective h = cc

command_names-AreNamed :
    (vs : Values) (names : List Str)
    → command_names vs ≡ ok names
    → All IsNamed names × (length names ≡ count vs)
unfolding command_names
command_names-AreNamed nil names h =
    subst (λ ns. All IsNamed ns × (length ns ≡ 0)) (ok-injective h) (tt, refl)
command_names-AreNamed (cons v vs) names h =
    let (name, first, h₁) = >>=-eq-ok (command_resource v) _ h in
    let (rest, others, h₂) = >>=-eq-ok (command_names vs) _ h₁ in
    let (all, counted) = command_names-AreNamed vs rest others in
    subst (λ ns. All IsNamed ns × (length ns ≡ suc (count vs))) (ok-injective h₂)
      ((command_resource-IsNamed v name first, all), ap suc counted)

resources_of-AreNamed :
    (v : Option Value) (names : List Str)
    → resources_of v ≡ ok names
    → All IsNamed names × (length names ≤ 32)
resources_of-AreNamed none names h =
    subst (λ ns. All IsNamed ns × (length ns ≤ 32)) (ok-injective h) (tt, omega arith)
resources_of-AreNamed (some (array vs)) names h =
    let (u, tested, rest) = >>=-eq-ok (guard (leb (count vs) 32) _) _ h in
    let (all, counted) = command_names-AreNamed vs names rest in
    (all, ground (arith, counted, tested))
resources_of-AreNamed (some null) names h = absurd (refused_not_ok h)
resources_of-AreNamed (some (boolean b)) names h = absurd (refused_not_ok h)
resources_of-AreNamed (some (number n)) names h = absurd (refused_not_ok h)
resources_of-AreNamed (some (string s)) names h = absurd (refused_not_ok h)
resources_of-AreNamed (some (object fs)) names h = absurd (refused_not_ok h)

-- What is accepted as the resources of a command are at most 32 names, each of 1 to 512 bytes
-- without control characters behind `command:`.
pub command_resources-AreNamed :
    (input : Value) (names : List Str)
    → command_resources input ≡ ok names
    → All IsNamed names × (length names ≤ 32)
unfolding command_resources
command_resources-AreNamed input names h =
    resources_of-AreNamed (get input (bytes "resources")) names h
