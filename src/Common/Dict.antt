-- ===== src/Common/Dict.antt =====
-- Go's `map[string]V` as an association list with one entry to a key, in insertion order. The code
-- ranges over one map only, and its order does not matter there.
use service_discover.Common.Tests.{◌is◌, is-cases, if◌then◌else◌}
use service_discover.Common.Lists.{length}
use Prim.Native.Nat.{suc}
use Prim.Native.String.{String}
use mathlib.Core.Path.{◌≡◌, refl, ap, ◌∙◌}
use mathlib.Core.Logic.{◌≢◌, inl, inr}
use mathlib.Core.Option.{Option, none, some}
use mathlib.Core.List.{List, [], ◌∷◌}
use native.Mathlib.Omega.{arith}
use text.Mathlib.TextEquality.{eq_iff}

-- `map[string]V`
abbrev pub Map : Type 0 → Type 0
Map V = List (String × V)

module _ {V : Type 0} where
  -- `v, ok := m[name]`
  unfoldable pub lookup : (name : String) → Map V → Option V
  lookup name [] = none
  lookup name (entry ∷ rest) = if entry.0 is name then some entry.1 else lookup name rest

  -- `m[name] = value`
  unfoldable pub insert : (name : String) → (value : V) → Map V → Map V
  insert name value [] = (name, value) ∷ []
  insert name value (entry ∷ rest) =
      if entry.0 is name then (entry.0, value) ∷ rest else entry ∷ insert name value rest

  pub lookup-insert :
      (name other : String) (value : V) (entries : Map V)
      → lookup other (insert name value entries)
        ≡ (if name is other then some value else lookup other entries)
  unfolding insert lookup
  lookup-insert name other value [] = refl
  lookup-insert name other value (entry ∷ rest) = ground (
    arith,
    lookup-insert name other value rest,
    eq_iff entry.0 other,
    eq_iff entry.0 name,
    eq_iff name other,
  )

  pub lookup-insert_other :
      (name other : String) (value : V) (entries : Map V)
      → name ≢ other
      → lookup other (insert name value entries) ≡ lookup other entries
  lookup-insert_other name other value entries n = elim (is-cases name other) [
    | inl (e, _) ↦ absurd (n e)
    | inr (_, t) ↦
        lookup-insert name other value entries
        ∙ ap (λ b. if b then some value else lookup other entries) t
  ]

  pub length-insert_fresh :
      (name : String) (value : V) (entries : Map V)
      → lookup name entries ≡ none
      → length (insert name value entries) ≡ suc (length entries)
  unfolding insert lookup
  length-insert_fresh name value [] missing = refl
  length-insert_fresh name value (entry ∷ rest) missing =
      ground (arith, length-insert_fresh name value rest)
