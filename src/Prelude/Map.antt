-- ===== src/Prelude/Map.antt =====
-- Go's maps from strings, as lists of entries with different names.
use Prim.Native.String.{String}
use mathlib.Core.Path.{◌≡◌, refl}
use mathlib.Core.Option.{Option, none, some}
use mathlib.Core.List.{List, [], ◌∷◌}
use native.Mathlib.Omega.{arith}
use text.Mathlib.Text.{◌==◌ as str_eq}
use text.Mathlib.TextEquality.{eq_iff}
use go_payment.Prelude.Tests.{if◌then◌else◌}

-- m[key] = value
unfoldable pub assign : {A : Type 0} → String → A → List (String × A) → List (String × A)
assign key value [] = (key, value) ∷ []
assign key value (x ∷ xs) =
    let rest = assign key value xs in if str_eq x.0 key then (key, value) ∷ xs else x ∷ rest

-- v, ok := m[key]
unfoldable pub lookup : {A : Type 0} → String → List (String × A) → Option A
lookup key [] = none
lookup key (x ∷ xs) = if str_eq x.0 key then some x.1 else lookup key xs

pub lookup-assign :
    {A : Type 0} (key j : String) (v : A) (m : List (String × A))
    → lookup key (assign j v m) ≡ (if str_eq j key then some v else lookup key m)
unfolding lookup assign
lookup-assign key j v [] = refl
lookup-assign key j v ((k, a) ∷ m) =
    ground (arith, lookup-assign key j v m, eq_iff k j, eq_iff j key, eq_iff k key)

-- Each name stands once.
abbrev pub Unique : {A : Type 0} → List (String × A) → Type 0
Unique [] = Unit
Unique (x ∷ xs) = (lookup x.0 xs ≡ none) × Unique xs

-- The order of a `range` over a map: each of its entries once.
pub record IsRange {A : Type 0} (order m : List (String × A)) : Type 0 where
  pub unique : Unique order
  pub same : (name : String) → lookup name order ≡ lookup name m
