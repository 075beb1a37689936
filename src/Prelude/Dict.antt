-- ===== src/Prelude/Dict.antt =====
-- String-keyed maps as association lists.
use Prim.Native.String.{String}
use text.Mathlib.Text.{◌==◌ as str_eq}
use text.Mathlib.TextEquality.{eq_iff}
use text.Mathlib.TextPositions.{eq_refl}
use mathlib.Core.Path.{◌≡◌}
use native.Mathlib.Omega.{arith}
use mathlib.Core.Option.{Option, none, some}
use mathlib.Core.List.{List, [], ◌∷◌}
use cubesat_fsw_gnc.Prelude.Tests.{if◌then◌else◌}

-- A map from strings.
abbrev pub Dict {ℓ} : Type ℓ → Type ℓ
Dict V = List (String × V)

-- The entry of a key, as `find` gives it.
unfoldable pub lookup {ℓ} : {V : Type ℓ} → String → Dict V → Option V
lookup key [] = none
lookup key ((name, value) ∷ rest) = if str_eq key name then some value else lookup key rest

-- Replaces the entry of a key, or adds one, as `entries[key] = value` does.
unfoldable pub insert {ℓ} : {V : Type ℓ} → String → V → Dict V → Dict V
insert key value [] = (key, value) ∷ []
insert key value ((name, old) ∷ rest) =
    if str_eq key name then (name, value) ∷ rest else (name, old) ∷ insert key value rest

-- What a key has after an insertion.
pub lookup-insert {ℓ} :
    {V : Type ℓ} (key asked : String) (value : V) (entries : Dict V)
    → lookup asked (insert key value entries)
      ≡ (if str_eq key asked then some value else lookup asked entries)
unfolding lookup insert
lookup-insert key asked value [] = ground (arith, eq_iff key asked, eq_iff asked key)
lookup-insert key asked value ((name, old) ∷ rest) = ground (
  arith,
  eq_iff key name,
  eq_iff asked name,
  eq_iff key asked,
  eq_iff asked key,
  lookup-insert key asked value rest,
)

pub lookup-insert_self {ℓ} :
    {V : Type ℓ} (key : String) (value : V) (entries : Dict V)
    → lookup key (insert key value entries) ≡ some value
lookup-insert_self key value entries = rw (lookup-insert key key value entries, eq_refl key)
