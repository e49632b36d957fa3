-- ===== src/Base/Assoc.antt =====
-- Go maps with string keys, as association lists: the first entry of a key counts.
use Prim.Native.String.{String}
use mathlib.Core.Path.{◌≡◌, refl}
use mathlib.Core.Option.{Option, none, some}
use mathlib.Core.List.{List, [], ◌∷◌}
use native.Mathlib.Omega.{arith}
use text.Mathlib.Text.{◌==◌}
use text.Mathlib.TextEquality.{eq_iff}
use llm_server_manager.Base.Tests.{if◌then◌else◌}

module _ {ℓ} {Value : Type ℓ} where
  -- delete(m, key).
  unfoldable pub erase : String → List (String × Value) → List (String × Value)
  erase key [] = []
  erase key ((name, held) ∷ rest) =
      if name == key then erase key rest else (name, held) ∷ erase key rest

  -- m[key] = new.
  unfoldable pub insert : String → Value → List (String × Value) → List (String × Value)
  insert key new [] = (key, new) ∷ []
  insert key new ((name, held) ∷ rest) =
      if name == key then (key, new) ∷ rest else (name, held) ∷ insert key new rest

  -- m[key], with `none` for a missing key.
  unfoldable pub lookup : String → List (String × Value) → Option Value
  lookup key [] = none
  lookup key ((name, held) ∷ rest) = if name == key then some held else lookup key rest

  pub lookup-erase :
      (gone asked : String) (entries : List (String × Value))
      → lookup asked (erase gone entries) ≡ (if gone == asked then none else lookup asked entries)
  unfolding lookup erase
  lookup-erase gone asked [] = ground arith
  lookup-erase gone asked ((name, held) ∷ rest) =
      ground (
        arith,
        lookup-erase gone asked rest,
        eq_iff name gone,
        eq_iff name asked,
        eq_iff gone asked,
      )

  pub lookup-insert :
      (key asked : String) (new : Value) (entries : List (String × Value))
      → lookup asked (insert key new entries)
        ≡ (if key == asked then some new else lookup asked entries)
  unfolding lookup insert
  lookup-insert key asked new [] = refl
  lookup-insert key asked new ((name, held) ∷ rest) = ground (
    arith,
    lookup-insert key asked new rest,
    eq_iff name key,
    eq_iff name asked,
    eq_iff key asked,
  )
