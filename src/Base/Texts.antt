-- ===== src/Base/Texts.antt =====
-- A `std::string` as the list of its bytes, and `unordered_map` from texts as an association list.
use Prim.Native.Nat.{ℕ}
use Prim.Native.Char.{code}
use Prim.Native.String.{String}
use mathlib.Core.Path.{◌≡◌, refl}
use mathlib.Core.Logic.{◌↔◌}
use mathlib.Core.Bool.{Bool, true, false, ◌&&◌}
use mathlib.Core.List.{List, [], ◌∷◌}
use mathlib.Core.Option.{Option, none, some}
use native.Mathlib.Omega.{arith}
use jbjb.Base.Tests.{◌==◌, if◌then◌else◌}

abbrev pub Text : Type 0
Text = List ℕ

-- The bytes of a quoted ASCII text.
abbrev pub codes : String → Text
codes String.[] = []
codes (String.◌∷◌ c s) = code c ∷ codes s

unfoldable pub text_eq : Text → Text → Bool
text_eq [] [] = true
text_eq (a ∷ s) (b ∷ t) = a == b && text_eq s t
text_eq _ _ = false

pub text_eq_iff : (s t : Text) → (text_eq s t ≡ true) ↔ (s ≡ t)
unfolding text_eq
text_eq_iff [] [] = ground arith
text_eq_iff (a ∷ s) (b ∷ t) = ground (arith, text_eq_iff s t)
text_eq_iff [] (b ∷ t) = ground arith
text_eq_iff (a ∷ s) [] = ground arith

-- `find`, `operator[] =` and `erase` of an `unordered_map<std::string, V>`.
module _ {ℓ} {V : Type ℓ} where
  unfoldable pub find : Text → List (Text × V) → Option V
  find k [] = none
  find k ((j, v) ∷ m) = if text_eq j k then some v else find k m

  unfoldable pub assign : Text → V → List (Text × V) → List (Text × V)
  assign k v [] = (k, v) ∷ []
  assign k v ((j, w) ∷ m) = if text_eq j k then (k, v) ∷ m else (j, w) ∷ assign k v m

  unfoldable pub erase : Text → List (Text × V) → List (Text × V)
  erase k [] = []
  erase k ((j, w) ∷ m) = if text_eq j k then erase k m else (j, w) ∷ erase k m

  pub find-assign :
      (k j : Text) (v : V) (m : List (Text × V))
      → find j (assign k v m) ≡ (if text_eq k j then some v else find j m)
  unfolding find assign
  find-assign k j v [] = refl
  find-assign k j v ((i, w) ∷ m) =
      ground (arith, text_eq_iff k j, text_eq_iff i k, text_eq_iff i j, find-assign k j v m)

  pub find-erase :
      (k j : Text) (m : List (Text × V))
      → find j (erase k m) ≡ (if text_eq k j then none else find j m)
  unfolding find erase
  find-erase k j [] = ground arith
  find-erase k j ((i, w) ∷ m) =
      ground (arith, text_eq_iff k j, text_eq_iff i k, text_eq_iff i j, find-erase k j m)
