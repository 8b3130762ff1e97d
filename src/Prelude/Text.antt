-- ===== src/Prelude/Text.antt =====
-- Text: the library's test of equality under a name of its own, and Python's slice from the left.
use Prim.Native.Nat.{ℕ, zero, suc}
use Prim.Native.String.{String, ◌++◌ as append}
use mathlib.Core.Bool.{Bool, true, false, ◌||◌}
use mathlib.Core.Path.{◌≡◌, refl}
use mathlib.Core.Logic.{◌↔◌}
use mathlib.Core.Option.{none, some}
use mathlib.Core.List.{List, [], ◌∷◌}
use text.Mathlib.Text.{◌==◌, find?}
pub use text.Mathlib.Text.{starts_with}
use text.Mathlib.TextEquality.{eq_iff}
use text.Mathlib.TextPositions.{starts_with_of_prefix}

infix 50 ◌=ₛ◌
abbrev pub ◌=ₛ◌ : String → String → Bool
a =ₛ b = a == b

pub =ₛ_iff : (a b : String) → ((a =ₛ b) ≡ true) ↔ (a ≡ b)
=ₛ_iff a b = eq_iff a b

-- The concatenation of two texts, `+` or an f-string.
abbrev pub join : String → String → String
join s t = append s t

-- `p in s` for texts.
pub contains_text : String → String → Bool
contains_text p s = elim (find? s p) [ none ↦ false | some i ↦ true ]

-- `s in xs` for texts.
abbrev pub member_text : String → List String → Bool
member_text s [] = false
member_text s (x ∷ xs) = (x == s) || member_text s xs

-- `s[:n]`.
pub truncate : ℕ → String → String
truncate zero s = String.[]
truncate (suc n) String.[] = String.[]
truncate (suc n) (String.◌∷◌ c s) = String.◌∷◌ c (truncate n s)

-- `s[n:]`.
pub drop_text : ℕ → String → String
drop_text zero s = s
drop_text (suc n) String.[] = String.[]
drop_text (suc n) (String.◌∷◌ c s) = drop_text n s

-- `len(s)`: the number of characters.
unfoldable pub text_length : String → ℕ
text_length String.[] = zero
text_length (String.◌∷◌ c s) = suc (text_length s)

pub starts_with-join : (s t : String) → starts_with (join s t) s ≡ true
starts_with-join s t = starts_with_of_prefix s (join s t) (t, refl)
