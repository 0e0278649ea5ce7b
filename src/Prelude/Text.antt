-- ===== src/Prelude/Text.antt =====
-- Python's `str` methods that the program uses, over the code points of a text.
use Prim.Native.Nat.{ℕ, ◌+◌}
use Prim.Native.Char.{code}
use Prim.Native.String.{String}
use mathlib.Core.Path.{}
use mathlib.Core.Bool.{Bool, true, false, ◌&&◌, ◌||◌}
use mathlib.Core.List.{List, [], ◌∷◌, reverse}
use autobugfix_loop.Prelude.Tests.{leb, nat_eq, if◌then◌else◌}

abbrev pub codes : String → List ℕ
codes String.[] = []
codes (String.◌∷◌ c s) = code c ∷ codes s

abbrev in_range : ℕ → ℕ → ℕ → Bool
in_range lo hi c = leb lo c && leb c hi

-- `str.isspace` of one character.
unfoldable pub is_space : ℕ → Bool
is_space c =
    in_range 9 13 c
    || in_range 28 32 c
    || nat_eq c 133
    || nat_eq c 160
    || nat_eq c 5760
    || in_range 8192 8202 c
    || nat_eq c 8232
    || nat_eq c 8233
    || nat_eq c 8239
    || nat_eq c 8287
    || nat_eq c 12288

unfoldable pub lstrip : List ℕ → List ℕ
unfolding is_space
lstrip [] = []
lstrip (c ∷ s) = let rest = lstrip s in if is_space c then rest else c ∷ s

-- `str.strip`.
unfoldable pub strip : List ℕ → List ℕ
unfolding lstrip
strip s = reverse (lstrip (reverse (lstrip s)))

-- `not s.strip()`.
unfoldable pub is_blank : String → Bool
unfolding strip
is_blank s = elim (strip (codes s)) [ [] ↦ true | _ ∷ _ ↦ false ]

-- Equality of two texts, character by character.
abbrev pub codes_eq : List ℕ → List ℕ → Bool
codes_eq [] [] = true
codes_eq (c ∷ s) (d ∷ t) = nat_eq c d && codes_eq s t
codes_eq _ _ = false

abbrev pub has_prefix : List ℕ → List ℕ → Bool
has_prefix [] s = true
has_prefix (c ∷ p) [] = false
has_prefix (c ∷ p) (d ∷ s) = nat_eq c d && has_prefix p s

-- `needle in s`.
abbrev pub contains : List ℕ → List ℕ → Bool
contains needle [] = has_prefix needle []
contains needle (c ∷ s) = has_prefix needle (c ∷ s) || contains needle s

-- `str.lower`, exact on every ASCII character of the result: the capital letters, and the two other
-- characters whose lower case has an ASCII letter (the Kelvin sign, and the dotted capital I).
unfoldable pub lower : List ℕ → List ℕ
lower [] = []
lower (c ∷ s) =
    let rest = lower s in
    if in_range 65 90 c
    then (c + 32) ∷ rest
    else if nat_eq c 8490
    then 107 ∷ rest
    else if nat_eq c 304
    then 105 ∷ 775 ∷ rest
    else c ∷ rest

abbrev alnum : ℕ → Bool
alnum c = in_range 48 57 c || in_range 65 90 c || in_range 97 122 c

abbrev id_rest : List ℕ → Bool
id_rest [] = true
id_rest (c ∷ s) = (alnum c || nat_eq c 95 || nat_eq c 46 || nat_eq c 45) && id_rest s

abbrev id_start : List ℕ → Bool
id_start [] = false
id_start (c ∷ s) = alnum c && id_rest s

-- operator/store.py, `safe_id`: whether the pattern `_SAFE_ID` matches the whole text.
unfoldable pub is_safe_id : String → Bool
is_safe_id s = id_start (codes s)
