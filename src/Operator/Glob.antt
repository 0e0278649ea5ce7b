-- ===== src/Operator/Glob.antt =====
-- Path patterns of the Operator: Python's `fnmatch.fnmatch` on POSIX, where a name keeps its case, and
-- `_match_path` of operator/policy.py. `fnmatch` is exact but where a set begins with an empty range
-- and goes on with `!`, as in `[z-a!x]`, which Python then reads as a negated set.
use autobugfix_loop.Prelude.{
  zero, suc, ℕ, ◌-◌, String, Bool, true, false, not, ◌&&◌, ◌||◌, Option, none, some, List, [], ◌∷◌,
  ◌++◌, map, leb, nat_eq, length, take, any, codes, codes_eq, has_prefix, if◌then◌else◌,
}
use mathlib.Core.Option.{map as map_option}
use mathlib.Core.List.{reverse}

pub data Token : Type 0 where
  star any_one : Token
  literal : ℕ → Token
  -- whether it is negated, and its ranges
  set : Bool → List (ℕ × ℕ) → Token

-- The text of a set up to its `]`.
unfoldable until_close : List ℕ → Option (List ℕ)
until_close [] = none
until_close (c ∷ s) =
    let rest = until_close s in if nat_eq c 93 then some [] else map_option (λ t. c ∷ t) rest

-- A `]` at the start stands for itself.
unfoldable after_bang : List ℕ → Option (List ℕ)
unfolding until_close
after_bang [] = none
after_bang (c ∷ s) =
    if nat_eq c 93 then map_option (λ t. c ∷ t) (until_close s) else until_close (c ∷ s)

unfoldable pub set_text : List ℕ → Option (List ℕ)
unfolding after_bang
set_text [] = none
set_text (c ∷ s) =
    if nat_eq c 33 then map_option (λ t. c ∷ t) (after_bang s) else after_bang (c ∷ s)

unfoldable pub ranges : List ℕ → List (ℕ × ℕ)
ranges [] = []
ranges (x ∷ []) = (x, x) ∷ []
ranges (x ∷ d ∷ []) = (x, x) ∷ (d, d) ∷ []
ranges (x ∷ d ∷ y ∷ s) =
    let after = ranges s in
    let rest = ranges (d ∷ y ∷ s) in if nat_eq d 45 then (x, y) ∷ after else (x, x) ∷ rest

unfoldable pub set_of : List ℕ → Token
unfolding ranges
set_of [] = set false []
set_of (c ∷ s) = if nat_eq c 33 then set true (ranges s) else set false (ranges (c ∷ s))

-- The number counts the characters that a set has used up already.
unfoldable pub tokens : ℕ → List ℕ → List Token
unfolding set_text set_of
tokens n [] = []
tokens (suc n) (c ∷ s) = tokens n s
tokens zero (c ∷ s) =
    let rest = tokens zero s in
    let bracket : List Token = elim (set_text s) [
      | none ↦ literal 91 ∷ rest
      | some t ↦ set_of t ∷ tokens (suc (length t)) s
    ] in
    if nat_eq c 42
    then star ∷ rest
    else if nat_eq c 63
    then any_one ∷ rest
    else if nat_eq c 91
    then bracket
    else literal c ∷ rest

unfoldable pub accepts : Token → ℕ → Bool
accepts star c = false
accepts any_one c = true
accepts (literal d) c = nat_eq d c
accepts (set true rs) c = not (any (λ r. leb r.0 c && leb c r.1) rs)
accepts (set false rs) c = any (λ r. leb r.0 c && leb c r.1) rs

abbrev pub some_suffix : (List ℕ → Bool) → List ℕ → Bool
some_suffix f [] = f []
some_suffix f (c ∷ s) = f (c ∷ s) || some_suffix f s

unfoldable pub matches : List Token → List ℕ → Bool
matches [] [] = true
matches [] (c ∷ s) = false
matches (star ∷ ts) s = some_suffix (matches ts) s
matches (t ∷ ts) [] = false
matches (t ∷ ts) (c ∷ s) = accepts t c && matches ts s

-- `fnmatch.fnmatch(path, pattern)`, the pattern first.
unfoldable pub fnmatch : List ℕ → List ℕ → Bool
fnmatch pattern path = matches (tokens 0 pattern) path

-- `s.replace("\\", "/")`
unfoldable pub slashes : List ℕ → List ℕ
slashes s = map (λ c. if nat_eq c 92 then 47 else c) s

abbrev pub has_suffix : List ℕ → List ℕ → Bool
has_suffix p s = has_prefix (reverse p) (reverse s)

-- `_match_path`
unfoldable pub match_path : String → String → Bool
match_path pattern path =
    let p = slashes (codes pattern) in
    let s = slashes (codes path) in
    let prefix = take (length p - 3) p in
    if has_suffix (47 ∷ 42 ∷ 42 ∷ []) p
    then codes_eq s prefix || has_prefix (prefix ++ 47 ∷ []) s
    else fnmatch p s

-- `_matches_any`
unfoldable pub matches_any : String → List String → Bool
matches_any path patterns = any (λ pattern. match_path pattern path) patterns

-- `s.split("/")`
unfoldable pub segments : List ℕ → List (List ℕ)
segments [] = [] ∷ []
segments (c ∷ s) =
    let rest = segments s in
    if nat_eq c 47 then [] ∷ rest else elim rest [ [] ↦ (c ∷ []) ∷ [] | t ∷ ts ↦ (c ∷ t) ∷ ts ]

-- whether one of `*`, `?` and `[` is in the text
unfoldable pub has_marker : List ℕ → Bool
has_marker s = any (λ c. nat_eq c 42 || nat_eq c 63 || nat_eq c 91) s
