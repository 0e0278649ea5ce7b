-- ===== src/Operator/Records.antt =====
-- operator/models.py: the frozen records that the authority store keeps, each with the checks of its
-- `__post_init__`. Integers that the checks keep from being negative are natural numbers.
pub mod Budget
pub mod Line
pub mod Request
use autobugfix_loop.Prelude.{
  ℕ, String, Bool, true, false, not, ◌&&◌, ◌||◌, Option, none, some, List, [], ◌∷◌, ltb, nat_eq,
  ◌==◌, truthy, opt_truthy, length, any, all, is_blank, if◌then◌else◌, Result, ok, raise, raise_if,
  ◌>>=◌, ◌>>◌,
}

-- `OperatorModelError`, one constructor for each check.
pub data ModelError : Type 0 where
  missing_text bad_choice bad_wave bad_cases empty_case not_positive bad_expiry : ModelError
  reserved_finished terminal_unfinished : ModelError
  unpaired_binding candidate_unbound h0_parent missing_parent : ModelError
  repeated_layer empty_field absolute_path : ModelError

-- `_required` at each of the values, in order.
unfoldable pub required : List String → Result ModelError (Unit {0})
required values = raise_if (any is_blank values) missing_text

-- The order of first occurrences, without repetitions: `dict.fromkeys`, and the size of a `set`.
abbrev pub mem : String → List String → Bool
mem x [] = false
mem x (y ∷ ys) = y == x || mem x ys

abbrev pub without : String → List String → List String
without x [] = []
without x (y ∷ ys) = let rest = without x ys in if y == x then rest else y ∷ rest

unfoldable pub dedup : List String → List String
dedup [] = []
dedup (x ∷ xs) = x ∷ without x (dedup xs)

abbrev pub subset : List String → List String → Bool
subset xs ys = all (λ x. mem x ys) xs

pub data UsageStatus : Type 0 where
  reserved completed indeterminate : UsageStatus

abbrev pub is_reserved : UsageStatus → Bool
is_reserved reserved = true
is_reserved _ = false

abbrev pub status_eq : UsageStatus → UsageStatus → Bool
status_eq reserved reserved = true
status_eq completed completed = true
status_eq indeterminate indeterminate = true
status_eq _ _ = false

pub data LineStatus : Type 0 where
  open_line closed_line : LineStatus

abbrev pub line_status_eq : LineStatus → LineStatus → Bool
line_status_eq open_line open_line = true
line_status_eq closed_line closed_line = true
line_status_eq _ _ = false
