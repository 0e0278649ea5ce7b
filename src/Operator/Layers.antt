-- ===== src/Operator/Layers.antt =====
-- operator/policy.py: the trusted constitution as far as the policy and the guard read it, and
-- `layers_for_file`. A missing or empty value of the YAML is "" or [], and `none` stands where the
-- code expects a mapping and finds something else.
pub mod Greatest
pub mod Owners
use autobugfix_loop.Prelude.{
  ℕ, String, Bool, true, false, not, ◌&&◌, ◌||◌, Option, none, some, List, [], ◌∷◌, map, ltb, leb,
  nat_eq, str_le, ◌==◌, truthy, codes, filter, count, sort_by, if◌then◌else◌, Result, ok, raise,
}
use autobugfix_loop.Operator.Records.Request.{Risk}
use autobugfix_loop.Operator.Store.{Error, bad_resolution}
use autobugfix_loop.Operator.Glob.{slashes, segments, has_marker, match_path}

-- A layer's patterns: `none` where the layer is no mapping.
abbrev pub LayerTable : Type 0
LayerTable = List (String × Option (List String))

pub record Constitution : Type 0 where
  -- layer_resolution.strategy
  pub strategy : Option String
  pub layers : Option LayerTable
  pub protected_paths : List String
  pub protected_branches : List String
  -- the names of validation_profiles
  pub validation_profiles : List String
  pub risk_required_profiles : Risk → List String

pub record Specificity : Type 0 where
  pub exact : ℕ
  pub literal_segments : ℕ
  pub literal_characters : ℕ

-- `_pattern_specificity`
unfoldable pub pattern_specificity : String → Specificity
unfolding slashes has_marker segments
pattern_specificity pattern =
    let normalized = slashes (codes pattern) in
    record {
      exact = if has_marker normalized then 0 else 1;
      literal_segments =
          count (λ s. not (has_marker s))
            (filter (λ s. elim s [ [] ↦ false | c ∷ cs ↦ true ]) (segments normalized));
      literal_characters =
          count (λ c. not (nat_eq c 42 || nat_eq c 63 || nat_eq c 91 || nat_eq c 93)) normalized;
    }

-- The order of the triples.
unfoldable pub specificity_le : Specificity → Specificity → Bool
specificity_le a b =
    ltb a.exact b.exact
    || (nat_eq a.exact b.exact
        && (ltb a.literal_segments b.literal_segments
            || (nat_eq a.literal_segments b.literal_segments
                && leb a.literal_characters b.literal_characters)))

unfoldable pub specificity_eq : Specificity → Specificity → Bool
specificity_eq a b =
    nat_eq a.exact b.exact
    && nat_eq a.literal_segments b.literal_segments
    && nat_eq a.literal_characters b.literal_characters

unfoldable pub max_specificity : Specificity → List Specificity → Specificity
unfolding specificity_le
max_specificity best [] = best
max_specificity best (s ∷ ss) = max_specificity (if specificity_le s best then best else s) ss

unfoldable pub specificities : String → List String → List Specificity
unfolding match_path pattern_specificity
specificities path patterns = map pattern_specificity (filter (λ p. match_path p path) patterns)

-- `matches[layer] = max(matching)`, where something matches.
unfoldable pub add_match :
    String → List Specificity → List (String × Specificity) → List (String × Specificity)
unfolding max_specificity
add_match layer [] others = others
add_match layer (s ∷ ss) others = (layer, max_specificity s ss) ∷ others

-- The dictionary `matches`.
unfoldable pub layer_matches : String → LayerTable → List (String × Specificity)
unfolding specificities add_match
layer_matches path [] = []
layer_matches path ((layer, none) ∷ rest) = layer_matches path rest
layer_matches path ((layer, some patterns) ∷ rest) =
    add_match layer (specificities path patterns) (layer_matches path rest)

-- The layers of the greatest specificity, sorted.
unfoldable pub best_layers : List (String × Specificity) → List String
unfolding max_specificity specificity_eq sort_by
best_layers [] = []
best_layers (m ∷ ms) =
    let best = max_specificity m.1 (map (λ e. e.1) ms) in
    sort_by str_le (map (λ e. e.0) (filter (λ e. specificity_eq e.1 best) (m ∷ ms)))

-- `layers_for_file`
unfoldable pub layers_for_file : Constitution → String → Result Error (List String)
unfolding layer_matches best_layers
layers_for_file constitution path = elim constitution.strategy [
  | none ↦ raise bad_resolution
  | some s ↦
      if truthy s && not (s == "most_specific")
      then raise bad_resolution
      else elim constitution.layers [
        | none ↦ ok []
        | some layers ↦ ok (best_layers (layer_matches path layers))
      ]
]
