-- ===== src/Operator/Layers/Owners.antt =====
-- The layers of a file: those with a matching pattern of the greatest specificity of all.
use autobugfix_loop.Prelude.{
  ◌≡◌, refl, sym, ap, ◌∙◌, String, Bool, true, not, ◌&&◌, ◌||◌, Option, none, some, List, [], ◌∷◌,
  arith, any, all, ◌==◌, and_split, Bool-cases, inl, inr, Option-cases, ok, ok-injective, truthy,
}
use autobugfix_loop.Operator.Records.{mem}
use autobugfix_loop.Operator.Glob.{match_path}
use autobugfix_loop.Operator.Layers.{
  Constitution, LayerTable, Specificity, specificity_le, specificities, add_match, layer_matches,
  best_layers, layers_for_file, pattern_specificity,
}
use autobugfix_loop.Operator.Layers.Greatest.{
  le_trans, max-le, max-any, mem-best_layers, IsUpward, dominates,
}

-- Independent of the code's maxima: no matching pattern of any layer is more specific than `x`.
abbrev pub patterns_of : Option (List String) → List String
patterns_of none = []
patterns_of (some ps) = ps

abbrev pub none_beats : LayerTable → String → Specificity → Bool
none_beats layers path x =
    all
      (λ e.
        all (λ q. not (match_path q path) || specificity_le (pattern_specificity q) x)
          (patterns_of e.1))
      layers

-- The layer has a matching pattern that none beats.
abbrev pub owns : LayerTable → String → String → Bool
owns layers path l =
    any
      (λ e.
        e.0 == l
        && any (λ p. match_path p path && none_beats layers path (pattern_specificity p))
            (patterns_of e.1))
      layers

all-specificities :
    (path : String) (x : Specificity) (ps : List String)
    → all (λ s. specificity_le s x) (specificities path ps)
      ≡ all (λ q. not (match_path q path) || specificity_le (pattern_specificity q) x) ps
unfolding specificities
all-specificities path x [] = refl
all-specificities path x (p ∷ ps) = elim (Bool-cases (match_path p path)) [
  | inl t ↦ ground (arith, t, all-specificities path x ps)
  | inr t ↦ ground (arith, t, all-specificities path x ps)
]

any-specificities :
    (path : String) (d : Specificity → Bool) (ps : List String)
    → any d (specificities path ps) ≡ any (λ p. match_path p path && d (pattern_specificity p)) ps
unfolding specificities
any-specificities path d [] = refl
any-specificities path d (p ∷ ps) = elim (Bool-cases (match_path p path)) [
  | inl t ↦ ground (arith, t, any-specificities path d ps)
  | inr t ↦ ground (arith, t, any-specificities path d ps)
]

dominates-add_match :
    (layer : String) (ss : List Specificity) (ms : List (String × Specificity)) (x : Specificity)
    → dominates (add_match layer ss ms) x ≡ (all (λ s. specificity_le s x) ss && dominates ms x)
unfolding add_match
dominates-add_match layer [] ms x = refl
dominates-add_match layer (s ∷ ss) ms x = ap (λ b. b && dominates ms x) (max-le s x ss)

dominates-none_beats :
    (path : String) (layers : LayerTable) (x : Specificity)
    → dominates (layer_matches path layers) x ≡ none_beats layers path x
unfolding layer_matches
dominates-none_beats path [] x = refl
dominates-none_beats path ((l, none) ∷ layers) x = dominates-none_beats path layers x
dominates-none_beats path ((l, some ps) ∷ layers) x =
    let e = dominates-add_match l (specificities path ps) (layer_matches path layers) x in
    let f = all-specificities path x ps in e ∙ rw (f, dominates-none_beats path layers x) refl

all-upward :
    (path : String) (x y : Specificity) (ps : List String)
    → specificity_le x y ≡ true
    → all (λ q. not (match_path q path) || specificity_le (pattern_specificity q) x) ps ≡ true
    → all (λ q. not (match_path q path) || specificity_le (pattern_specificity q) y) ps ≡ true
all-upward path x y [] k h = refl
all-upward path x y (q ∷ ps) k h =
    let (a, b) =
      and_split (not (match_path q path) || specificity_le (pattern_specificity q) x) _ h in
    let c = all-upward path x y ps k b in
    elim (Bool-cases (match_path q path)) [
      | inl t ↦ rw (t, c, le_trans (pattern_specificity q) x y (ground (arith, a, t)) k) refl
      | inr t ↦ rw (t, c) refl
    ]

IsUpward-none_beats : (path : String) (layers : LayerTable) → IsUpward (none_beats layers path)
IsUpward-none_beats path [] x y h k = refl
IsUpward-none_beats path (e ∷ layers) x y h k =
    let (a, b) = and_split _ _ h in
    rw (all-upward path x y (patterns_of e.1) k a, IsUpward-none_beats path layers x y b k) refl

any-add_match :
    (l layer : String) (d : Specificity → Bool) (ss : List Specificity)
    (ms : List (String × Specificity))
    → IsUpward d
    → any (λ e. e.0 == l && d e.1) (add_match layer ss ms)
      ≡ ((layer == l && any d ss) || any (λ e. e.0 == l && d e.1) ms)
unfolding add_match
any-add_match l layer d [] ms up = ground arith
any-add_match l layer d (s ∷ ss) ms up =
    ap (λ b. (layer == l && b) || any (λ e. e.0 == l && d e.1) ms) (max-any d s ss up)

any-layer_matches :
    (path l : String) (d : Specificity → Bool) (layers : LayerTable)
    → IsUpward d
    → any (λ e. e.0 == l && d e.1) (layer_matches path layers)
      ≡ any
          (λ e.
            e.0 == l && any (λ p. match_path p path && d (pattern_specificity p)) (patterns_of e.1))
          layers
unfolding layer_matches
any-layer_matches path l d [] up = refl
any-layer_matches path l d ((k, none) ∷ layers) up =
    ground (arith, any-layer_matches path l d layers up)
any-layer_matches path l d ((k, some ps) ∷ layers) up =
    any-add_match l k d (specificities path ps) (layer_matches path layers) up
    ∙ rw (any-specificities path d ps, any-layer_matches path l d layers up) refl

any-agree :
    (l : String) (p q : Specificity → Bool) (ms : List (String × Specificity))
    → ((x : Specificity) → p x ≡ q x)
    → any (λ e. e.0 == l && p e.1) ms ≡ any (λ e. e.0 == l && q e.1) ms
any-agree l p q [] f = refl
any-agree l p q (m ∷ ms) f = rw (f m.1, any-agree l p q ms f) refl

returned :
    (c : Constitution) (path : String) (layers : LayerTable) (ls : List String)
    → c.layers ≡ some layers
    → layers_for_file c path ≡ ok ls
    → best_layers (layer_matches path layers) ≡ ls
unfolding layers_for_file
returned c path layers ls t h = elim (Option-cases c.strategy) [
  | inl n ↦ ground (arith, h, n)
  | inr (s, e) ↦ elim (Bool-cases (truthy s && not (s == "most_specific"))) [
    | inl b ↦ ground (arith, h, e, b)
    | inr b ↦
        let z : layers_for_file c path ≡ ok (best_layers (layer_matches path layers)) =
          rw (e, b, t) refl in
        ok-injective (best_layers (layer_matches path layers)) ls (sym z ∙ h)
  ]
]

-- Where `layers_for_file` returns layers by a table of layers, a layer is among them exactly when it
-- has a pattern that matches the path and that no matching pattern of any layer exceeds in
-- specificity.
pub mem-layers_for_file :
    (c : Constitution) (path l : String) (layers : LayerTable) (ls : List String)
    → c.layers ≡ some layers
    → layers_for_file c path ≡ ok ls
    → mem l ls ≡ owns layers path l
mem-layers_for_file c path l layers ls t h =
    let ms = layer_matches path layers in
    let e = returned c path layers ls t h in
    ap (mem l) (sym e)
    ∙ (mem-best_layers l ms
        ∙ (any-agree l (dominates ms) (none_beats layers path) ms (dominates-none_beats path layers)
            ∙ any-layer_matches path l (none_beats layers path) layers
                (IsUpward-none_beats path layers)))
