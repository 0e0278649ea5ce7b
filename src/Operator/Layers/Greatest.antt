-- ===== src/Operator/Layers/Greatest.antt =====
-- The greatest specificity of the matches, and the layers that have it.
use autobugfix_loop.Prelude.{
  ◌≡◌, refl, sym, ap, ◌∙◌, String, Bool, true, false, ◌&&◌, ◌||◌, List, [], ◌∷◌, map, arith, any,
  all, filter, sort_by, insert_by, str_le, ◌==◌, and_split, Bool-cases, inl, inr, if◌then◌else◌,
}
use autobugfix_loop.Operator.Records.{mem}
use autobugfix_loop.Operator.Glob.{}
use autobugfix_loop.Operator.Layers.{
  Specificity, specificity_le, specificity_eq, max_specificity, best_layers,
}

le_refl : (a : Specificity) → specificity_le a a ≡ true
unfolding specificity_le
le_refl a = ground arith

pub le_trans :
    (a b c : Specificity)
    → specificity_le a b ≡ true
    → specificity_le b c ≡ true
    → specificity_le a c ≡ true
unfolding specificity_le
le_trans a b c h k = ground arith

le_total : (a b : Specificity) → specificity_le a b ≡ false → specificity_le b a ≡ true
unfolding specificity_le
le_total a b h = ground arith

eq-le : (a b : Specificity) → specificity_eq a b ≡ (specificity_le a b && specificity_le b a)
unfolding specificity_le specificity_eq
eq-le a b = ground arith

-- The greater of two is below a bound when both are.
greater-le :
    (a s x : Specificity)
    → specificity_le (if specificity_le s a then a else s) x
      ≡ (specificity_le a x && specificity_le s x)
greater-le a s x = elim (Bool-cases (specificity_le s a)) [
  | inl t ↦ elim (Bool-cases (specificity_le a x)) [
    | inl u ↦ ground (arith, t, u, le_trans s a x t u)
    | inr u ↦ ground (arith, t, u)
  ]
  | inr t ↦ elim (Bool-cases (specificity_le s x)) [
    | inl u ↦ ground (arith, t, u, le_trans a s x (le_total s a t) u)
    | inr u ↦ ground (arith, t, u)
  ]
]

pub max-le :
    (m x : Specificity) (ss : List Specificity)
    → specificity_le (max_specificity m ss) x
      ≡ (specificity_le m x && all (λ s. specificity_le s x) ss)
unfolding max_specificity
max-le m x [] = ground arith
max-le m x (s ∷ ss) =
    max-le (if specificity_le s m then m else s) x ss ∙ ground (arith, greater-le m s x)

-- A test that holds of what is greater holds of the greatest when it holds of one.
abbrev pub IsUpward : (Specificity → Bool) → Type 0
IsUpward p = (x y : Specificity) → p x ≡ true → specificity_le x y ≡ true → p y ≡ true

greater-any :
    (p : Specificity → Bool) (a s : Specificity)
    → IsUpward p
    → p (if specificity_le s a then a else s) ≡ (p a || p s)
greater-any p a s up = elim (Bool-cases (specificity_le s a)) [
  | inl t ↦ elim (Bool-cases (p s)) [
    | inl u ↦ ground (arith, t, u, up s a u t)
    | inr u ↦ ground (arith, t, u)
  ]
  | inr t ↦ elim (Bool-cases (p a)) [
    | inl u ↦ ground (arith, t, u, up a s u (le_total s a t))
    | inr u ↦ ground (arith, t, u)
  ]
]

pub max-any :
    (p : Specificity → Bool) (m : Specificity) (ss : List Specificity)
    → IsUpward p
    → p (max_specificity m ss) ≡ (p m || any p ss)
unfolding max_specificity
max-any p m [] up = ground arith
max-any p m (s ∷ ss) up =
    max-any p (if specificity_le s m then m else s) ss up ∙ ground (arith, greater-any p m s up)

mem-insert_by :
    (l x : String) (ys : List String) → mem l (insert_by str_le x ys) ≡ (x == l || mem l ys)
unfolding insert_by
mem-insert_by l x [] = refl
mem-insert_by l x (y ∷ ys) = elim (Bool-cases (str_le x y)) [
  | inl t ↦ ground (arith, t)
  | inr t ↦ ground (arith, t, mem-insert_by l x ys)
]

mem-sort_by : (l : String) (xs : List String) → mem l (sort_by str_le xs) ≡ mem l xs
unfolding sort_by
mem-sort_by l [] = refl
mem-sort_by l (x ∷ xs) = mem-insert_by l x (sort_by str_le xs) ∙ ground (arith, mem-sort_by l xs)

mem-map-filter :
    (l : String) (p : Specificity → Bool) (ms : List (String × Specificity))
    → mem l (map (λ e. e.0) (filter (λ e. p e.1) ms)) ≡ any (λ e. e.0 == l && p e.1) ms
mem-map-filter l p [] = refl
mem-map-filter l p (m ∷ ms) = elim (Bool-cases (p m.1)) [
  | inl t ↦ ground (arith, t, mem-map-filter l p ms)
  | inr t ↦ ground (arith, t, mem-map-filter l p ms)
]

-- Every match is at most as specific.
abbrev pub dominates : List (String × Specificity) → Specificity → Bool
dominates ms x = all (λ e. specificity_le e.1 x) ms

specificity_eq-dominates :
    (best x : Specificity) (ms : List (String × Specificity))
    → ((y : Specificity) → specificity_le best y ≡ dominates ms y)
    → specificity_le x best ≡ true
    → specificity_eq x best ≡ dominates ms x
specificity_eq-dominates best x ms f h = ground (arith, eq-le x best, f x, h)

best-filter :
    (l : String) (best : Specificity) (ms es : List (String × Specificity))
    → ((y : Specificity) → specificity_le best y ≡ dominates ms y)
    → dominates es best ≡ true
    → any (λ e. e.0 == l && specificity_eq e.1 best) es ≡ any (λ e. e.0 == l && dominates ms e.1) es
best-filter l best ms [] f h = refl
best-filter l best ms (e ∷ es) f h =
    let (a, b) = and_split (specificity_le e.1 best) (dominates es best) h in
    let c = specificity_eq-dominates best e.1 ms f a in
    let d = best-filter l best ms es f b in rw (c, d) refl

all-map :
    (x : Specificity) (ms : List (String × Specificity))
    → all (λ s. specificity_le s x) (map (λ e. e.1) ms) ≡ dominates ms x
all-map x [] = refl
all-map x (m ∷ ms) = rw (all-map x ms) refl

pub mem-best_layers :
    (l : String) (ms : List (String × Specificity))
    → mem l (best_layers ms) ≡ any (λ e. e.0 == l && dominates ms e.1) ms
unfolding best_layers
mem-best_layers l [] = refl
mem-best_layers l (m ∷ ms) =
    let best = max_specificity m.1 (map (λ e. e.1) ms) in
    let f : (y : Specificity) → specificity_le best y ≡ dominates (m ∷ ms) y =
      λ y. max-le m.1 y (map (λ e. e.1) ms) ∙ ap (λ b. specificity_le m.1 y && b) (all-map y ms) in
    let d : dominates (m ∷ ms) best ≡ true = sym (f best) ∙ le_refl best in
    mem-sort_by l (map (λ e. e.0) (filter (λ e. specificity_eq e.1 best) (m ∷ ms)))
    ∙ (mem-map-filter l (λ x. specificity_eq x best) (m ∷ ms)
        ∙ best-filter l best (m ∷ ms) (m ∷ ms) f d)
