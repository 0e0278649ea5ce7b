-- ===== src/Operator/Approvals/Latest.antt =====
-- The dictionary `latest`: of each approver at each stage, the last approval.
use autobugfix_loop.Prelude.{
  ◌≡◌, refl, sym, ◌∙◌, true, false, Option, none, some, List, [], ◌∷◌, arith, eq_iff, eq_refl,
  find?, filter, get_last?, sort_by, All, inl, inr, Bool-cases, if◌then◌else◌,
}
use autobugfix_loop.Operator.Records.Request.{OperatorApproval, Stage, scope, merge, stage_eq}
use autobugfix_loop.Operator.Store.{}
use autobugfix_loop.Operator.Approvals.{approval_le, same_key, set_latest, set_all}

-- Independent of the dictionary: the last approval, in the order of time, that has the key of `a`.
abbrev pub latest_for : OperatorApproval → List OperatorApproval → Option OperatorApproval
latest_for a approvals = get_last? (filter (same_key a) (sort_by approval_le approvals))

pub stage_eq_iff : (s t : Stage) → stage_eq s t ≡ true → s ≡ t
stage_eq_iff scope scope h = refl
stage_eq_iff merge merge h = refl
stage_eq_iff scope merge h = ground arith
stage_eq_iff merge scope h = ground arith

stage_eq_refl : (s : Stage) → stage_eq s s ≡ true
stage_eq_refl scope = refl
stage_eq_refl merge = refl

same_key_refl : (a : OperatorApproval) → same_key a a ≡ true
unfolding same_key
same_key_refl a = rw (eq_refl a.approver, stage_eq_refl a.stage) refl

-- Two approvals with one key are alike to every key.
same_key_alike : (k a b : OperatorApproval) → same_key a b ≡ true → same_key k a ≡ same_key k b
unfolding same_key
same_key_alike k a b h =
    let e : a.approver ≡ b.approver = ground (arith, eq_iff a.approver b.approver) in
    let f : a.stage ≡ b.stage = stage_eq_iff a.stage b.stage (ground arith) in rw (e, f) refl

same_key_swap : (a b : OperatorApproval) → same_key a b ≡ false → same_key b a ≡ false
same_key_swap a b h = elim (Bool-cases (same_key b a)) [
  | inl e ↦ ground (arith, h, same_key_refl a, same_key_alike a b a e)
  | inr e ↦ e
]

find-set_latest :
    (k a : OperatorApproval) (l : List OperatorApproval)
    → find? (same_key k) (set_latest a l) ≡ (if same_key k a then some a else find? (same_key k) l)
unfolding set_latest
find-set_latest k a [] = refl
find-set_latest k a (b ∷ l) = elim (Bool-cases (same_key a b)) [
  | inl e ↦ ground (arith, e, same_key_alike k a b e)
  | inr e ↦ elim (Bool-cases (same_key k b)) [
    | inl f ↦
        let g : same_key k a ≡ false = same_key_swap a k (same_key_alike a k b f ∙ e) in
        ground (arith, e, f, g, find-set_latest k a l)
    | inr f ↦ ground (arith, e, f, find-set_latest k a l)
  ]
]

abbrev pub or_else : Option OperatorApproval → Option OperatorApproval → Option OperatorApproval
or_else none o = o
or_else (some a) o = some a

or_else_twice :
    (o : Option OperatorApproval) (x a : OperatorApproval)
    → or_else o (some x) ≡ or_else (or_else o (some x)) (some a)
or_else_twice none x a = refl
or_else_twice (some b) x a = refl

get_last?-cons :
    (a : OperatorApproval) (xs : List OperatorApproval)
    → get_last? (a ∷ xs) ≡ or_else (get_last? xs) (some a)
get_last?-cons a [] = refl
get_last?-cons a (x ∷ xs) = rw (get_last?-cons x xs) (or_else_twice (get_last? xs) x a)

-- The dictionary holds, at each key, the last value that was set.
pub find-set_all :
    (k : OperatorApproval) (latest later : List OperatorApproval)
    → find? (same_key k) (set_all latest later)
      ≡ or_else (get_last? (filter (same_key k) later)) (find? (same_key k) latest)
unfolding set_all
find-set_all k latest [] = refl
find-set_all k latest (a ∷ later) = elim (Bool-cases (same_key k a)) [
  | inl t ↦ ground (
    arith,
    t,
    find-set_all k (set_latest a latest) later,
    find-set_latest k a latest,
    get_last?-cons a (filter (same_key k) later),
  )
  | inr t ↦
      ground (arith, t, find-set_all k (set_latest a latest) later, find-set_latest k a latest)
]

-- Each key stands once.
abbrev pub IsDistinct : List OperatorApproval → Type 0
IsDistinct [] = Unit
IsDistinct (a ∷ l) = All (λ b. same_key a b ≡ false) l × IsDistinct l

apart-set_latest :
    (k a : OperatorApproval) (l : List OperatorApproval)
    → same_key k a ≡ false
    → All (λ b. same_key k b ≡ false) l
    → All (λ b. same_key k b ≡ false) (set_latest a l)
unfolding set_latest
apart-set_latest k a [] h all = (h, tt)
apart-set_latest k a (b ∷ l) h all = elim (Bool-cases (same_key a b)) [
  | inl t ↦ rw t (h, all.1)
  | inr t ↦ rw t (all.0, apart-set_latest k a l h all.1)
]

apart_alike :
    (a b : OperatorApproval) (l : List OperatorApproval)
    → same_key a b ≡ true
    → All (λ c. same_key b c ≡ false) l
    → All (λ c. same_key a c ≡ false) l
apart_alike a b [] h all = tt
apart_alike a b (c ∷ l) h all = (
  same_key_swap c a (same_key_alike c a b h ∙ same_key_swap b c all.0),
  apart_alike a b l h all.1,
)

IsDistinct-set_latest :
    (a : OperatorApproval) (l : List OperatorApproval) → IsDistinct l → IsDistinct (set_latest a l)
unfolding set_latest
IsDistinct-set_latest a [] h = (tt, tt)
IsDistinct-set_latest a (b ∷ l) h = elim (Bool-cases (same_key a b)) [
  | inl t ↦ rw t (apart_alike a b l t h.0, h.1)
  | inr t ↦ rw t (apart-set_latest b a l (same_key_swap a b t) h.0, IsDistinct-set_latest a l h.1)
]

pub IsDistinct-set_all :
    (latest later : List OperatorApproval) → IsDistinct latest → IsDistinct (set_all latest later)
unfolding set_all
IsDistinct-set_all latest [] h = h
IsDistinct-set_all latest (a ∷ later) h =
    IsDistinct-set_all (set_latest a latest) later (IsDistinct-set_latest a latest h)

-- What stands after elements of other keys is found the same.
found_after :
    (a : OperatorApproval) (l m : List OperatorApproval)
    → All (λ b. same_key a b ≡ false) m
    → All (λ b. find? (same_key b) l ≡ some b) m
    → All (λ b. find? (same_key b) (a ∷ l) ≡ some b) m
found_after a l [] h all = tt
found_after a l (b ∷ m) h all = (rw (same_key_swap a b h.0) all.0, found_after a l m h.1 all.1)

-- Where keys stand once, each element is the one found.
pub found-All :
    (l : List OperatorApproval) → IsDistinct l → All (λ b. find? (same_key b) l ≡ some b) l
found-All [] h = tt
found-All (a ∷ l) h = (rw (same_key_refl a) refl, found_after a l l h.0 (found-All l h.1))

pub or_else-none : (o : Option OperatorApproval) → or_else o none ≡ o
or_else-none none = refl
or_else-none (some a) = refl

pub latest-All :
    (approvals l : List OperatorApproval)
    → l ≡ set_all [] (sort_by approval_le approvals)
    → (m : List OperatorApproval) → All (λ b. find? (same_key b) l ≡ some b) m
    → All (λ b. latest_for b approvals ≡ some b) m
latest-All approvals l e [] h = tt
latest-All approvals l e (b ∷ m) h =
    let f : find? (same_key b) l ≡ latest_for b approvals =
      rw e (find-set_all b [] (sort_by approval_le approvals) ∙ or_else-none _) in
    (sym f ∙ h.0, latest-All approvals l e m h.1)
