-- ===== src/Operator/Line/Rows.antt =====
-- The row of a line: what a read says of it, and where an update leaves it.
use autobugfix_loop.Prelude.{
  ℕ, suc, ◌≡◌, refl, String, true, false, Option, some, List, [], ◌∷◌, ◌++◌, arith, ◌==◌, eq_iff,
  eq_refl, ok, inl, inr, Bool-cases, Option-cases, is_safe_id, opt_eq→eq,
}
use autobugfix_loop.Operator.Records.Line.{ExperimentLine}
use autobugfix_loop.Operator.Records.{LineStatus, open_line, closed_line, line_status_eq}
use autobugfix_loop.Operator.Store.{Tables, LineRow, find_line, columns_agree, read_experiment_line}
use autobugfix_loop.Operator.Line.{is_at, set_line, same_line, validate_line_update}

pub read-facts :
    (key : String) (t : Tables) (a : ExperimentLine)
    → read_experiment_line key t ≡ ok a
    → (row : LineRow) × (find_line key t.lines ≡ some row)
      × (columns_agree row ≡ true)
      × (row.line ≡ a)
      × (is_safe_id key ≡ true)
unfolding read_experiment_line
read-facts key t a h = elim (Option-cases (find_line key t.lines)) [
  | inl p ↦ absurd (ground arith)
  | inr (row, p) ↦ (row, p, ground arith, ground arith, ground arith)
]

pub read-ok :
    (key : String) (t : Tables) (row : LineRow)
    → find_line key t.lines ≡ some row
    → columns_agree row ≡ true
    → is_safe_id key ≡ true
    → read_experiment_line key t ≡ ok row.line
unfolding read_experiment_line
read-ok key t row f c s = ground arith

pub find_line-key :
    (key : String) (rs : List LineRow) (row : LineRow)
    → find_line key rs ≡ some row
    → (row.line_id == key) ≡ true
unfolding find_line
find_line-key key [] row h = cc
find_line-key key (r ∷ rs) row h = elim (Bool-cases (r.line_id == key)) [
  | inl p ↦ let same : r ≡ row = ground arith in rw (← same) p
  | inr p ↦ find_line-key key rs row (ground arith)
]

pub find_line-append_one :
    (key : String) (rs : List LineRow) (r row : LineRow)
    → find_line key rs ≡ some row
    → find_line key (rs ++ r ∷ []) ≡ some row
unfolding find_line
find_line-append_one key [] r row h = cc
find_line-append_one key (q ∷ rs) r row h = ground (arith, find_line-append_one key rs r row)

-- The row that the UPDATE leaves of one that it selects.
abbrev pub updated : ExperimentLine → LineRow → LineRow
updated l r = record r {
  head_sha = l.head_sha;
  generation = l.generation;
  status = l.status;
  line = l;
}

pub find_line-updated :
    (l : ExperimentLine) (head : String) (generation : ℕ) (rs : List LineRow) (row : LineRow)
    → find_line l.line_id rs ≡ some row
    → is_at l.line_id head generation row ≡ true
    → find_line l.line_id (set_line l head generation rs) ≡ some (updated l row)
unfolding find_line set_line
find_line-updated l head generation [] row f a = cc
find_line-updated l head generation (r ∷ rs) row f a = elim (Bool-cases (r.line_id == l.line_id)) [
  | inl p ↦ let same : r ≡ row = ground arith in rw same (ground arith)
  | inr p ↦ ground (arith, find_line-updated l head generation rs row)
]

pub find_line-set_line :
    (key : String) (l : ExperimentLine) (head : String) (generation : ℕ) (rs : List LineRow)
    (row : LineRow)
    → (l.line_id == key) ≡ false
    → find_line key rs ≡ some row
    → find_line key (set_line l head generation rs) ≡ some row
unfolding find_line set_line
find_line-set_line key l head generation [] row n f = cc
find_line-set_line key l head generation (r ∷ rs) row n f =
    elim (Bool-cases (is_at l.line_id head generation r)) [
      | inl p ↦
          let same : r.line_id ≡ l.line_id = (eq_iff r.line_id l.line_id).0 (ground arith) in
          let other : (r.line_id == key) ≡ false = rw same n in
          ground (arith, find_line-set_line key l head generation rs row n)
      | inr p ↦ ground (arith, find_line-set_line key l head generation rs row n)
    ]

-- What no update of a line may change.
abbrev pub identity : ExperimentLine → String × String × String × String × Option String × String
identity l = (l.line_id, l.study_id, l.branch, l.base_sha, l.remote, l.created_at)

pub same_line-identity : (a b : ExperimentLine) → same_line a b ≡ true → identity b ≡ identity a
unfolding same_line
same_line-identity a b h =
    let i = (eq_iff a.line_id b.line_id).0 (ground arith) in
    let s = (eq_iff a.study_id b.study_id).0 (ground arith) in
    let r = (eq_iff a.branch b.branch).0 (ground arith) in
    let x = (eq_iff a.base_sha b.base_sha).0 (ground arith) in
    let y = opt_eq→eq a.remote b.remote (ground arith) in
    let z = (eq_iff a.created_at b.created_at).0 (ground arith) in rw (i, s, r, x, y, z) refl

pub validate-facts :
    (a l : ExperimentLine) (head : String) (generation : ℕ)
    → validate_line_update a l head generation ≡ ok tt
    → (a.head_sha ≡ head)
      × (a.generation ≡ generation)
      × (same_line a l ≡ true)
      × (l.generation ≡ suc generation)
unfolding validate_line_update
validate-facts a l head generation h =
    ((eq_iff a.head_sha head).0 (ground arith), ground arith, ground arith, ground arith)

line_status_refl : (s : LineStatus) → line_status_eq s s ≡ true
line_status_refl open_line = refl
line_status_refl closed_line = refl

-- A row that agrees with its record is selected by an update validated against that record, and
-- agrees with the new one.
pub updated-agrees :
    (l : ExperimentLine) (head : String) (generation : ℕ) (row : LineRow)
    → (row.line_id == l.line_id) ≡ true
    → columns_agree row ≡ true
    → validate_line_update row.line l head generation ≡ ok tt
    → (is_at l.line_id head generation row ≡ true) × (columns_agree (updated l row) ≡ true)
unfolding columns_agree same_line
updated-agrees l head generation row k c v =
    let (x, y, s, g) = validate-facts row.line l head generation v in
    let i = (eq_iff row.head_sha row.line.head_sha).0 (ground arith) in
    let j = (eq_iff row.study_id row.line.study_id).0 (ground arith) in
    let b = (eq_iff row.branch row.line.branch).0 (ground arith) in
    let at : (row.head_sha == head) ≡ true = rw (i, x) (eq_refl head) in
    let st : (row.study_id == l.study_id) ≡ true = rw j (ground arith) in
    let br : (row.branch == l.branch) ≡ true = rw b (ground arith) in
    (ground arith, ground (arith, eq_refl l.head_sha, line_status_refl l.status))
