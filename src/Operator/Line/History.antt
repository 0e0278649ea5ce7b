-- ===== src/Operator/Line/History.antt =====
-- Any sequence of transactions on the experiment lines, by any clients.
use autobugfix_loop.Prelude.{
  ℕ, ◌+◌, ◌≡◌, ◌≢◌, refl, ◌∙◌, String, Bool, if◌then◌else◌, [], ◌∷◌, ◌++◌, arith, ◌==◌, ok, inl,
  inr, Bool-cases, Result-cases, eq_iff,
}
use autobugfix_loop.Operator.Records.Line.{ExperimentLine, Integration, Checkpoint}
use autobugfix_loop.Operator.Store.{Tables, read_experiment_line}
use autobugfix_loop.Operator.Line.{
  set_line, validate_line_update, insert_line, insert_checkpoint, insert_integration, update_line,
  initialize_experiment_line, compare_and_swap_experiment_line, advance_experiment_line,
  write_checkpoint_and_activate, line_row,
}
use autobugfix_loop.Operator.Line.Rows.{
  read-facts, read-ok, find_line-key, find_line-append_one, find_line-updated, find_line-set_line,
  identity, same_line-identity, validate-facts, updated-agrees,
}

-- A transaction that commits.
pub data Step (t t' : Tables) : Type 0 where
  initialize :
      (l : ExperimentLine) (c : Checkpoint) → initialize_experiment_line l c t ≡ ok t' → Step t t'
  swap :
      (l : ExperimentLine) (head : String) (generation : ℕ)
      → compare_and_swap_experiment_line l head generation t ≡ ok t'
      → Step t t'
  advance :
      (known : String → Bool) (l : ExperimentLine) (i : Integration)
      → advance_experiment_line known l i t ≡ ok t'
      → Step t t'
  activate :
      (l : ExperimentLine) (c : Checkpoint) (head : String) (generation : ℕ)
      → write_checkpoint_and_activate l c head generation t ≡ ok t'
      → Step t t'

pub data Reach (t : Tables) : Tables → Type 0 where
  here : Reach t t
  next : {u v : Tables} → Reach t u → Step u v → Reach t v

-- The updates of a line among the transactions.
abbrev moves : {t t' : Tables} → String → Step t t' → ℕ
moves key (initialize l c h) = 0
moves key (swap l head generation h) = if l.line_id == key then 1 else 0
moves key (advance known l i h) = if l.line_id == key then 1 else 0
moves key (activate l c head generation h) = if l.line_id == key then 1 else 0

unfoldable pub updates : {t t' : Tables} → String → Reach t t' → ℕ
updates key here = 0
updates key (next r s) = updates key r + moves key s

-- What the three updates have in common.
abbrev Updates : ExperimentLine → String → ℕ → Tables → Tables → Type 0
Updates l head generation t t' =
    (a : ExperimentLine) × (read_experiment_line l.line_id t ≡ ok a)
    × (validate_line_update a l head generation ≡ ok tt)
    × (t'.lines ≡ set_line l head generation t.lines)

swap-Updates :
    (l : ExperimentLine) (head : String) (generation : ℕ) (t t' : Tables)
    → compare_and_swap_experiment_line l head generation t ≡ ok t'
    → Updates l head generation t t'
unfolding compare_and_swap_experiment_line update_line
swap-Updates l head generation t t' h = elim (Result-cases (read_experiment_line l.line_id t)) [
  | inl (a, p) ↦ (a, p, ground arith, ground arith)
  | inr (x, p) ↦ absurd (ground arith)
]

advance-Updates :
    (known : String → Bool) (l : ExperimentLine) (i : Integration) (t t' : Tables)
    → advance_experiment_line known l i t ≡ ok t'
    → Updates l i.expected_head_sha i.expected_generation t t'
unfolding advance_experiment_line update_line insert_integration
advance-Updates known l i t t' h = elim (Result-cases (read_experiment_line l.line_id t)) [
  | inl (a, p) ↦ (a, p, ground arith, ground arith)
  | inr (x, p) ↦ absurd (ground arith)
]

activate-Updates :
    (l : ExperimentLine) (c : Checkpoint) (head : String) (generation : ℕ) (t t' : Tables)
    → write_checkpoint_and_activate l c head generation t ≡ ok t'
    → Updates l head generation t t'
unfolding write_checkpoint_and_activate update_line insert_checkpoint
activate-Updates l c head generation t t' h =
    elim (Result-cases (read_experiment_line l.line_id t)) [
      | inl (a, p) ↦ (a, p, ground arith, ground arith)
      | inr (x, p) ↦ absurd (ground arith)
    ]

initialize-lines :
    (l : ExperimentLine) (c : Checkpoint) (t t' : Tables)
    → initialize_experiment_line l c t ≡ ok t'
    → t'.lines ≡ t.lines ++ line_row l ∷ []
unfolding initialize_experiment_line insert_line insert_checkpoint
initialize-lines l c t t' h = elim (Result-cases (insert_line l t)) [
  | inl (u, p) ↦ ground arith
  | inr (x, p) ↦ absurd (ground arith)
]

-- Where a line stands after some transactions: still readable, the same line, some updates on.
abbrev Stands : String → ExperimentLine → ℕ → Tables → Type 0
Stands key a n t' =
    (b : ExperimentLine) × (read_experiment_line key t' ≡ ok b)
    × (identity b ≡ identity a)
    × (b.generation ≡ a.generation + n)

-- An update of this line.
update-Stands :
    (l a : ExperimentLine) (head : String) (generation : ℕ) (t t' : Tables)
    → Updates l head generation t t'
    → read_experiment_line l.line_id t ≡ ok a
    → Stands l.line_id a 1 t'
update-Stands l a head generation t t' (c, p, v, e) h =
    let (row, f, agree, same, safe) = read-facts l.line_id t c p in
    let v' : validate_line_update row.line l head generation ≡ ok tt = rw same v in
    let (at, agree') =
      updated-agrees l head generation row (find_line-key l.line_id t.lines row f) agree v' in
    let one : c ≡ a = ground arith in
    let (x, y, s, g) = validate-facts c l head generation v in
    (
      l,
      read-ok l.line_id t' _ (rw e (find_line-updated l head generation t.lines row f at)) agree'
          safe,
      rw (← one) (same_line-identity c l s),
      rw (← one) (omega (arith, y, g)),
    )

-- An update of any line.
line-Stands :
    (key : String) (l a : ExperimentLine) (head : String) (generation : ℕ) (t t' : Tables)
    → Updates l head generation t t'
    → read_experiment_line key t ≡ ok a
    → Stands key a (if l.line_id == key then 1 else 0) t'
line-Stands key l a head generation t t' u h = elim (Bool-cases (l.line_id == key)) [
  | inl y ↦
      let e : l.line_id ≡ key = (eq_iff l.line_id key).0 y in
      rw y (rw (← e) (update-Stands l a head generation t t' u (rw e h)))
  | inr n ↦
      let (c, p, v, e) = u in
      let (row, f, agree, same, safe) = read-facts key t a h in
      rw n (
        row.line,
        read-ok key t' row (rw e (find_line-set_line key l head generation t.lines row n f)) agree
            safe,
        rw same refl,
        rw same (omega arith),
      )
]

Step-Stands :
    (key : String) (a : ExperimentLine) (t t' : Tables) (s : Step t t')
    → read_experiment_line key t ≡ ok a
    → Stands key a (moves key s) t'
Step-Stands key a t t' (initialize l c i) h =
    let (row, f, agree, same, safe) = read-facts key t a h in
    (
      row.line,
      read-ok key t' row
          (rw (initialize-lines l c t t' i) (find_line-append_one key t.lines _ row f)) agree safe,
      rw same refl,
      rw same (omega arith),
    )
Step-Stands key a t t' (swap l head generation u) h =
    line-Stands key l a head generation t t' (swap-Updates l head generation t t' u) h
Step-Stands key a t t' (advance known l i u) h =
    line-Stands key l a _ _ t t' (advance-Updates known l i t t' u) h
Step-Stands key a t t' (activate l c head generation u) h =
    line-Stands key l a head generation t t' (activate-Updates l c head generation t t' u) h

-- A line that can be read can be read after any transactions that commit, on any lines: it has the
-- line id, study, branch, base, remote and creation time that it had, and its generation has grown
-- by the number of the updates of this line among them.
pub line_history :
    (key : String) (a : ExperimentLine) (t t' : Tables) (r : Reach t t')
    → read_experiment_line key t ≡ ok a
    → (b : ExperimentLine) × (read_experiment_line key t' ≡ ok b)
      × (identity b ≡ identity a)
      × (b.generation ≡ a.generation + updates key r)
unfolding updates
line_history key a t t' here h = (a, h, refl, omega arith)
line_history key a t t' (next {u = u} r s) h =
    let (b, p, i, g) = line_history key a t u r h in
    let (c, q, j, k) = Step-Stands key b u t' s p in (c, q, j ∙ i, omega (arith, g, k))

-- Once a compare-and-swap of a line commits, whatever transactions commit after it, no
-- compare-and-swap of that line that expects the same generation commits again.
pub swapped_once :
    (l d : ExperimentLine) (head head' : String) (generation : ℕ) (t u v w : Tables)
    → compare_and_swap_experiment_line l head generation t ≡ ok u
    → Reach u v
    → d.line_id ≡ l.line_id
    → compare_and_swap_experiment_line d head' generation v ≢ ok w
swapped_once l d head head' generation t u v w h r e again =
    let upd = swap-Updates l head generation t u h in
    let (a, p, x, y) = upd in
    let (b, q, i, g) = update-Stands l a head generation t u upd p in
    let (c, q', i', g') = line_history l.line_id b u v r q in
    let (c', p', v', e') = swap-Updates d head' generation v w again in
    let k : read_experiment_line l.line_id v ≡ ok c' = rw (← e) p' in
    let same : c' ≡ c = ground arith in
    let c_gen : c'.generation ≡ c.generation = rw same refl in
    let (a0, a1, a2, a3) = validate-facts a l head generation x in
    let (f0, f1, f2, f3) = validate-facts c' d head' generation v' in
    omega (arith, f1, c_gen, g', g, a1)
