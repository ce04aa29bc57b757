-- ===== src/Launcher/Slurm/Reports.antt =====
-- What the parsers of slurmParser.py read back from the reports of sacct and sstat.
use smart_sim.Common.{
  ℕ, ◌≡◌, refl, Bool, true, false, ◌&&◌, List, [], ◌∷◌, ◌++◌, Option, none, some, Text, codes,
  text_eq, if◌then◌else◌, All, arith,
}
use smart_sim.Common.Split.{has_char-append, split, has_char, split-append, split_plain, part}
use smart_sim.Launcher.Slurm.{jobid_exact_match, sacct_lines, parse_sacct}

-- The id of an allocation, or of a step in it.
pub record JobId : Type 0 where
  pub allocation : Text
  pub step : Option Text

abbrev pub id_text : JobId → Text
id_text i = elim i.step [ none ↦ i.allocation | some step ↦ i.allocation ++ b'.' ∷ step ]

-- A query by allocation finds each id of it, one by step that step alone.
abbrev step_matches : Option Text → Option Text → Bool
step_matches none parsed = true
step_matches (some a) none = false
step_matches (some a) (some b) = text_eq b a

unfoldable pub matches : JobId → JobId → Bool
matches parsed query =
    text_eq parsed.allocation query.allocation && step_matches query.step parsed.step

-- A line of sacct: the id, the state, and the exit code with a signal.
pub record Row : Type 0 where
  pub id : JobId
  pub state : Text
  pub code : Text
  pub signal : Text

-- A field of the report has none of its separators.
unfoldable pub IsField : Text → Type 0
IsField w = (has_char b'|' w ≡ false) × (has_char b'\n' w ≡ false)

unfoldable pub IsRow : Row → Type 0
unfolding IsField
IsRow r =
    IsField (id_text r.id)
    × IsField r.state
    × IsField r.code
    × IsField r.signal
    × (has_char b':' r.code ≡ false)
    × (has_char b'.' r.id.allocation ≡ false)

unfoldable pub print_row : Row → Text
print_row r = id_text r.id ++ b'|' ∷ (r.state ++ b'|' ∷ ((r.code ++ b':' ∷ r.signal) ++ b'|' ∷ []))

-- The report, each line of it ended by a newline.
unfoldable pub print : List Row → Text
print [] = []
print (r ∷ rows) = print_row r ++ b'\n' ∷ print rows

-- The state and the exit code of the first row that the query is about.
unfoldable pub first_row : List Row → JobId → Text × Option Text
first_row [] query = (codes "PENDING", none)
first_row (r ∷ rows) query =
    let rest = first_row rows query in if matches r.id query then (r.state, some r.code) else rest

-- Two texts with a separator that the parts before it lack.
parted_eq :
    (c : ℕ) (a b x y : Text)
    → has_char c a ≡ false
    → has_char c b ≡ false
    → text_eq (a ++ c ∷ x) (b ++ c ∷ y) ≡ (text_eq a b && text_eq x y)
unfolding has_char text_eq
parted_eq c [] [] x y h k = ground arith
parted_eq c [] (q ∷ b) x y h k = ground arith
parted_eq c (p ∷ a) [] x y h k = ground arith
parted_eq c (p ∷ a) (q ∷ b) x y h k = ground (arith, parted_eq c a b x y)

unparted_eq : (c : ℕ) (a b y : Text) → has_char c a ≡ false → text_eq a (b ++ c ∷ y) ≡ false
unfolding has_char text_eq
unparted_eq c [] [] y h = refl
unparted_eq c [] (q ∷ b) y h = refl
unparted_eq c (p ∷ a) [] y h = ground arith
unparted_eq c (p ∷ a) (q ∷ b) y h = ground (arith, unparted_eq c a b y)

-- What stands before the dot of an id.
split_id :
    (allocation : Text) (step : Option Text)
    → has_char b'.' allocation ≡ false
    → part (split b'.' (id_text (record { allocation = allocation; step = step }))) 0 ≡ allocation
split_id a none h = rw (split_plain b'.' a h)
split_id a (some step) h = rw (split-append b'.' a step h)

has_dot : (a step : Text) → has_char b'.' (a ++ b'.' ∷ step) ≡ true
unfolding has_char
has_dot [] step = refl
has_dot (x ∷ a) step = ground (arith, has_dot a step)

abbrev id_of : Text → Option Text → JobId
id_of a s = record { allocation = a; step = s }

-- The prefix test on the texts of two ids is the comparison of the ids.
jobid_exact_match-id_of :
    (a b : Text) (s t : Option Text)
    → has_char b'.' a ≡ false
    → has_char b'.' b ≡ false
    → jobid_exact_match (id_text (id_of a s)) (id_text (id_of b t))
      ≡ matches (id_of a s) (id_of b t)
unfolding jobid_exact_match matches
jobid_exact_match-id_of a b s none h k = ground (arith, k, split_id a s h)
jobid_exact_match-id_of a b none (some t) h k =
    ground (arith, has_dot b t, unparted_eq b'.' a b t h)
jobid_exact_match-id_of a b (some s) (some t) h k =
    ground (arith, has_dot b t, parted_eq b'.' a b s t h k)

exit_IsField : (a b : Text) → IsField a → IsField b → IsField (a ++ b':' ∷ b)
unfolding IsField has_char
exit_IsField a b h k =
    let p = has_char-append b'|' a (b':' ∷ b) in
    let q = has_char-append b'\n' a (b':' ∷ b) in (ground (arith, p), ground (arith, q))

split-print_row :
    (r : Row)
    → IsRow r
    → split b'|' (print_row r) ≡ id_text r.id ∷ r.state ∷ (r.code ++ b':' ∷ r.signal) ∷ [] ∷ []
unfolding IsRow IsField print_row split
split-print_row r (i, s, c, g, h, d) = rw (
  split-append b'|' (id_text r.id) (r.state ++ b'|' ∷ ((r.code ++ b':' ∷ r.signal) ++ b'|' ∷ []))
      i.0,
  split-append b'|' r.state ((r.code ++ b':' ∷ r.signal) ++ b'|' ∷ []) s.0,
  split-append b'|' (r.code ++ b':' ∷ r.signal) [] (exit_IsField r.code r.signal c g).0,
)

bar_in_line :
    (a b : Text)
    → has_char b'\n' a ≡ false
    → has_char b'\n' b ≡ false
    → has_char b'\n' (a ++ b'|' ∷ b) ≡ false
unfolding has_char
bar_in_line a b h k = ground (arith, has_char-append b'\n' a (b'|' ∷ b))

one_line : (r : Row) → IsRow r → has_char b'\n' (print_row r) ≡ false
unfolding IsRow IsField print_row has_char
one_line r (i, s, c, g, h, d) =
    let exit = r.code ++ b':' ∷ r.signal in
    bar_in_line (id_text r.id) (r.state ++ b'|' ∷ (exit ++ b'|' ∷ [])) i.1 (
      bar_in_line r.state (exit ++ b'|' ∷ []) s.1
        (bar_in_line exit [] (exit_IsField r.code r.signal c g).1 refl))

print_lines :
    (r : Row) (rows : List Row)
    → IsRow r
    → split b'\n' (print (r ∷ rows)) ≡ print_row r ∷ split b'\n' (print rows)
unfolding print
print_lines r rows h = split-append b'\n' (print_row r) (print rows) (one_line r h)

code_plain : (r : Row) → IsRow r → has_char b':' r.code ≡ false
unfolding IsRow
code_plain r (i, s, c, g, h, d) = h

module _ (query : JobId) (plain : has_char b'.' query.allocation ≡ false) where
  row_matches :
      (r : Row) → IsRow r → jobid_exact_match (id_text r.id) (id_text query) ≡ matches r.id query
  unfolding IsRow
  row_matches r h =
      jobid_exact_match-id_of r.id.allocation query.allocation r.id.step query.step h.5 plain

  -- A report that sacct prints for any rows is read as the state and the exit code of the first row
  -- that the query names: by the allocation, any row of it; by a step's id, that step and no other
  -- whose id starts the same way. Without such a row the answer is PENDING without a code.
  pub parse_sacct-print :
      (rows : List Row)
      → All IsRow rows
      → parse_sacct (print rows) (id_text query) ≡ first_row rows query
  unfolding parse_sacct print first_row sacct_lines split
  parse_sacct-print [] h = refl
  parse_sacct-print (r ∷ rows) (h, k) = rw (
    print_lines r rows h,
    split-print_row r h,
    row_matches r h,
    split-append b':' r.code r.signal (code_plain r h),
    parse_sacct-print rows k,
  )
