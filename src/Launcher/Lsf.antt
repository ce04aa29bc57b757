-- ===== src/Launcher/Lsf.antt =====
-- launcher/lsf/lsfParser.py: the parsers of bsub, bjobs and jslist output.
use smart_sim.Common.{
  ℕ, suc, zero, ◌+◌, ◌-◌, ◌*◌, Bool, true, false, ◌&&◌, not, List, [], ◌∷◌, Option, none, some,
  Text, codes, text_eq, mem_text, if◌then◌else◌, leb, ltb, ◌==◌, length, all, get_elem?,
}
use smart_sim.Common.Split.{split, join, words, strip, starts_with, part}
use smart_sim.Common.Decimal.{show, is_digit}

-- word[1:-1]
abbrev drop_last : Text → Text
drop_last [] = []
drop_last (x ∷ []) = []
drop_last (x ∷ (y ∷ xs)) = x ∷ drop_last (y ∷ xs)

abbrev inner : Text → Text
inner [] = []
inner (x ∷ xs) = drop_last xs

-- The id in "Job <id> ..."; `none` where the line has one word only, on which Python raises
-- IndexError.
submitted_in : List Text → Option Text
submitted_in [] = some []
submitted_in (line ∷ lines) =
    let rest = submitted_in lines in
    if starts_with (codes "Job") line
    then elim (get_elem? (words line) 1) [ none ↦ none | some word ↦ some (inner word) ]
    else rest

unfoldable pub parse_bsub : Text → Option Text
unfolding submitted_in
parse_bsub output = submitted_in (split b'\n' output)

-- line.lstrip("*")
lstrip_stars : Text → Text
lstrip_stars [] = []
lstrip_stars (x ∷ xs) = let rest = lstrip_stars xs in if x == b'*' then rest else x ∷ xs

-- Whether lines are copied after this one: stars open a message and dashes close it.
copying : Bool → Text → Bool
copying copy_lines line =
    if starts_with (codes "-----------") (strip line)
    then false
    else if starts_with (codes "**") (strip line)
    then true
    else copy_lines

abbrev is_empty : Text → Bool
is_empty [] = true
is_empty (x ∷ xs) = false

error_lines : Bool → List Text → List Text
unfolding lstrip_stars copying
error_lines copy_lines [] = []
error_lines copy_lines (line ∷ lines) =
    let copy = copying copy_lines line in
    let text = strip (lstrip_stars line) in
    let rest = error_lines copy lines in if copy && not (is_empty text) then text ∷ rest else rest

abbrev error_text : Text → List Text → Text
error_text output (line ∷ lines) = strip (join b'\n' (line ∷ lines))
error_text output [] = if is_empty (strip output) then codes "LSF run error" else output

unfoldable pub parse_bsub_error : Text → Text
unfolding error_lines
parse_bsub_error output = error_text output (error_lines false (split b'\n' output))

unfoldable pub jslist_lines : List Text → Text → Text × Option Text
jslist_lines [] step_id = (codes "NOTFOUND", none)
jslist_lines (line ∷ lines) step_id =
    let rest = jslist_lines lines step_id in
    let fields = words line in
    if leb 7 (length fields) && text_eq (part fields 0) step_id
    then (part fields 6, some (part fields 5))
    else rest

unfoldable pub parse_jslist_stepid : Text → Text → Text × Option Text
unfolding jslist_lines
parse_jslist_stepid output step_id = jslist_lines (split b'\n' output) step_id

unfoldable pub bjobs_lines : List Text → Text → Text
bjobs_lines [] job_id = codes "NOTFOUND"
bjobs_lines (line ∷ lines) job_id =
    let rest = bjobs_lines lines job_id in
    let fields = words line in
    if leb 3 (length fields) && text_eq (part fields 0) job_id then part fields 2 else rest

unfoldable pub parse_bjobs_jobid : Text → Text → Text
unfolding bjobs_lines
parse_bjobs_jobid output job_id = bjobs_lines (split b'\n' output) job_id

-- list(dict.fromkeys(nodes)): the first appearance of each, in their order.
first_ones : List Text → List Text → List Text
first_ones seen [] = []
first_ones seen (x ∷ xs) =
    let rest = first_ones seen xs in
    let added = first_ones (x ∷ seen) xs in if mem_text x seen then rest else x ∷ added

-- The nodes in the sixth field of the second line; `none` where there is no such field, on which
-- Python raises IndexError.
unfoldable pub parse_bjobs_nodes : Text → Option (List Text)
unfolding first_ones
parse_bjobs_nodes output = elim (get_elem? (split b'\n' output) 1) [
  | none ↦ none
  | some line ↦ elim (get_elem? (words line) 5) [
    | none ↦ none
    | some nodes_str ↦ some (first_ones [] (split b':' nodes_str))
  ]
]

-- int(digits), most significant digit first.
abbrev pub read : ℕ → Text → ℕ
read n [] = n
read n (c ∷ cs) = read (10 * n + (c - b'0')) cs

-- text.isdigit() for the decimal digits of ASCII.
abbrev is_number : Text → Bool
is_number text = not (is_empty text) && all is_digit text

-- `(max_step_id is None) or (int(fields[0]) > max_step_id)`
abbrev larger : Option ℕ → ℕ → Option ℕ
larger none n = some n
larger (some m) n = some (if ltb m n then n else m)

unfoldable pub max_step_lines : List Text → Option ℕ → Option ℕ
max_step_lines [] max_step_id = max_step_id
max_step_lines (line ∷ lines) max_step_id =
    let fields = words line in
    let counted = leb 7 (length fields) && is_number (part fields 0) in
    let next = if counted then larger max_step_id (read 0 (part fields 0)) else max_step_id in
    max_step_lines lines (if starts_with (codes "=") line then max_step_id else next)

-- `if max_step_id`: the id 0 counts as none.
abbrev show_max : Option ℕ → Option Text
show_max none = none
show_max (some zero) = none
show_max (some (suc n)) = some (show (suc n))

unfoldable pub parse_max_step_id_from_jslist : Text → Option Text
unfolding max_step_lines
parse_max_step_id_from_jslist output = show_max (max_step_lines (split b'\n' output) none)
