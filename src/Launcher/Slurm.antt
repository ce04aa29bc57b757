-- ===== src/Launcher/Slurm.antt =====
-- launcher/slurm/slurmParser.py: the parsers of salloc, sacct and sstat output.
pub mod Reports
use smart_sim.Common.{
  ℕ, suc, Bool, true, false, ◌&&◌, not, List, [], ◌∷◌, ◌++◌, Option, none, some, Text, codes,
  text_eq, mem_text, if◌then◌else◌, leb, length,
}
use smart_sim.Common.Split.{split, split_text, join, words, strip, starts_with, has_char, part}

-- words[-1] of a line that has words.
unfoldable pub last : List Text → Text
last [] = []
last (w ∷ []) = w
last (w ∷ (v ∷ ws)) = last (v ∷ ws)

granted_in : List Text → Option Text
granted_in [] = none
granted_in (line ∷ lines) =
    let rest = granted_in lines in
    if starts_with (codes "salloc: Granted job allocation") line
    then some (last (words line))
    else rest

unfoldable pub parse_salloc : Text → Option Text
unfolding granted_in
parse_salloc output = granted_in (split b'\n' output)

-- `salloc and line.startswith(salloc + suffix)`, where `salloc` is what shutil.which has found.
found_prefix : Option Text → Text → Text → Bool
found_prefix none suffix line = false
found_prefix (some []) suffix line = false
found_prefix (some (c ∷ cs)) suffix line = starts_with ((c ∷ cs) ++ suffix) line

-- The first line that is marked as an error.
error_in : Option Text → List Text → Option Text
unfolding found_prefix
error_in salloc [] = none
error_in salloc (line ∷ lines) =
    let rest = error_in salloc lines in
    let error = some (strip (part (split_text (codes "error:") line) 1)) in
    if found_prefix salloc (codes ": error:") line
    then error
    else if starts_with (codes "salloc: error:") line
    then error
    else rest

-- words[1:]
abbrev tail : List Text → List Text
tail [] = []
tail (w ∷ ws) = ws

-- The first line that comes from salloc at all.
notice_in : Option Text → List Text → Option Text
unfolding found_prefix
notice_in salloc [] = none
notice_in salloc (line ∷ lines) =
    let rest = notice_in salloc lines in
    let error = some (strip (join b' ' (tail (words line)))) in
    if found_prefix salloc (codes ": ") line
    then error
    else if starts_with (codes "salloc: ") line
    then error
    else rest

unfoldable pub parse_salloc_error : Option Text → Text → Option Text
unfolding error_in notice_in
parse_salloc_error salloc output = elim (error_in salloc (split b'\n' output)) [
  | some error ↦ some error
  | none ↦ notice_in salloc (split b'\n' output)
]

unfoldable pub jobid_exact_match : Text → Text → Bool
jobid_exact_match parsed_id job_id =
    if has_char b'.' job_id
    then text_eq parsed_id job_id
    else text_eq (part (split b'.' parsed_id) 0) job_id

unfoldable pub sacct_lines : List Text → Text → Text × Option Text
sacct_lines [] job_id = (codes "PENDING", none)
sacct_lines (line ∷ lines) job_id =
    let rest = sacct_lines lines job_id in
    let parts = split b'|' line in
    if leb 3 (length parts) && jobid_exact_match (part parts 0) job_id
    then (part parts 1, some (part (split b':' (part parts 2)) 0))
    else rest

unfoldable pub parse_sacct : Text → Text → Text × Option Text
parse_sacct output job_id = sacct_lines (split b'\n' output) job_id

unfoldable pub sstat_lines : List Text → Text → List Text
sstat_lines [] job_id = []
sstat_lines (line ∷ lines) job_id =
    let rest = sstat_lines lines job_id in
    let parts = split b'|' line in
    if leb 2 (length parts) && jobid_exact_match (part parts 0) job_id
    then part parts 1 ∷ rest
    else rest

-- list(set(nodes)), in one of the orders that Python leaves open.
unfoldable pub distinct : List Text → List Text
distinct [] = []
distinct (x ∷ xs) = let rest = distinct xs in if mem_text x rest then rest else x ∷ rest

unfoldable pub parse_sstat_nodes : Text → Text → List Text
parse_sstat_nodes output job_id = distinct (sstat_lines (split b'\n' output) job_id)

-- The loop keeps the id of the last line that names the step.
unfoldable pub step_id_lines : List Text → Text → Option Text → Option Text
step_id_lines [] step_name step_id = step_id
step_id_lines (line ∷ lines) step_name step_id =
    let parts = split b'|' line in
    let found = leb 2 (length parts) && text_eq (part parts 0) step_name in
    step_id_lines lines step_name (if found then some (part parts 1) else step_id)

unfoldable pub parse_step_id_from_sacct : Text → Text → Option Text
parse_step_id_from_sacct output step_name = step_id_lines (split b'\n' output) step_name none
