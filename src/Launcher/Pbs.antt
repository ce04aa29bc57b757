-- ===== src/Launcher/Pbs.antt =====
-- launcher/pbs/pbsParser.py: the parsers of qsub and qstat output that read plain text. The ones that
-- read JSON stand on json.loads and are left aside.
use smart_sim.Common.{
  ◌&&◌, List, [], ◌∷◌, Option, none, some, Text, codes, text_eq, if◌then◌else◌, leb, length,
}
use smart_sim.Common.Split.{split, words, strip, starts_with, part}

abbrev pub parse_qsub : Text → Text
parse_qsub output = output

-- The first line that qsub has marked.
unfoldable pub qsub_error_in : List Text → Option Text
qsub_error_in [] = none
qsub_error_in (line ∷ lines) =
    let rest = qsub_error_in lines in
    if starts_with (codes "qsub:") line then some (strip (part (split b':' line) 1)) else rest

-- The first line, which a split always has, else the text for no line.
abbrev first_line : List Text → Text
first_line [] = codes "PBS run error"
first_line (line ∷ lines) = strip line

unfoldable pub parse_qsub_error : Text → Text
unfolding qsub_error_in
parse_qsub_error output = elim (qsub_error_in (split b'\n' output)) [
  | some error ↦ error
  | none ↦ first_line (split b'\n' output)
]

unfoldable pub qstat_lines : List Text → Text → Option Text
qstat_lines [] job_id = none
qstat_lines (line ∷ lines) job_id =
    let rest = qstat_lines lines job_id in
    let fields = words line in
    if leb 5 (length fields) && text_eq (part fields 0) job_id then some (part fields 4) else rest

unfoldable pub parse_qstat_jobid : Text → Text → Option Text
unfolding qstat_lines
parse_qstat_jobid output job_id = qstat_lines (split b'\n' output) job_id
