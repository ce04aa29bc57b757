-- ===== src/Launcher/Sge.antt =====
-- launcher/sge/sgeParser.py: the parsers of qsub and qacct output. The one of qstat stands on an XML
-- parser and is left aside.
use smart_sim.Common.{
  ℕ, ◌≡◌, refl, Bool, false, ◌||◌, ◌&&◌, List, [], ◌∷◌, Option, none, some, Text, codes,
  if◌then◌else◌, ◌==◌, leb, get_elem?,
}
use smart_sim.Common.Split.{split, words, strip, starts_with, has_text, part, push}

abbrev pub parse_qsub : Text → Text
parse_qsub output = output

unfoldable pub qsub_error_in : List Text → Option Text
qsub_error_in [] = none
qsub_error_in (line ∷ lines) =
    let rest = qsub_error_in lines in
    if starts_with (codes "qsub:") line then some (strip (part (split b':' line) 1)) else rest

abbrev first_line : List Text → Text
first_line [] = codes "PBS run error"
first_line (line ∷ lines) = strip line

unfoldable pub parse_qsub_error : Text → Text
unfolding qsub_error_in
parse_qsub_error output = elim (qsub_error_in (split b'\n' output)) [
  | some error ↦ error
  | none ↦ first_line (split b'\n' output)
]

-- The line boundaries of str.splitlines().
abbrev ends_line : ℕ → Bool
ends_line c =
    (leb 10 c && leb c 13)
    || ((leb 28 c && leb c 30) || ((c == 133) || ((c == 8232) || (c == 8233))))

-- What a line boundary puts before the later lines; `after_cr` tells that a carriage return stands
-- before it, with which a newline makes one boundary.
lines_from : Bool → Text → List Text
lines_from after_cr [] = []
lines_from after_cr (x ∷ xs) =
    let ended = [] ∷ lines_from (x == 13) xs in
    let longer = push x (lines_from false xs) in
    let joined = lines_from false xs in
    if after_cr && (x == 10) then joined else if ends_line x then ended else longer

-- text.splitlines()
unfoldable pub splitlines : Text → List Text
unfolding lines_from
splitlines = lines_from false

-- The word of a line, or the number 1.
pub data FieldValue : Type 0 where
  word : Text → FieldValue
  one : FieldValue

-- `none` where the line has one word only, on which Python raises IndexError.
field_in : List Text → Text → Option FieldValue
field_in [] field_name = some one
field_in (line ∷ lines) field_name =
    let rest = field_in lines field_name in
    if has_text field_name line
    then elim (get_elem? (words line) 1) [ none ↦ none | some w ↦ some (word w) ]
    else rest

unfoldable pub parse_qacct_job_output : Text → Text → Option FieldValue
unfolding splitlines field_in
parse_qacct_job_output output field_name = field_in (splitlines output) field_name

splitlines-sample : splitlines (codes "a\nb\n\nc") ≡ codes "a" ∷ codes "b" ∷ [] ∷ codes "c" ∷ []
unfolding splitlines
splitlines-sample = refl
