-- ===== src/Settings/Walltime.antt =====
-- settings/slurmSettings.py, fmt_walltime: the wall time of Slurm and its bounds.
use Prim.Native.Nat.{◌/◌, ◌%◌}
use smart_sim.Common.{
  ℕ, ◌+◌, ◌*◌, ◌<◌, ◌≡◌, refl, [], ◌∷◌, ◌++◌, Text, codes, if◌then◌else◌, ltb, ◌==◌, arith,
  Bool-cases, inl, inr,
}
use smart_sim.Common.Decimal.{show}

-- "%02d" % n
unfoldable pub two_digits : ℕ → Text
two_digits n = if ltb n 10 then b'0' ∷ show n else show n

-- str of a timedelta without its days
unfoldable pub clock : ℕ → Text
unfolding two_digits
clock seconds =
    show (seconds / 3600)
    ++ b':' ∷ two_digits (seconds / 60 % 60)
    ++ b':' ∷ two_digits (seconds % 60)

abbrev days_text : ℕ → Text
days_text days =
    if days == 0 then [] else if days == 1 then codes "1 day, " else show days ++ codes " days, "

-- str(timedelta(seconds=total))
unfoldable pub str_timedelta : ℕ → Text
unfolding clock
str_timedelta total = days_text (total / 86400) ++ clock (total % 86400)

-- str(delta), with a zero in front if the hours of the last day have one digit
fmt_total : ℕ → Text
unfolding str_timedelta
fmt_total total =
    if ltb (total % 86400 / 3600) 10 then b'0' ∷ str_timedelta total else str_timedelta total

unfoldable pub fmt_walltime : (hours minutes seconds : ℕ) → Text
unfolding fmt_total
fmt_walltime hours minutes seconds = fmt_total (hours * 3600 + minutes * 60 + seconds)

-- The format HH:MM:SS.
abbrev pub hh_mm_ss : ℕ → ℕ → ℕ → Text
hh_mm_ss h m s = two_digits h ++ b':' ∷ two_digits m ++ b':' ∷ two_digits s

below_a_day :
    (total : ℕ)
    → total < 86400
    → fmt_total total ≡ hh_mm_ss (total / 3600) (total / 60 % 60) (total % 60)
unfolding fmt_total str_timedelta clock two_digits
below_a_day total less =
    let days : total / 86400 ≡ 0 = omega arith in
    let rest : total % 86400 ≡ total = omega arith in
    rw (fmt_total, days, rest)
      (elim (Bool-cases (ltb (total / 3600) 10)) [ inl small ↦ rw small | inr large ↦ rw large ])

-- A wall time of less than a day is printed as HH:MM:SS, with hours below 24, and minutes and seconds
-- below 60, which together are the time that was asked for.
pub fmt_walltime-bounds :
    (hours minutes seconds : ℕ)
    → hours * 3600 + minutes * 60 + seconds < 86400
    → (h : ℕ) × (m : ℕ) × (s : ℕ) × (fmt_walltime hours minutes seconds ≡ hh_mm_ss h m s)
      × (h < 24)
      × (m < 60)
      × (s < 60)
      × (h * 3600 + m * 60 + s ≡ hours * 3600 + minutes * 60 + seconds)
unfolding fmt_walltime
fmt_walltime-bounds hours minutes seconds less =
    let total = hours * 3600 + minutes * 60 + seconds in
    (
      total / 3600,
      total / 60 % 60,
      total % 60,
      below_a_day total less,
      omega arith,
      omega arith,
      omega arith,
      omega arith,
    )

-- From a day on the format is another one, and its zero stands before the days.
one_day : fmt_walltime 24 0 0 ≡ codes "01 day, 0:00:00"
unfolding fmt_walltime show
one_day = refl
