-- ===== src/Parser/Grammar/Dates.antt =====
-- engine/parser/parser.py: `_DATE_PATTERN`, and `date.fromisoformat` of a text of that form.
use quipudb.Prelude.{
  ℕ, ◌+◌, ◌-◌, ◌*◌, ◌%◌, Bool, not, ◌&&◌, ◌||◌, Option, none, some, [], ◌∷◌, leb, ◌==◌,
  if◌then◌else◌,
}
use quipudb.Parser.Chars.{Text, is_digit}
use quipudb.Parser.Ast.{Date}

-- `_DATE_PATTERN.fullmatch(value)`: the year, the month and the day.
unfoldable pub date_fields : Text → Option (ℕ × ℕ × ℕ)
date_fields (a ∷ b ∷ c ∷ d ∷ e ∷ f ∷ g ∷ h ∷ i ∷ j ∷ []) =
    if is_digit a
      && is_digit b
      && is_digit c
      && is_digit d
      && e == 45
      && is_digit f
      && is_digit g
      && h == 45
      && is_digit i
      && is_digit j
    then some (
      (a - 48) * 1000 + (b - 48) * 100 + (c - 48) * 10 + (d - 48),
      (f - 48) * 10 + (g - 48),
      (i - 48) * 10 + (j - 48),
    )
    else none
date_fields _ = none

abbrev pub is_leap : ℕ → Bool
is_leap y = y % 4 == 0 && (not (y % 100 == 0) || y % 400 == 0)

unfoldable pub days_in_month : ℕ → ℕ → ℕ
days_in_month year month =
    if month == 2
    then if is_leap year then 29 else 28
    else if month == 4 || month == 6 || month == 9 || month == 11
    then 30
    else 31

-- `date.fromisoformat`; `none` is its ValueError.
unfoldable pub from_iso : ℕ → ℕ → ℕ → Option Date
unfolding days_in_month
from_iso year month day =
    if leb 1 year && leb 1 month && leb month 12 && leb 1 day && leb day (days_in_month year month)
    then some (record { year = year; month = month; day = day })
    else none
