-- ===== src/Common/Dates.antt =====
-- common/utils/time.util.ts: `getTodayDateString`, with the calendar that `Intl.DateTimeFormat` counts
-- by: the date of a day is the one after the date of the day before, from 1970-01-01 on.
use tech_trends.Base.{
  ℕ, zero, suc, ◌+◌, ◌*◌, ◌/◌, ◌%◌, ◌≤◌, ◌<◌, ◌≡◌, ◌↔◌, refl, ap, inl, inr, Bool, false, Bool-cases,
  not, ◌||◌, ltb, leb, ◌&&◌, List, ◌==◌, ==_iff, if◌then◌else◌, [], ◌∷◌, ◌++◌, arith, Text, decimal,
  decimal_injective, append_split, head_eq, tail_eq,
}
use tech_trends.Common.Time.{kst_day}

pub record Date : Type 0 where
  pub year : ℕ
  pub month : ℕ
  pub day : ℕ

abbrev contains_number : ℕ → List ℕ → Bool
contains_number n [] = false
contains_number n (m ∷ ms) = n == m || contains_number n ms

-- February has 29 days in a year that 4 divides, unless 100 divides it and 400 does not.
abbrev pub february : ℕ → ℕ
february year = if (year % 400 == 0) || (year % 4 == 0 && not (year % 100 == 0)) then 29 else 28

-- 31 days, but for February and the months number 4, 6, 9 and 11.
unfoldable pub days_in_month : ℕ → ℕ → ℕ
days_in_month year month =
    if month == 2
    then february year
    else (if contains_number month (4 ∷ 6 ∷ 9 ∷ 11 ∷ []) then 30 else 31)

abbrev pub first_of : ℕ → ℕ → Date
first_of year month = record { year = year; month = month; day = 1 }

abbrev pub next_date : Date → Date
next_date t =
    let next_month =
      if ltb t.month 12 then first_of t.year (t.month + 1) else first_of (t.year + 1) 1 in
    if leb (days_in_month t.year t.month) t.day then next_month else record t { day = t.day + 1 }

-- The date of the day that comes so many days after 1970-01-01.
unfoldable pub date_of : ℕ → Date
date_of zero = record { year = 1970; month = 1; day = 1 }
date_of (suc n) = next_date (date_of n)

-- `month: '2-digit'`, for a number below 100.
abbrev pub two_digits : ℕ → Text
two_digits n = (b'0' + n / 10) ∷ (b'0' + n % 10) ∷ []

-- The order of the parts and their separators in the locale en-CA.
unfoldable pub date_text : Date → Text
date_text t = decimal t.year ++ b'-' ∷ (two_digits t.month ++ b'-' ∷ two_digits t.day)

unfoldable pub get_today_date_string : ℕ → Text
get_today_date_string now = date_text (date_of (kst_day now))

-- A date of the calendar.
pub record IsDate (t : Date) : Type 0 where
  pub month_ge : 1 ≤ t.month
  pub month_le : t.month ≤ 12
  pub day_ge : 1 ≤ t.day
  pub day_le : t.day ≤ days_in_month t.year t.month

days_in_month_range : (y m : ℕ) → (28 ≤ days_in_month y m) × (days_in_month y m ≤ 31)
unfolding days_in_month
days_in_month_range y m = ground arith

-- The day after a date: in its month, in the next one, or in the next year.
data Next (t : Date) : Date → Type 0 where
  in_month : t.day < days_in_month t.year t.month → Next t (record t { day = t.day + 1 })
  in_year :
      days_in_month t.year t.month ≤ t.day → t.month < 12 → Next t (first_of t.year (t.month + 1))
  after_year :
      days_in_month t.year t.month ≤ t.day → 12 ≤ t.month → Next t (first_of (t.year + 1) 1)

next_date-Next : (t : Date) → Next t (next_date t)
next_date-Next t = elim (Bool-cases (leb (days_in_month t.year t.month) t.day)) [
  | inr inside ↦ rw inside (in_month (ground arith))
  | inl last ↦ elim (Bool-cases (ltb t.month 12)) [
    | inl more ↦ rw (last, more) (in_year (ground arith) (ground arith))
    | inr december ↦ rw (last, december) (after_year (ground arith) (ground arith))
  ]
]

Next-IsDate : {t u : Date} → Next t u → IsDate t → IsDate u
Next-IsDate {t} (in_month h) valid = record {
  month_ge = valid.month_ge;
  month_le = valid.month_le;
  day_ge = omega arith;
  day_le = omega (arith, h);
}
Next-IsDate {t} (in_year h k) valid = record {
  month_ge = omega arith;
  month_le = omega (arith, k);
  day_ge = omega arith;
  day_le = omega (arith, days_in_month_range t.year (t.month + 1));
}
Next-IsDate {t} (after_year h k) valid = record {
  month_ge = omega arith;
  month_le = omega arith;
  day_ge = omega arith;
  day_le = omega (arith, days_in_month_range (t.year + 1) 1);
}

pub date_of-IsDate : (n : ℕ) → IsDate (date_of n)
unfolding date_of days_in_month
date_of-IsDate zero = record {
  month_ge = omega arith;
  month_le = omega arith;
  day_ge = omega arith;
  day_le = omega arith;
}
date_of-IsDate (suc n) = Next-IsDate (next_date-Next (date_of n)) (date_of-IsDate n)

-- The order of dates as a number.
abbrev rank : Date → ℕ
rank t = (t.year * 16 + t.month) * 32 + t.day

Next-rank : {t u : Date} → Next t u → IsDate t → rank t < rank u
Next-rank (in_month h) valid = omega arith
Next-rank {t} (in_year h k) valid = omega (arith, valid.day_le, days_in_month_range t.year t.month)
Next-rank {t} (after_year h k) valid =
    omega (arith, valid.day_le, valid.month_le, days_in_month_range t.year t.month)

rank-less : (m n : ℕ) → m < n → rank (date_of m) < rank (date_of n)
unfolding date_of
rank-less m zero h = absurd (omega (arith, h))
rank-less m (suc n) h = elim (Bool-cases (m == n)) [
  | inl same ↦ omega (
    arith,
    ap (λ k. rank (date_of k)) ((==_iff m n).0 same),
    Next-rank (next_date-Next (date_of n)) (date_of-IsDate n),
  )
  | inr differ ↦ omega (
    arith,
    rank-less m n (ground (arith, ==_iff m n)),
    Next-rank (next_date-Next (date_of n)) (date_of-IsDate n),
  )
]

pub date_of_injective : (m n : ℕ) → date_of m ≡ date_of n → m ≡ n
date_of_injective m n e = grind (arith, ap rank e, rank-less m n, rank-less n m)

two_digits_injective : (m n : ℕ) → two_digits m ≡ two_digits n → m < 100 → n < 100 → m ≡ n
two_digits_injective m n e p q = omega (arith, head_eq e, head_eq (tail_eq e))

pub date_text_injective : (t u : Date) → IsDate t → IsDate u → date_text t ≡ date_text u → t ≡ u
unfolding date_text
date_text_injective t u p q e =
    let (years, rest) = append_split (decimal t.year) (decimal u.year) _ _ refl e in
    let (months, days) =
      append_split (two_digits t.month) (two_digits u.month) _ _ refl (tail_eq rest) in
    date_eq (decimal_injective t.year u.year years)
      (two_digits_injective t.month u.month months (omega (arith, p.month_le))
        (omega (arith, q.month_le)))
      (two_digits_injective t.day u.day (tail_eq days)
        (omega (arith, p.day_le, days_in_month_range t.year t.month))
        (omega (arith, q.day_le, days_in_month_range u.year u.month)))
  where
    date_eq : t.year ≡ u.year → t.month ≡ u.month → t.day ≡ u.day → t ≡ u
    date_eq a b c = cc

-- Two instants have one date text exactly when they fall on one Korean day.
pub get_today_date_string_lem :
    (s t : ℕ) → (get_today_date_string s ≡ get_today_date_string t) ↔ (kst_day s ≡ kst_day t)
unfolding get_today_date_string
get_today_date_string_lem s t = (
  λ e. date_of_injective _ _ (date_text_injective _ _ (date_of-IsDate _) (date_of-IsDate _) e),
  ap (λ k. date_text (date_of k)),
)
