-- ===== src/Trends/Queue/Days.antt =====
-- The identifiers of the jobs of all sources on all days.
use tech_trends.Base.{
  ℕ, ◌≡◌, ◌↔◌, refl, ap, ◌∙◌, [], ◌∷◌, ◌++◌, append_assoc, sym, subst, arith, Text, units, decimal,
  decimal-All, IsDigit, All, append_split, head_eq, tail_eq,
}
use tech_trends.Common.Time.{kst_day}
use tech_trends.Common.Dates.{
  Date, date_of, date_text, two_digits, get_today_date_string, get_today_date_string_lem,
}
use tech_trends.Trends.Queue.{job_id_of}

no_dash : (b y : Text) → All IsDigit (b ++ b'-' ∷ y) → ⊥
no_dash [] y (p, ps) = omega (arith, p.0)
no_dash (d ∷ b) y (p, ps) = no_dash b y ps

-- The last dash of a text, with digits after it.
last_dash :
    (a b x y : Text)
    → All IsDigit x
    → All IsDigit y
    → a ++ b'-' ∷ x ≡ b ++ b'-' ∷ y
    → (a ≡ b) × (x ≡ y)
last_dash [] [] x y p q e = (refl, tail_eq e)
last_dash [] (d ∷ b) x y p q e = absurd (no_dash b y (subst (All IsDigit) (tail_eq e) p))
last_dash (c ∷ a) [] x y p q e = absurd (no_dash a x (subst (All IsDigit) (sym (tail_eq e)) q))
last_dash (c ∷ a) (d ∷ b) x y p q e =
    let (same, rest) = last_dash a b x y p q (tail_eq e) in
    (ap (λ h. h ∷ a) (head_eq e) ∙ ap (◌∷◌ d) same, rest)

-- A name and a date, joined by a dash.
name_date :
    (m n : Text) (t u : Date)
    → m ++ b'-' ∷ date_text t ≡ n ++ b'-' ∷ date_text u
    → (m ≡ n) × (date_text t ≡ date_text u)
unfolding date_text
name_date m n t u e =
    let (front, back) =
      append_split (m ++ b'-' ∷ decimal t.year) (n ++ b'-' ∷ decimal u.year) _ _ refl (
        append_assoc m (b'-' ∷ decimal t.year) _
        ∙ e
        ∙ sym (append_assoc n (b'-' ∷ decimal u.year) _)) in
    let (names, years) = last_dash m n _ _ (decimal-All t.year) (decimal-All u.year) front in
    (
      names,
      ap (λ y. y ++ b'-' ∷ (two_digits t.month ++ b'-' ∷ two_digits t.day)) years
          ∙ ap (λ z. decimal u.year ++ z) back,
    )

-- Two jobs have one identifier exactly when they are of one source and of one Korean day.
pub job_id_of_lem :
    (m n : Text) (s t : ℕ)
    → (job_id_of (get_today_date_string s) m ≡ job_id_of (get_today_date_string t) n)
      ↔ ((m ≡ n) × (kst_day s ≡ kst_day t))
unfolding job_id_of get_today_date_string
job_id_of_lem m n s t = (
  λ e.
      let (names, dates) = name_date m n (date_of (kst_day s)) (date_of (kst_day t)) e in
      (names, (get_today_date_string_lem s t).0 dates),
  λ h.
      ap (λ k. m ++ (units "-" ++ date_text (date_of k))) h.1
      ∙ ap (λ k. k ++ (units "-" ++ date_text (date_of (kst_day t)))) h.0,
)
