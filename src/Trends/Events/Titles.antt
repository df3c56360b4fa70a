-- ===== src/Trends/Events/Titles.antt =====
-- The escaping of a title.
use tech_trends.Base.{
  ℕ, ◌≡◌, ◌≢◌, All, subst, refl, sym, ap, ◌∙◌, inl, inr, Bool, true, false, ◌||◌, [], ◌∷◌, arith,
  ◌==◌, if◌then◌else◌, Bool-cases, Text,
}
use tech_trends.Trends.Events.{join_lines, escape, escape_signs, safe_title}

abbrev pub is_sign : ℕ → Bool
is_sign c = c == 92 || c == b'`' || c == b'[' || c == b']' || c == b'(' || c == b')'

-- All signs escaped in one pass.
abbrev pub escape_all : Text → Text
escape_all [] = []
escape_all (c ∷ s) = let rest = escape_all s in if is_sign c then 92 ∷ c ∷ rest else c ∷ rest

-- What a reader of the escaped text sees.
abbrev pub unescape : Text → Text
unescape [] = []
unescape (c ∷ []) = c ∷ []
unescape (c ∷ d ∷ s) =
    let pair = unescape s in let one = unescape (d ∷ s) in if c == 92 then d ∷ pair else c ∷ one

escape_signs-escape_all : (s : Text) → escape_signs s ≡ escape_all s
unfolding escape_signs escape
escape_signs-escape_all [] = refl
escape_signs-escape_all (c ∷ s) = ground (arith, escape_signs-escape_all s)

unescape-cons : (c : ℕ) (s : Text) → (c == 92) ≡ false → unescape (c ∷ s) ≡ c ∷ unescape s
unescape-cons c [] h = refl
unescape-cons c (d ∷ s) h = rw h

unescape-escape_all : (s : Text) → unescape (escape_all s) ≡ s
unescape-escape_all [] = refl
unescape-escape_all (c ∷ s) = elim (Bool-cases (is_sign c)) [
  | inl sign ↦ rw sign (ap (◌∷◌ c) (unescape-escape_all s))
  | inr plain ↦
      rw plain (unescape-cons c (escape_all s) (ground arith) ∙ ap (◌∷◌ c) (unescape-escape_all s))
]

abbrev pub NoLineEnd : ℕ → Type 0
NoLineEnd c = (c ≢ 10) × (c ≢ 13)

join_lines-All : (run : Bool) (s : Text) → All NoLineEnd (join_lines run s)
unfolding join_lines
join_lines-All run [] = tt
join_lines-All run (c ∷ s) = elim (Bool-cases (c == 10 || c == 13)) [
  | inr other ↦ rw (other, join_lines) ((ground arith, ground arith), join_lines-All false s)
  | inl end ↦ elim (Bool-cases run) [
    | inl going ↦ rw (end, going, join_lines) (join_lines-All true s)
    | inr begun ↦ rw (end, begun, join_lines) ((omega arith, omega arith), join_lines-All true s)
  ]
]

escape_all-All : (s : Text) → All NoLineEnd s → All NoLineEnd (escape_all s)
escape_all-All [] h = tt
escape_all-All (c ∷ s) (p, h) = elim (Bool-cases (is_sign c)) [
  | inl sign ↦ rw sign ((omega arith, omega arith), (p, escape_all-All s h))
  | inr plain ↦ rw plain (p, escape_all-All s h)
]

-- A title as it is announced: the chain of replacements escapes each of the six signs once, as one
-- pass would; a reader sees the title, each run of line ends as one space; and no line end is left.
pub safe_title_lem :
    (title : Text)
    → (safe_title title ≡ escape_all (join_lines false title))
      × (unescape (safe_title title) ≡ join_lines false title)
      × All NoLineEnd (safe_title title)
unfolding safe_title
safe_title_lem title =
    let e = escape_signs-escape_all (join_lines false title) in
    (
      e,
      ap unescape e ∙ unescape-escape_all (join_lines false title),
      subst (All NoLineEnd) (sym e) (escape_all-All _ (join_lines-All false title)),
    )
