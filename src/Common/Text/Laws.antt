-- ===== src/Common/Text/Laws.antt =====
-- The signs and the length of a sanitised text.
use mathlib.Core.List.{reverse_aux}
use tech_trends.Base.{
  ℕ, zero, suc, ◌≤◌, ◌<◌, ◌⊎◌, ◌++◌, refl, sym, ◌≡◌, ◌≢◌, inl, inr, [], ◌∷◌, Option, none, some,
  arith, ltb, ◌==◌, Bool-cases, Option-cases, Text, units, length, take, All, All-take, All-append,
}
use tech_trends.Common.Text.{replace_from, clean, sanitize_and_filter}
use tech_trends.Common.Text.Matchers.{
  Matcher, match_tag, match_table, match_rule, match_emoji, match_blank_lines, trim, drop_spaces,
}

module _ (P : ℕ → Type 0) where
  -- A matcher whose replacements hold only good units, where the text holds only such.
  abbrev Keeps : Matcher → Type 0
  Keeps m =
      (prev : Option ℕ) (c : ℕ) (s out : Text) (skip : ℕ)
      → m prev c s ≡ some (out, skip)
      → All P out

  replace_from-All :
      (m : Matcher)
      → Keeps m
      → (prev : Option ℕ) (skip : ℕ) (s : Text) → All P s
      → All P (replace_from m prev skip s)
  unfolding replace_from
  replace_from-All m k prev skip [] h = tt
  replace_from-All m k prev (suc skip) (c ∷ s) (p, h) = replace_from-All m k (some c) skip s h
  replace_from-All m k prev zero (c ∷ s) (p, h) = elim (Option-cases (m prev c s)) [
    | inl e ↦ rw (e, replace_from) (p, replace_from-All m k (some c) zero s h)
    | inr ((out, skip), e) ↦
        rw (e, replace_from)
          (All-append P out _ (k prev c s out skip e) (replace_from-All m k (some c) skip s h))
  ]

  All-drop_spaces : (s : Text) → All P s → All P (drop_spaces s)
  unfolding drop_spaces
  All-drop_spaces [] h = tt
  All-drop_spaces (c ∷ s) (p, h) = ground (arith, All-drop_spaces s h)

  All-reverse_aux : (s t : Text) → All P s → All P t → All P (reverse_aux s t)
  All-reverse_aux [] t h k = k
  All-reverse_aux (c ∷ s) t (p, h) k = All-reverse_aux s (c ∷ t) h (p, k)

  All-trim : (s : Text) → All P s → All P (trim s)
  unfolding trim
  All-trim s h =
      All-reverse_aux _ [] (All-drop_spaces _ (All-reverse_aux _ [] (All-drop_spaces s h) tt)) tt

abbrev NoTag : ℕ → Type 0
NoTag c = c ≢ b'<'

replace_tags :
    (prev : Option ℕ) (skip : ℕ) (s : Text) → All NoTag (replace_from match_tag prev skip s)
unfolding replace_from match_tag
replace_tags prev skip [] = tt
replace_tags prev (suc skip) (c ∷ s) = replace_tags (some c) skip s
replace_tags prev zero (c ∷ s) = elim (Bool-cases (c == b'<')) [
  | inl e ↦ rw (e, replace_from, match_tag) (replace_tags (some c) _ s)
  | inr e ↦ rw (e, replace_from, match_tag) (ground arith, replace_tags (some c) zero s)
]

match_table-Keeps : Keeps NoTag match_table
unfolding match_table
match_table-Keeps prev c s out skip e = ground arith

match_rule-Keeps : Keeps NoTag match_rule
unfolding match_rule
match_rule-Keeps prev c s out skip e = ground arith

match_emoji-Keeps : Keeps NoTag match_emoji
unfolding match_emoji
match_emoji-Keeps prev c [] out skip e = ground arith
match_emoji-Keeps prev c (d ∷ s) out skip e = ground arith

match_blank_lines-Keeps : Keeps NoTag match_blank_lines
unfolding match_blank_lines
match_blank_lines-Keeps prev c s out skip e = ground arith

clean-NoTag : (s : Text) → All NoTag (clean s)
unfolding clean
clean-NoTag s = All-trim NoTag _ (
    replace_from-All NoTag _ match_blank_lines-Keeps none 0 _ (
      replace_from-All NoTag _ match_emoji-Keeps none 0 _ (
        replace_from-All NoTag _ match_rule-Keeps none 0 _
          (replace_from-All NoTag _ match_table-Keeps none 0 _ (replace_tags none 0 _)))))

clean_empty : clean [] ≡ []
unfolding clean replace_from trim drop_spaces
clean_empty = refl

clean_nil : (limit : ℕ) → length (clean []) ≤ limit
clean_nil limit = rw clean_empty (omega arith)

-- Whatever the scraped text, the sanitised one holds no `<`, so no tag is left to reach a prompt. A
-- cleaned text of at most the limit is kept whole; of a longer one, the first `limit` units are kept,
-- with three dots after them.
pub sanitize_and_filter-NoTag :
    (markdown : Text) (limit : ℕ)
    → All (λ c. c ≢ b'<') (sanitize_and_filter markdown limit)
      × (((length (clean markdown) ≤ limit) × (sanitize_and_filter markdown limit ≡ clean markdown))
          ⊎ ((limit < length (clean markdown))
              × (sanitize_and_filter markdown limit ≡ take limit (clean markdown) ++ units "...")))
unfolding sanitize_and_filter
sanitize_and_filter-NoTag [] limit = (tt, inl (clean_nil limit, sym clean_empty))
sanitize_and_filter-NoTag (c ∷ s) limit = elim (Bool-cases (ltb limit (length (clean (c ∷ s))))) [
  | inl cut ↦ rw cut (
    All-append NoTag _ _ (All-take NoTag limit _ (clean-NoTag (c ∷ s))) (omega arith),
    inr (ground arith, refl),
  )
  | inr whole ↦ rw whole (clean-NoTag (c ∷ s), inl (ground arith, refl))
]
