-- ===== src/Common/Text/Matchers.antt =====
-- The patterns of `sanitizeAndFilter`, over UTF-16 code units.
use mathlib.Core.List.{reverse}
use tech_trends.Base.{
  ℕ, suc, ◌+◌, ◌-◌, ◌*◌, Bool, true, false, ◌&&◌, ◌||◌, [], ◌∷◌, Option, none, some, leb, ltb, ◌==◌,
  if◌then◌else◌, Text, units, length,
}

-- What precedes the position, the unit there, what follows it.
abbrev pub Matcher : Type 0
Matcher = Option ℕ → ℕ → Text → Option (Text × ℕ)

unfoldable pub is_line_end : ℕ → Bool
is_line_end c = c == 10 || c == 13 || c == 0x2028 || c == 0x2029

-- `\s`, which is also what `trim` removes.
unfoldable pub is_space : ℕ → Bool
is_space c =
    (leb 9 c && leb c 13)
    || c == 32
    || c == 0xa0
    || c == 0x1680
    || (leb 0x2000 c && leb c 0x200a)
    || c == 0x2028
    || c == 0x2029
    || c == 0x202f
    || c == 0x205f
    || c == 0x3000
    || c == 0xfeff

-- What follows the first `c` of the line.
after_on_line : ℕ → Text → Option Text
after_on_line c [] = none
after_on_line c (d ∷ s) =
    if d == c then some s else if is_line_end d then none else after_on_line c s

abbrev before : ℕ → Option (Text × Text) → Option (Text × Text)
before d none = none
before d (some (label, rest)) = some (d ∷ label, rest)

-- The text before the first `](` of the line, and what follows.
split_label : Text → Option (Text × Text)
split_label [] = none
split_label (d ∷ []) = none
split_label (d ∷ e ∷ s) =
    if d == b']' && e == b'('
    then some ([], s)
    else if is_line_end d
    then none
    else before d (split_label (e ∷ s))

-- `label](target)`: the label, and what follows.
bracketed : Text → Option (Text × Text)
unfolding split_label after_on_line
bracketed s = elim (split_label s) [
  | none ↦ none
  | some (label, target) ↦ elim (after_on_line b')' target) [
    | none ↦ none
    | some rest ↦ some (label, rest)
  ]
]

consumed : Text → Text → ℕ
consumed s rest = length s - length rest

-- /!\[.*?\]\(.*?\)/
unfoldable pub match_image : Matcher
unfolding bracketed consumed
match_image prev c [] = none
match_image prev c (d ∷ s) =
    if c == b'!' && d == b'['
    then elim (bracketed s) [ none ↦ none | some (label, rest) ↦ some ([], consumed (d ∷ s) rest) ]
    else none

-- /\[(.*?)\]\(.*?\)/, replaced by the label
unfoldable pub match_link : Matcher
unfolding bracketed consumed
match_link prev c s =
    if c == b'['
    then elim (bracketed s) [ none ↦ none | some (label, rest) ↦ some (label, consumed s rest) ]
    else none

starts_fence : Text → Bool
starts_fence (a ∷ b ∷ c ∷ s) = a == b'`' && b == b'`' && c == b'`'
starts_fence _ = false

abbrev next : Option ℕ → Option ℕ
next none = none
next (some n) = some (suc n)

-- How many units up to the end of the next fence.
to_fence : Text → Option ℕ
unfolding starts_fence
to_fence [] = none
to_fence (a ∷ s) = if starts_fence (a ∷ s) then some 3 else next (to_fence s)

-- /```[\s\S]*?```/, replaced by a notice
unfoldable pub match_fence : Matcher
unfolding starts_fence to_fence
match_fence prev c (d ∷ e ∷ s) =
    if starts_fence (c ∷ d ∷ e ∷ s)
    then elim (to_fence s) [ none ↦ none | some n ↦ some (units "[코드 블록 생략]", n + 2) ]
    else none
match_fence prev c _ = none

-- How many units up to and with the first `>`, or all.
to_tag_end : Text → ℕ
to_tag_end [] = 0
to_tag_end (c ∷ s) = if c == b'>' then 1 else suc (to_tag_end s)

-- /<[^>]*>?/
unfoldable pub match_tag : Matcher
unfolding to_tag_end
match_tag prev c s = if c == b'<' then some ([], to_tag_end s) else none

unfoldable pub drop_spaces : Text → Text
drop_spaces [] = []
drop_spaces (c ∷ s) = if is_space c then drop_spaces s else c ∷ s

drop_one : ℕ → Text → Text
drop_one a [] = []
drop_one a (c ∷ s) = if c == a then s else c ∷ s

drop_dashes : Text → Text
drop_dashes [] = []
drop_dashes (c ∷ s) = if c == b'-' then drop_dashes s else c ∷ s

-- `:-+:?\s*\|?` at the head of the text: what follows it.
table_mark : Text → Option Text
unfolding drop_spaces drop_one drop_dashes is_space
table_mark (a ∷ b ∷ s) =
    if a == b':' && b == b'-'
    then some (drop_one b'|' (drop_spaces (drop_one b':' (drop_dashes s))))
    else none
table_mark _ = none

-- /\|?\s*:-+:?\s*\|?/
unfoldable pub match_table : Matcher
unfolding table_mark consumed
match_table prev c s = elim (table_mark (drop_spaces (drop_one b'|' (c ∷ s)))) [
  | none ↦ none
  | some rest ↦ some ([], consumed s rest)
]

at_line_end : Text → Bool
at_line_end [] = true
at_line_end (c ∷ s) = is_line_end c

after_line_end : Option ℕ → Bool
after_line_end none = true
after_line_end (some c) = is_line_end c

-- /^-{3}$/m
unfoldable pub match_rule : Matcher
unfolding drop_dashes at_line_end after_line_end is_line_end consumed
match_rule prev c s =
    let rest = drop_dashes s in
    if after_line_end prev && c == b'-' && leb 2 (consumed s rest) && at_line_end rest
    then some ([], consumed s rest)
    else none

-- The code point of a surrogate pair.
pair_point : ℕ → ℕ → Option ℕ
pair_point c d =
    if leb 0xd800 c && leb c 0xdbff && leb 0xdc00 d && leb d 0xdfff
    then some (0x10000 + (c - 0xd800) * 0x400 + (d - 0xdc00))
    else none

is_wide_emoji : ℕ → Bool
is_wide_emoji p =
    (leb 0x1f600 p && leb p 0x1f64f)
    || (leb 0x1f300 p && leb p 0x1f5ff)
    || (leb 0x1f680 p && leb p 0x1f6ff)

is_narrow_emoji : ℕ → Bool
is_narrow_emoji c = (leb 0x2600 c && leb c 0x26ff) || (leb 0x2700 c && leb c 0x27bf)

unfoldable pub match_pair : ℕ → Text → Option (Text × ℕ)
unfolding pair_point is_wide_emoji
match_pair c [] = none
match_pair c (d ∷ s) = elim (pair_point c d) [
  | none ↦ none
  | some p ↦ if is_wide_emoji p then some ([], 1) else none
]

-- /[\u{1F600}-\u{1F64F}…\u{2700}-\u{27BF}]/u
unfoldable pub match_emoji : Matcher
unfolding match_pair is_narrow_emoji
match_emoji prev c s = if is_narrow_emoji c then some ([], 0) else match_pair c s

-- In the run of spaces at the head: how many units up to and with the last line feed.
last_newline : ℕ → ℕ → Text → ℕ
last_newline seen best [] = best
last_newline seen best (c ∷ s) =
    let more = last_newline (suc seen) (if c == 10 then suc seen else best) s in
    if is_space c then more else best

-- /\n\s*\n+/, replaced by one line feed
unfoldable pub match_blank_lines : Matcher
unfolding last_newline is_space
match_blank_lines prev c s =
    let n = last_newline 0 0 s in if c == 10 && ltb 0 n then some (10 ∷ [], n) else none

unfoldable pub trim : Text → Text
unfolding drop_spaces is_space
trim s = reverse (drop_spaces (reverse (drop_spaces s)))
