-- ===== src/Common/Text.antt =====
-- common/utils/text.util.ts: each regular expression of `sanitizeAndFilter` as a matcher that, at
-- one position, gives the replacement and how many units after the first one are consumed.
pub mod Matchers
pub mod Laws
use tech_trends.Base.{
  ℕ, zero, suc, ◌+◌, ◌-◌, ltb, if◌then◌else◌, Text, units, length, take, List, [], ◌∷◌, ◌++◌,
  Option, none, some,
}
use Matchers.{
  Matcher, match_image, match_link, match_fence, match_tag, match_table, match_rule, match_emoji,
  match_blank_lines, trim,
}

-- `s.replace(/…/g, …)`: the text is read from the left; a match is replaced and skipped.
unfoldable pub replace_from : Matcher → Option ℕ → ℕ → Text → Text
replace_from m prev skip [] = []
replace_from m prev (suc skip) (c ∷ s) = replace_from m (some c) skip s
replace_from m prev zero (c ∷ s) = elim (m prev c s) [
  | none ↦ c ∷ replace_from m (some c) zero s
  | some (out, skip) ↦ out ++ replace_from m (some c) skip s
]

unfoldable pub replace_all : Matcher → Text → Text
unfolding replace_from
replace_all m s = replace_from m none 0 s

-- The chain of replacements, in the source's order.
unfoldable pub clean : Text → Text
unfolding replace_all
clean markdown = trim (collapsed (bare markdown))
  where
    bare : Text → Text
    bare s =
        replace_all match_tag
          (replace_all match_fence (replace_all match_link (replace_all match_image s)))

    collapsed : Text → Text
    collapsed s =
        replace_all match_blank_lines
          (replace_all match_emoji (replace_all match_rule (replace_all match_table s)))

unfoldable pub sanitize_and_filter : Text → ℕ → Text
unfolding clean
sanitize_and_filter [] limit = []
sanitize_and_filter (c ∷ s) limit =
    let cleaned = clean (c ∷ s) in
    if ltb limit (length cleaned) then take limit cleaned ++ units "..." else cleaned
