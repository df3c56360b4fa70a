-- ===== src/Common/Tests.antt =====
-- The helpers on small inputs.
use tech_trends.Base.{
  ℕ, ◌+◌, ◌≤◌, ◌<◌, ◌≡◌, ◌≢◌, ◌↔◌, refl, List, [], ◌∷◌, some, arith, units, All, length, take, ◌++◌,
  ◌⊎◌,
}
use tech_trends.Common.Chunk.{chunk_array, IsCut, chunk_array-IsCut}
use tech_trends.Common.Text.{clean, sanitize_and_filter}
use tech_trends.Common.Text.Matchers.{
  trim, match_image, match_link, match_fence, match_tag, match_table, is_line_end, match_rule,
  match_emoji, match_blank_lines,
}
use tech_trends.Common.Text.Laws.{sanitize_and_filter-NoTag}
use tech_trends.Common.Time.{day_ms, kst_day, get_today_start_utc, get_today_start_utc_lem}

chunks : chunk_array {A = ℕ} (1 ∷ 2 ∷ 3 ∷ []) 2 ≡ some ((1 ∷ 2 ∷ []) ∷ (3 ∷ []) ∷ [])
unfolding chunk_array
chunks = refl

chunk_array-IsCut_example :
    (chunks : List (List ℕ)) × (chunk_array (1 ∷ 2 ∷ 3 ∷ []) 2 ≡ some chunks)
    × IsCut (1 ∷ 2 ∷ 3 ∷ []) 2 chunks
chunk_array-IsCut_example = chunk_array-IsCut (1 ∷ 2 ∷ 3 ∷ []) 2 (omega arith)

sanitized : sanitize_and_filter (units " <p>Hi [a](b)</p> ![x](y)\n\n\nyou") 40 ≡ units "Hi a \nyou"
unfolding sanitize_and_filter trim match_image match_link match_fence match_tag match_table
    is_line_end match_rule match_emoji match_blank_lines
sanitized = refl

sanitize_and_filter-NoTag_example :
    All (λ c. c ≢ b'<') (sanitize_and_filter (units "a<b>c</b>") 1)
    × (((length (clean (units "a<b>c</b>")) ≤ 1)
          × (sanitize_and_filter (units "a<b>c</b>") 1 ≡ clean (units "a<b>c</b>")))
        ⊎ ((1 < length (clean (units "a<b>c</b>")))
            × (sanitize_and_filter (units "a<b>c</b>") 1
                ≡ take 1 (clean (units "a<b>c</b>")) ++ units "...")))
sanitize_and_filter-NoTag_example = sanitize_and_filter-NoTag (units "a<b>c</b>") 1

-- 2026-03-15 23:30 in Korea.
abbrev now : ℕ
now = 1_773_585_000_000

get_today_start_utc_lem_example :
    (get_today_start_utc now ≤ now)
    × (now < get_today_start_utc now + day_ms)
    × ((t : ℕ) → (get_today_start_utc now ≤ t) ↔ (kst_day now ≤ kst_day t))
get_today_start_utc_lem_example = get_today_start_utc_lem now (omega arith)
