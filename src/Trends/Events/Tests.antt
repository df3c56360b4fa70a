-- ===== src/Trends/Events/Tests.antt =====
-- Announcements of two articles.
use tech_trends.Base.{
  ℕ, ◌≤◌, ◌≡◌, refl, false, [], ◌∷◌, none, some, arith, Text, units, ok, err, length, All,
}
use tech_trends.Trends.Data.{SavedArticleInfo}
use tech_trends.Trends.Events.{
  join_lines, safe_title, header_str, user_message, Host, ReturnValue, object, on_completed,
}
use tech_trends.Trends.Events.Titles.{escape_all, unescape, NoLineEnd, safe_title_lem}
use tech_trends.Trends.Events.Messages.{Lists, user_message-Lists}
use tech_trends.Trends.Events.Notices.{on_completed_lem}

abbrev title : Text
title = units "a [b]\\(c)\n\nd"

escaped : safe_title title ≡ units "a \\[b\\]\\\\\\(c\\) d"
unfolding safe_title
escaped = refl

safe_title_lem_example :
    (safe_title title ≡ escape_all (join_lines false title))
    × (unescape (safe_title title) ≡ join_lines false title)
    × All NoLineEnd (safe_title title)
safe_title_lem_example = safe_title_lem title

abbrev article : ℕ → SavedArticleInfo
article n = record { id = n; source_id = units "s"; title = title; url = units "u" }

user_message-Lists_example :
    Lists
      (units "http://localhost")
      0
      (article 7 ∷ article 8 ∷ [])
      (header_str (units "dev.to"))
      (user_message (units "http://localhost") (units "dev.to") (article 7 ∷ article 8 ∷ []))
unfolding header_str
user_message-Lists_example =
    user_message-Lists (units "http://localhost") (units "dev.to") (article 7) (article 8 ∷ [])
      (omega arith)

-- A host whose table cannot be read; the state is the time.
abbrev host : Host
host = record {
  State = ℕ;
  now = λ s. s;
  find_by_mined_at = λ p s. (err (units "no connection"), s);
  post = λ url content s. (ok tt, s);
  invalidate_sources = λ s. (ok tt, s);
  base_url = units "http://localhost";
  admin_webhook_url = some (units "https://discord.com/api/webhooks/1");
  user_webhook_url = none;
}

abbrev value : ReturnValue
value = object (record { source_name = units "dev.to"; saved_count = 0; saved_articles = [] })

on_completed_lem_example :
    let o = on_completed host (λ s. none) (units "dev.to-2026-09-05") value 1_000_000_000 in
    All (λ p. length p.1 ≤ 2000) o.0
    × (length o.0 ≤ 2)
    × ((t : ℕ) × (o.1 ≡ (host.invalidate_sources t).1))
on_completed_lem_example =
    on_completed_lem host (λ s. none) (units "dev.to-2026-09-05") value 1_000_000_000
