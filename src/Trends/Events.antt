-- ===== src/Trends/Events.antt =====
-- trends-queue.events.ts: what is announced when a job has ended.
pub mod Titles
pub mod Messages
pub mod Notices
mod Tests
use tech_trends.Base.{
  ℕ, zero, suc, ◌+◌, ◌-◌, Bool, true, false, ◌||◌, List, [], ◌∷◌, ◌++◌, Option, none, some, ltb,
  ◌==◌, if◌then◌else◌, length, take, Text, units, decimal, Result, ok, err, Action,
}
use tech_trends.Common.Time.{get_today_start_utc}
use tech_trends.Trends.Data.{SavedArticleInfo, ScrapeJobResult, TechTrend}
use tech_trends.Trends.World.{Failure}
use tech_trends.Trends.Repository.{find_saved_since}

-- `replace(/[\r\n]+/g, ' ')`; the flag says that a run of line ends has begun.
unfoldable pub join_lines : Bool → Text → Text
join_lines run [] = []
join_lines run (c ∷ s) =
    let in_run = join_lines true s in
    let after = join_lines false s in
    if c == 10 || c == 13 then (if run then in_run else 32 ∷ in_run) else c ∷ after

-- One replacement of a sign by a backslash and the sign.
unfoldable pub escape : ℕ → Text → Text
escape sign [] = []
escape sign (c ∷ s) = let rest = escape sign s in if c == sign then 92 ∷ sign ∷ rest else c ∷ rest

-- The six replacements after the first, in the source's order.
unfoldable pub escape_signs : Text → Text
unfolding escape
escape_signs s = escape b')' (escape b'(' (escape b']' (escape b'[' (escape b'`' (escape 92 s)))))

unfoldable pub safe_title : Text → Text
unfolding join_lines escape_signs
safe_title title = escape_signs (join_lines false title)

-- The line of the article at index `idx`.
unfoldable pub append_str : Text → ℕ → SavedArticleInfo → Text
unfolding safe_title
append_str base_url idx article =
    units "\n"
    ++ (decimal (idx + 1)
        ++ (units ". ["
            ++ (safe_title article.title
                ++ (units "](<"
                    ++ ((base_url ++ (units "/?id=" ++ decimal article.id)) ++ units ">)")))))

unfoldable pub more_str : ℕ → Text
more_str n = units "\n\n...외 **" ++ (decimal n ++ units "개**의 아티클이 더 있습니다.")

-- The loop over the articles, the next of which has index `idx`.
unfoldable pub append_from : Text → ℕ → List SavedArticleInfo → Text → Text
unfolding append_str more_str
append_from base_url idx [] message = message
append_from base_url idx (article ∷ rest) message =
    let line = append_str base_url idx article in
    let longer = append_from base_url (suc idx) rest (message ++ line) in
    if ltb 1800 (length message + length line)
    then message ++ more_str (suc (length rest))
    else longer

unfoldable pub header_str : Text → Text
header_str source_name = units "📢 **[" ++ (source_name ++ units "] 새로운 트렌드 아티클이 도착했습니다!**\n")

unfoldable pub user_message : Text → Text → List SavedArticleInfo → Text
unfolding append_from header_str
user_message base_url source_name [] = []
user_message base_url source_name (a ∷ rest) =
    append_from base_url 0 (a ∷ rest) (header_str source_name)

unfoldable pub admin_message : Text → Option (Text × ℕ) → Text
admin_message job_id none = units "✅ **[BullMQ 스크래퍼 성공]**\n- Job ID: `" ++ (job_id ++ units "`")
admin_message job_id (some (source_name, saved_count)) =
    (units "✅ **[BullMQ 스크래퍼 성공]**\n- Job ID: `" ++ (job_id ++ units "`"))
    ++ ((units "\n- 수집 출처: `" ++ (source_name ++ units "`"))
        ++ (units "\n- 저장 건수(오늘 누계): **" ++ (decimal saved_count ++ units "개**")))

unfoldable pub failure_message : Text → Text → Text
failure_message job_id reason =
    units "🚨 **[BullMQ 스크래퍼 실패]**\n- Job ID: `"
    ++ (job_id ++ (units "`\n- 사유: `" ++ (reason ++ units "`")))

-- Discord's limit is 2000.
unfoldable pub safe_message : Text → Text
safe_message message =
    if ltb 2000 (length message) then take 1950 message ++ units "\n\n... (길이 초과로 절삭됨)" else message

-- What the listener calls: the table, HTTP, the cache, and the settings.
pub record Host : Type 1 where
  pub State : Type 0
  pub now : State → ℕ
  pub find_by_mined_at : (TechTrend → Bool) → Action State Failure (List TechTrend)
  pub post : Text → Text → Action State Failure (Unit {0})
  pub invalidate_sources : Action State Failure (Unit {0})
  pub base_url : Text
  pub admin_webhook_url : Option Text
  pub user_webhook_url : Option Text

-- A request to a webhook, and its content.
abbrev pub Posted : Type 0
Posted = List (Text × Text)

-- The return value of a job: an object, or a text that `JSON.parse` reads or not.
pub data ReturnValue : Type 0 where
  text : Text → ReturnValue
  object : ScrapeJobResult → ReturnValue

abbrev pub read_result : (Text → Option ScrapeJobResult) → ReturnValue → Option ScrapeJobResult
read_result parse (text s) = parse s
read_result parse (object result) = some result

-- `result?.sourceName`, where it is not empty.
abbrev pub source_of : Option ScrapeJobResult → Option Text
source_of none = none
source_of (some result) = elim result.source_name [ [] ↦ none | c ∷ s ↦ some (c ∷ s) ]

abbrev pub or_no_articles : Result Failure (List SavedArticleInfo) → List SavedArticleInfo
or_no_articles (ok articles) = articles
or_no_articles (err e) = []

module _ (h : Host) where
  -- A request that fails is logged, and forgotten; without an address there is none.
  unfoldable pub send_notification : Text → Option Text → h.State → Posted × h.State
  unfolding safe_message
  send_notification message none s = ([], s)
  send_notification message (some []) s = ([], s)
  send_notification message (some (c ∷ url)) s =
      let content = safe_message message in
      (((c ∷ url), content) ∷ [], (h.post (c ∷ url) content s).1)

  abbrev pub today_saved_articles : Option Text → h.State → List SavedArticleInfo × h.State
  today_saved_articles none s = ([], s)
  today_saved_articles (some source_name) s =
      let (found, t) =
        find_saved_since h.find_by_mined_at source_name (get_today_start_utc (h.now s)) s in
      (or_no_articles found, t)

  abbrev pub with_count : Option Text → ℕ → Option (Text × ℕ)
  with_count none n = none
  with_count (some source_name) n = some (source_name, n)

  abbrev pub message_for : Option Text → List SavedArticleInfo → Text
  message_for none articles = []
  message_for (some source_name) articles = user_message h.base_url source_name articles

  -- An empty message is not sent to the users.
  abbrev pub notify_user : Text → h.State → Posted × h.State
  notify_user [] s = ([], s)
  notify_user (c ∷ message) s = send_notification (c ∷ message) h.user_webhook_url s

  -- Both requests, then the cache of the sources, whose failure is ignored.
  unfoldable pub on_completed :
      (Text → Option ScrapeJobResult) → Text → ReturnValue → h.State → Posted × h.State
  unfolding send_notification
  on_completed parse job_id value s =
      let source_name = source_of (read_result parse value) in
      let (articles, t) = today_saved_articles source_name s in
      let (to_admin, u) =
        send_notification (admin_message job_id (with_count source_name (length articles)))
          h.admin_webhook_url t in
      let (to_user, v) = notify_user (message_for source_name articles) u in
      (to_admin ++ to_user, (h.invalidate_sources v).1)

  unfoldable pub on_failed : Text → Text → h.State → Posted × h.State
  unfolding send_notification
  on_failed job_id reason s =
      send_notification (failure_message job_id reason) h.admin_webhook_url s
