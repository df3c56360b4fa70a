-- ===== src/Trends/Events/Notices.antt =====
-- The requests that the end of a job leads to.
use tech_trends.Base.{
  ◌≤◌, ◌≡◌, refl, inl, inr, [], ◌∷◌, Option, none, some, arith, ltb, Bool-cases, length, take,
  length-take, length-append, All, All-append, Text, units,
}
use tech_trends.Trends.Data.{ScrapeJobResult}
use tech_trends.Trends.Events.{
  safe_message, Host, ReturnValue, read_result, source_of, today_saved_articles, message_for,
  notify_user, with_count, admin_message, send_notification, on_completed,
}

-- Discord takes at most 2000.
pub safe_message-le : (message : Text) → length (safe_message message) ≤ 2000
unfolding safe_message
safe_message-le message = elim (Bool-cases (ltb 2000 (length message))) [
  | inl long ↦
      rw (long, safe_message)
        (omega (
          arith,
          length-take 1950 message,
          length-append (take 1950 message) (units "\n\n... (길이 초과로 절삭됨)"),
        ))
  | inr short ↦ rw (short, safe_message) (ground arith)
]

abbrev pub Accepted : Text × Text → Type 0
Accepted p = length p.1 ≤ 2000

module _ (h : Host) where
  send_notification-All :
      (message : Text) (url : Option Text) (s : h.State)
      → All Accepted (send_notification h message url s).0
        × (length (send_notification h message url s).0 ≤ 1)
  unfolding send_notification
  send_notification-All message none s = (tt, omega arith)
  send_notification-All message (some []) s = (tt, omega arith)
  send_notification-All message (some (c ∷ url)) s = ((safe_message-le message, tt), omega arith)

  notify_user-All :
      (message : Text) (s : h.State)
      → All Accepted (notify_user h message s).0 × (length (notify_user h message s).0 ≤ 1)
  notify_user-All [] s = (tt, omega arith)
  notify_user-All (c ∷ message) s = send_notification-All (c ∷ message) h.user_webhook_url s

  -- However the calls end, a job that has ended well leads to at most two requests, each of at most
  -- 2000 units; and the last thing that happens is that the cache of the sources is dropped.
  pub on_completed_lem :
      (parse : Text → Option ScrapeJobResult) (job_id : Text) (value : ReturnValue) (s : h.State)
      → let o = on_completed h parse job_id value s in
        All (λ p. length p.1 ≤ 2000) o.0
        × (length o.0 ≤ 2)
        × ((t : h.State) × (o.1 ≡ (h.invalidate_sources t).1))
  unfolding on_completed
  on_completed_lem parse job_id value s =
      let source_name = source_of (read_result parse value) in
      let found = today_saved_articles h source_name s in
      let (admin, one) =
        send_notification-All (admin_message job_id (with_count h source_name (length found.0)))
          h.admin_webhook_url found.1 in
      let (user, more) = notify_user-All (message_for h source_name found.0) _ in
      (
        All-append Accepted _ _ admin user,
        omega (arith, one, more, length-append {A = Text × Text} _ _),
        (_, refl),
      )
