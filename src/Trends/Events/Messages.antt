-- ===== src/Trends/Events/Messages.antt =====
-- The announcement to the users: which articles it lists, and how long it is.
use tech_trends.Base.{
  ℕ, zero, suc, ◌+◌, ◌≤◌, ◌<◌, ◌≡◌, sym, ap, ◌∙◌, inl, inr, List, [], ◌∷◌, ◌++◌, append_assoc,
  append-nil, arith, ltb, Bool-cases, subst, length, take, length-append, Text,
}
use tech_trends.Trends.Data.{SavedArticleInfo}
use tech_trends.Trends.Events.{append_str, more_str, append_from, header_str, user_message}

-- The lines of the articles, the first of which has index `idx`.
abbrev pub lines : Text → ℕ → List SavedArticleInfo → Text
lines base_url idx [] = []
lines base_url idx (a ∷ rest) = append_str base_url idx a ++ lines base_url (suc idx) rest

-- The notice of how many are not listed.
abbrev pub left_str : ℕ → Text
left_str zero = []
left_str (suc n) = more_str (suc n)

-- The message lists the first articles, in order, as many as fit into 1800 units together with
-- `message`, and says how many more there are.
pub record Lists (base_url : Text) (idx : ℕ) (articles : List SavedArticleInfo) (message out : Text)
    : Type 0 where
  pub shown : ℕ
  pub left : ℕ
  pub all : shown + left ≡ length articles
  pub text : out ≡ (message ++ lines base_url idx (take shown articles)) ++ left_str left
  pub fits : length (message ++ lines base_url idx (take shown articles)) ≤ 1800
  pub greedy : 0 < left → 1800 < length (message ++ lines base_url idx (take (suc shown) articles))

append_from-Lists :
    (base_url : Text) (idx : ℕ) (articles : List SavedArticleInfo) (message : Text)
    → length message ≤ 1800
    → Lists base_url idx articles message (append_from base_url idx articles message)
unfolding append_from
append_from-Lists base_url idx [] message h = record {
  shown = 0;
  left = 0;
  all = omega arith;
  text = sym (append-nil (message ++ []) ∙ append-nil message);
  fits = omega (arith, length-append {A = ℕ} message []);
  greedy = λ p. absurd (omega arith);
}
append_from-Lists base_url idx (a ∷ rest) message h =
    let line = append_str base_url idx a in
    let size = length-append message line in
    elim (Bool-cases (ltb 1800 (length message + length line))) [
      | inl full ↦
          rw (full, append_from)
            (record {
              shown = 0;
              left = suc (length rest);
              all = omega arith;
              text = ap (λ m. m ++ more_str (suc (length rest))) (sym (append-nil message));
              fits = omega (arith, length-append {A = ℕ} message []);
              greedy =
                  λ p. ground (arith, length-append message (line ++ []), length-append line []);
            })
      | inr fits ↦
          let more = append_from-Lists base_url (suc idx) rest (message ++ line) (ground arith) in
          rw (fits, append_from)
            (record {
              shown = suc more.shown;
              left = more.left;
              all = omega (arith, more.all);
              text =
                  more.text
                  ∙ ap (λ m. m ++ left_str more.left)
                      (append_assoc message line (following more.shown));
              fits =
                  subst (λ m. length m ≤ 1800) (append_assoc message line (following more.shown))
                    more.fits;
              greedy = λ p.
                  subst (λ m. 1800 < length m)
                    (append_assoc message line (following (suc more.shown))) (more.greedy p);
            })
    ]
  where
    following : ℕ → Text
    following n = lines base_url (suc idx) (take n rest)

-- Where the heading fits, the message to the users lists the first articles of the day, in order, as
-- many as fit into 1800 units with it, and ends with the number of those that are left, if any.
pub user_message-Lists :
    (base_url source_name : Text) (a : SavedArticleInfo) (rest : List SavedArticleInfo)
    → length (header_str source_name) ≤ 1800
    → Lists base_url 0
        (a ∷ rest)
        (header_str source_name)
        (user_message base_url source_name (a ∷ rest))
unfolding user_message
user_message-Lists base_url source_name a rest h =
    append_from-Lists base_url 0 (a ∷ rest) (header_str source_name) h
