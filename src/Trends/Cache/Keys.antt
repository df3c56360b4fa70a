-- ===== src/Trends/Cache/Keys.antt =====
-- The keys of the cache, and what they are made from.
use tech_trends.Base.{
  ℕ, ◌≡◌, ◌≢◌, refl, sym, ap, ◌∙◌, Bool, true, false, [], ◌∷◌, ◌++◌, append_assoc,
  append_cancel_left, append_split, head_eq, tail_eq, arith, Text, units, decimal,
  decimal_injective, decimal-All, IsDigit, All,
}
use tech_trends.Trends.Cache.{
  trends_sources_cache_key, trend_detail_cache_key, trend_related_cache_key,
  trend_list_count_cache_key, bool_text,
}

-- What is cached.
pub data CacheKey : Type 0 where
  sources : CacheKey
  detail : ℕ → CacheKey
  related : ℕ → ℕ → CacheKey
  list_count : Text → Bool → CacheKey

abbrev pub key_text : CacheKey → Text
key_text sources = trends_sources_cache_key
key_text (detail id) = trend_detail_cache_key id
key_text (related id limit) = trend_related_cache_key id limit
key_text (list_count source is_new) = trend_list_count_cache_key source is_new

-- Digits up to a colon.
pub digits_split :
    (a b s t : Text)
    → All IsDigit a
    → All IsDigit b
    → a ++ b':' ∷ s ≡ b ++ b':' ∷ t
    → (a ≡ b) × (s ≡ t)
digits_split [] [] s t p q e = (refl, tail_eq e)
digits_split [] (d ∷ b) s t p (q, qs) e = absurd (omega (arith, head_eq e, q.0, q.1))
digits_split (c ∷ a) [] s t (p, ps) q e = absurd (omega (arith, head_eq e, p.0, p.1))
digits_split (c ∷ a) (d ∷ b) s t (p, ps) (q, qs) e =
    let (same, rest) = digits_split a b s t ps qs (tail_eq e) in
    (ap (λ h. h ∷ a) (head_eq e) ∙ ap (◌∷◌ d) same, rest)

related_injective :
    (i l j m : ℕ)
    → decimal i ++ (units ":limit:" ++ decimal l) ≡ decimal j ++ (units ":limit:" ++ decimal m)
    → (i ≡ j) × (l ≡ m)
related_injective i l j m e =
    let (same, rest) = digits_split (decimal i) (decimal j) _ _ (decimal-All i) (decimal-All j) e in
    (
      decimal_injective i j same,
      decimal_injective l m (append_cancel_left (units "limit:") (decimal l) (decimal m) rest),
    )

ends_differ : (s t : Text) → s ++ units ":true" ≢ t ++ units ":false"
ends_differ s t e =
    let (same, ends) =
      append_split (s ++ units ":") (t ++ units ":f") (units "true") (units "alse") refl (
        append_assoc s (units ":") (units "true")
        ∙ e
        ∙ sym (append_assoc t (units ":f") (units "alse"))) in
    omega (arith, head_eq ends)

pub list_count_injective :
    (s t : Text) (a b : Bool)
    → s ++ (units ":" ++ bool_text a) ≡ t ++ (units ":" ++ bool_text b)
    → (s ≡ t) × (a ≡ b)
list_count_injective s t true true e = ((append_split s t _ _ refl e).0, refl)
list_count_injective s t false false e = ((append_split s t _ _ refl e).0, refl)
list_count_injective s t true false e = absurd (ends_differ s t e)
list_count_injective s t false true e = absurd (ends_differ t s (sym e))

kinds_differ : (c d : ℕ) (s t : Text) → c ≢ d → units "trends:" ++ c ∷ s ≢ units "trends:" ++ d ∷ t
kinds_differ c d s t h e = h (head_eq (append_cancel_left (units "trends:") (c ∷ s) (d ∷ t) e))

-- Keys are the same text only if they stand for the same thing: the list of sources, the article, the
-- related articles with their limit, or the count with its source and filter.
pub key_text_injective : (j k : CacheKey) → key_text j ≡ key_text k → j ≡ k
unfolding trends_sources_cache_key trend_detail_cache_key trend_related_cache_key
    trend_list_count_cache_key
key_text_injective sources sources e = refl
key_text_injective sources (detail j) e =
    absurd (kinds_differ b's' b'd' _ _ (λ p. omega (arith, p)) e)
key_text_injective sources (related j m) e =
    absurd (kinds_differ b's' b'r' _ _ (λ p. omega (arith, p)) e)
key_text_injective sources (list_count t b) e =
    absurd (kinds_differ b's' b'c' _ _ (λ p. omega (arith, p)) e)
key_text_injective (detail i) sources e =
    absurd (kinds_differ b'd' b's' _ _ (λ p. omega (arith, p)) e)
key_text_injective (detail i) (detail j) e =
    ap detail (
      decimal_injective i j (append_cancel_left (units "trends:detail:") (decimal i) (decimal j) e))
key_text_injective (detail i) (related j m) e =
    absurd (kinds_differ b'd' b'r' _ _ (λ p. omega (arith, p)) e)
key_text_injective (detail i) (list_count t b) e =
    absurd (kinds_differ b'd' b'c' _ _ (λ p. omega (arith, p)) e)
key_text_injective (related i l) sources e =
    absurd (kinds_differ b'r' b's' _ _ (λ p. omega (arith, p)) e)
key_text_injective (related i l) (detail j) e =
    absurd (kinds_differ b'r' b'd' _ _ (λ p. omega (arith, p)) e)
key_text_injective (related i l) (related j m) e =
    let (p, q) = related_injective i l j m (append_cancel_left (units "trends:related:") _ _ e) in
    ap (λ n. related n l) p ∙ ap (related j) q
key_text_injective (related i l) (list_count t b) e =
    absurd (kinds_differ b'r' b'c' _ _ (λ p. omega (arith, p)) e)
key_text_injective (list_count s a) sources e =
    absurd (kinds_differ b'c' b's' _ _ (λ p. omega (arith, p)) e)
key_text_injective (list_count s a) (detail j) e =
    absurd (kinds_differ b'c' b'd' _ _ (λ p. omega (arith, p)) e)
key_text_injective (list_count s a) (related j m) e =
    absurd (kinds_differ b'c' b'r' _ _ (λ p. omega (arith, p)) e)
key_text_injective (list_count s a) (list_count t b) e =
    let (p, q) = list_count_injective s t a b (append_cancel_left (units "trends:count:") _ _ e) in
    ap (λ x. list_count x a) p ∙ ap (list_count t) q
