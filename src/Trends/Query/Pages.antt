-- ===== src/Trends/Query/Pages.antt =====
-- The pages of a list: `totalPages` with the offsets that the repository skips.
use native.Mathlib.Nat.{div-mul-le_self, le-div_iff_mul-le, div-lt_iff_lt-mul, lt-div-mul-add}
use tech_trends.Base.{ℕ, zero, suc, ◌+◌, ◌-◌, ◌*◌, ◌/◌, ◌≤◌, ◌<◌, ◌≡◌, sym, subst, arith}
use tech_trends.Trends.Query.{total_pages, page_offset}

-- The row of this index is on the page.
abbrev pub IsOn : ℕ → ℕ → ℕ → Type 0
IsOn limit page i = (page_offset page limit ≤ i) × (i < page_offset page limit + limit)

page_of : ℕ → ℕ → ℕ
page_of limit i = suc (i / limit)

less_one : (q : ℕ) → suc q - 1 ≡ q
less_one q = omega arith

IsOn-page_of : (limit i : ℕ) → 0 < limit → IsOn limit (page_of limit i) i
unfolding page_offset page_of
IsOn-page_of limit i pos =
    subst (λ q. (q * limit ≤ i) × (i < q * limit + limit)) (sym (less_one (i / limit)))
      (div-mul-le_self i limit, lt-div-mul-add {a = i} pos)

page_of-le : (limit total i : ℕ) → 0 < limit → i < total → page_of limit i ≤ total_pages total limit
unfolding total_pages page_of
page_of-le limit total i pos h =
    (le-div_iff_mul-le {x = suc (i / limit)} {y = total + (limit - 1)} pos).1
      (omega (arith, div-mul-le_self i limit))

IsOn-unique : (limit i q : ℕ) → 0 < limit → IsOn limit (suc q) i → suc q ≡ page_of limit i
unfolding page_offset page_of
IsOn-unique limit i q pos on =
    let (from, below) = subst (λ r. (r * limit ≤ i) × (i < r * limit + limit)) (less_one q) on in
    omega (
      arith,
      (le-div_iff_mul-le {x = q} {y = i} pos).1 from,
      (div-lt_iff_lt-mul {x = i} {y = suc q} pos).1 (omega (arith, below)),
    )

one-le-page_of : (limit i : ℕ) → 1 ≤ page_of limit i
unfolding page_of
one-le-page_of limit i = omega arith

-- With a positive limit every row of the list is on one page of those announced, and on no other.
pub total_pages_lem :
    (limit total i : ℕ)
    → 0 < limit
    → i < total
    → (page : ℕ) × (1 ≤ page)
      × (page ≤ total_pages total limit)
      × IsOn limit page i
      × ((q : ℕ) → 1 ≤ q → IsOn limit q i → q ≡ page)
total_pages_lem limit total i pos h = (
  page_of limit i,
  one-le-page_of limit i,
  page_of-le limit total i pos h,
  IsOn-page_of limit i pos,
  only,
)
  where
    only : (q : ℕ) → 1 ≤ q → IsOn limit q i → q ≡ page_of limit i
    only zero p on = absurd (omega arith)
    only (suc q) p on = IsOn-unique limit i q pos on
