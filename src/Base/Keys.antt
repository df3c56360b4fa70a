-- ===== src/Base/Keys.antt =====
-- Lists whose members differ in a key, such as the rows of a table with their identifiers.
use Prim.Native.Nat.{ℕ}
use mathlib.Core.Path.{◌≡◌, refl, sym, ap, ◌∙◌, subst}
use mathlib.Core.Logic.{inl, inr, ∥∥₁_elim}
use mathlib.Core.Logic.Or
use mathlib.Core.Bool.{Bool, true}
use mathlib.Core.List.{
  List, [], ◌∷◌, ◌++◌, map, Mem, Mem-prop, Nodup, Nodup-cons, Nodup-append, map-map, mem-map,
  mem-cons_self, mem-cons_of_mem, not-mem-nil, map-append, eq-or-mem_of_mem-cons, Perm,
}
use mathlib.Core.List.Perm
use mathlib.Core.List.Nodup
use native.Mathlib.Omega.{arith}
use tech_trends.Base.Tests.{Bool-cases}
use tech_trends.Base.Lists.{keep, take, drop, take-append-drop, All}

module _ {ℓ κ} {A : Type ℓ} {B : Type κ} where
  pub Mem-map : (f : A → B) (x : A) (xs : List A) → Mem x xs → Mem (f x) (map f xs)
  Mem-map f x xs m = mem-map.1 ∣ (x, m, refl) ∣₁

module _ {ℓ} {A : Type ℓ} where
  pub Mem-keep : (p : A → Bool) (xs : List A) (x : A) → Mem x (keep p xs) → Mem x xs
  Mem-keep p [] x m = m
  Mem-keep p (y ∷ ys) x m = elim (Bool-cases (p y)) [
    | inl e ↦
        Or.elim Mem-prop (eq-or-mem_of_mem-cons (rw e at m)) (λ q. rw q mem-cons_self)
          (λ n. mem-cons_of_mem y (Mem-keep p ys x n))
    | inr e ↦ mem-cons_of_mem y (Mem-keep p ys x (rw e at m))
  ]

  pub All-of_Mem {κ} : {P : A → Type κ} (xs : List A) → ((x : A) → Mem x xs → P x) → All P xs
  All-of_Mem [] h = tt
  All-of_Mem (x ∷ xs) h = (h x mem-cons_self, All-of_Mem xs (λ y m. h y (mem-cons_of_mem x m)))

module _ {A : Type 0} (key : A → ℕ) where
  -- No two members have one key.
  abbrev pub Keyed : List A → Type 0
  Keyed xs = Nodup (map key xs)

  pub Keyed-eq :
      IsSet A → (xs : List A) → Keyed xs → (x y : A) → Mem x xs → Mem y xs → key x ≡ key y → x ≡ y
  Keyed-eq is_set [] h x y m n e = absurd (not-mem-nil m)
  Keyed-eq is_set (z ∷ zs) h x y m n e =
      let (apart, rest) = Nodup-cons.0 h in
      Or.elim (is_set x y) (eq-or-mem_of_mem-cons m)
        (λ p.
          Or.elim (is_set x y) (eq-or-mem_of_mem-cons n) (λ q. p ∙ sym q)
            (λ r.
              absurd
                (apart (subst (λ k. Mem k (map key zs)) (sym e ∙ ap key p) (Mem-map key y zs r)))))
        (λ o.
          Or.elim (is_set x y) (eq-or-mem_of_mem-cons n)
            (λ q.
              absurd (apart (subst (λ k. Mem k (map key zs)) (e ∙ ap key q) (Mem-map key x zs o))))
            (λ r. Keyed-eq is_set zs rest x y o r e))

  keys_sub :
      (ys xs : List A)
      → ((y : A) → Mem y ys → Mem y xs)
      → (k : ℕ) → Mem k (map key ys)
      → Mem k (map key xs)
  keys_sub ys xs sub k m =
      ∥∥₁_elim (mem-map.0 m) Mem-prop
        (λ (y, n, e). subst (λ j. Mem j (map key xs)) e (Mem-map key y xs (sub y n)))

  pub Keyed-keep : (p : A → Bool) (xs : List A) → Keyed xs → Keyed (keep p xs)
  Keyed-keep p [] h = h
  Keyed-keep p (x ∷ xs) h =
      let (apart, rest) = Nodup-cons.0 h in
      elim (Bool-cases (p x)) [
        | inl e ↦ rw e (
            Nodup-cons.1 (
              λ m. apart (keys_sub (keep p xs) xs (Mem-keep p xs) (key x) m),
              Keyed-keep p xs rest,
            ))
        | inr e ↦ rw e (Keyed-keep p xs rest)
      ]

  pub Keyed-perm : (xs ys : List A) → Perm xs ys → Keyed xs → Keyed ys
  Keyed-perm xs ys p h = Perm.nodup (Perm.map key p) h

  pub Keyed-take : (n : ℕ) (xs : List A) → Keyed xs → Keyed (take n xs)
  Keyed-take n xs h = Nodup.of_append_left (map key (drop n xs)) (
      subst Nodup
        (sym (ap (map key) (take-append-drop n xs)) ∙ map-append key (take n xs) (drop n xs)) h)

  pub Keyed-drop : (n : ℕ) (xs : List A) → Keyed xs → Keyed (drop n xs)
  Keyed-drop n xs h = Nodup.of_append_right (map key (take n xs)) (
      subst Nodup
        (sym (ap (map key) (take-append-drop n xs)) ∙ map-append key (take n xs) (drop n xs)) h)

  pub Keyed-of_append : (xs ys : List A) → Keyed (xs ++ ys) → Keyed xs
  Keyed-of_append xs ys h = Nodup.of_append_left (map key ys) (subst Nodup (map-append key xs ys) h)

  pub Keyed-append :
      (xs ys : List A)
      → Keyed xs
      → Keyed ys
      → ((k : ℕ) → Mem k (map key xs) → Mem k (map key ys) → ⊥)
      → Keyed (xs ++ ys)
  Keyed-append xs ys h k apart =
      subst Nodup (sym (map-append key xs ys)) (Nodup-append.1 (h, k, apart))

module _ {A B : Type 0} (key : B → ℕ) (f : A → B) where
  pub Keyed-map : (xs : List A) → Keyed (λ x. key (f x)) xs → Keyed key (map f xs)
  Keyed-map xs h = subst Nodup (sym (map-map key f xs)) h

module _ {ℓ κ} {A : Type ℓ} {P : A → Type κ} where
  pub All-Mem : ((x : A) → IsProp (P x)) → (xs : List A) → All P xs → (x : A) → Mem x xs → P x
  All-Mem prop [] h x m = absurd (not-mem-nil m)
  All-Mem prop (y ∷ ys) (p, h) x m =
      Or.elim (prop x) (eq-or-mem_of_mem-cons m) (λ e. rw e p) (All-Mem prop ys h x)

  pub All-perm : ((x : A) → IsProp (P x)) → (xs ys : List A) → Perm xs ys → All P xs → All P ys
  All-perm prop xs ys p h = All-of_Mem ys (λ y m. All-Mem prop xs h y ((Perm.mem_iff p).1 m))

module _ {ℓ κ} {A : Type ℓ} (P : A → Type κ) where
  pub All-keep_pass :
      (q : A → Bool) (xs : List A) → All (λ x. q x ≡ true → P x) xs → All P (keep q xs)
  All-keep_pass q [] h = tt
  All-keep_pass q (x ∷ xs) (p, h) = ground (arith, All-keep_pass q xs h)

module _ {ℓ κ μ} {A : Type ℓ} {B : Type κ} (P : B → Type μ) (f : A → B) where
  pub All-of_map : (xs : List A) → All (λ x. P (f x)) xs → All P (map f xs)
  All-of_map [] h = tt
  All-of_map (x ∷ xs) (p, h) = (p, All-of_map xs h)
