-- ===== src/Base/Texts.antt =====
-- Text as JavaScript has it: a list of UTF-16 code units. `"…".length` is `length`.
use Prim.Native.Nat.{ℕ, ◌+◌, ◌-◌, ◌/◌, ◌%◌}
use Prim.Native.Char.{code}
use Prim.Native.String.{String}
use mathlib.Core.Path.{◌≡◌, refl, ap, ◌∙◌}
use mathlib.Core.Logic.{◌↔◌}
use mathlib.Core.Bool.{Bool, true, false, ◌&&◌}
use mathlib.Core.List.{List, [], ◌∷◌, ◌++◌}
use mathlib.Core.Option.{Option, none, some}
use native.Mathlib.Omega.{arith}
use tech_trends.Base.Lists.{length, length-append}
use tech_trends.Base.Tests.{ltb, ◌==◌, if◌then◌else◌, ==_iff}

abbrev pub Text : Type 0
Text = List ℕ

-- The code units of one code point: a surrogate pair beyond the basic plane.
abbrev pub code_units : ℕ → Text
code_units c =
    if ltb c 0x10000
    then c ∷ []
    else (0xd800 + (c - 0x10000) / 0x400) ∷ (0xdc00 + (c - 0x10000) % 0x400) ∷ []

-- A literal of the source.
abbrev pub units : String → Text
units String.[] = []
units (String.◌∷◌ c s) = code_units (code c) ++ units s

abbrev pub text_eq : Text → Text → Bool
text_eq [] [] = true
text_eq [] (d ∷ t) = false
text_eq (c ∷ s) [] = false
text_eq (c ∷ s) (d ∷ t) = c == d && text_eq s t

pub text_eq_iff : (s t : Text) → (text_eq s t ≡ true) ↔ (s ≡ t)
text_eq_iff [] [] = ground arith
text_eq_iff [] (d ∷ t) = ground arith
text_eq_iff (c ∷ s) [] = ground arith
text_eq_iff (c ∷ s) (d ∷ t) = ground (arith, text_eq_iff s t, ==_iff c d)

pub text_eq_refl : (s : Text) → text_eq s s ≡ true
text_eq_refl s = (text_eq_iff s s).1 refl

-- `set.has(x)` and `array.includes(x)`.
abbrev pub contains : Text → List Text → Bool
contains x [] = false
contains x (y ∷ ys) = if text_eq x y then true else contains x ys

-- `text.includes(part)`.
abbrev pub starts_with : Text → Text → Bool
starts_with [] s = true
starts_with (c ∷ part) [] = false
starts_with (c ∷ part) (d ∷ s) = c == d && starts_with part s

abbrev pub includes : Text → Text → Bool
includes [] part = starts_with part []
includes (c ∷ s) part = if starts_with part (c ∷ s) then true else includes s part

-- `Map<string, V>`: an association list in insertion order, where `set` on a present key
-- overwrites in place.
module _ {ℓ} {V : Type ℓ} where
  abbrev pub lookup : Text → List (Text × V) → Option V
  lookup k [] = none
  lookup k ((j, v) ∷ m) = if text_eq k j then some v else lookup k m

  abbrev pub insert : Text → V → List (Text × V) → List (Text × V)
  insert k v [] = (k, v) ∷ []
  insert k v ((j, w) ∷ m) = if text_eq k j then (j, v) ∷ m else (j, w) ∷ insert k v m

  abbrev pub remove : Text → List (Text × V) → List (Text × V)
  remove k [] = []
  remove k ((j, w) ∷ m) = if text_eq k j then m else (j, w) ∷ remove k m

  pub lookup-insert :
      (j k : Text) (v : V) (m : List (Text × V))
      → lookup j (insert k v m) ≡ (if text_eq j k then some v else lookup j m)
  lookup-insert j k v [] = refl
  lookup-insert j k v ((i, w) ∷ m) =
      ground (arith, text_eq_iff j k, text_eq_iff k i, text_eq_iff j i, lookup-insert j k v m)

pub tail_eq : {c d : ℕ} {s t : Text} → ◌≡◌ {A = Text} (c ∷ s) (d ∷ t) → s ≡ t
tail_eq p = cc

pub head_eq : {c d : ℕ} {s t : Text} → ◌≡◌ {A = Text} (c ∷ s) (d ∷ t) → c ≡ d
head_eq p = cc

-- A text and what follows it, of one length.
pub append_split : (s t x y : Text) → length x ≡ length y → s ++ x ≡ t ++ y → (s ≡ t) × (x ≡ y)
append_split [] [] x y l e = (refl, e)
append_split [] (d ∷ t) x y l e = absurd (omega (arith, ap length e, length-append (d ∷ t) y, l))
append_split (c ∷ s) [] x y l e = absurd (omega (arith, ap length e, length-append (c ∷ s) x, l))
append_split (c ∷ s) (d ∷ t) x y l e =
    let (same, rest) = append_split s t x y l (tail_eq e) in
    (ap (λ h. h ∷ s) (head_eq e) ∙ ap (◌∷◌ d) same, rest)
