-- ===== src/Prelude/Decimals.antt =====
-- `str(n)` for a number: its decimal digits, and what they determine.
use Prim.Native.Nat.{ℕ, zero, suc, ◌+◌, ◌-◌, ◌*◌, ◌/◌, ◌%◌, ◌<◌}
use mathlib.Core.Path.{◌≡◌, refl, ap, ◌∙◌, sym}
use mathlib.Core.Bool.{Bool, true, false}
use mathlib.Core.Logic.{inl, inr}
use mathlib.Core.List.{[], ◌∷◌, ◌++◌}
use native.Mathlib.Omega.{arith}
use secure_messenger.Prelude.Tests.{◌==◌, ltb, if◌then◌else◌, Bool-cases}
use secure_messenger.Prelude.Lists.{any}
use secure_messenger.Prelude.Texts.{Text, codes}

-- The digits of a number below the fuel.
unfoldable pub digits : ℕ → ℕ → Text
digits zero n = []
digits (suc f) n =
    let rest = digits f (n / 10) in if ltb n 10 then (48 + n) ∷ [] else rest ++ (48 + n % 10) ∷ []

-- f"{n}"
unfoldable pub decimal : ℕ → Text
unfolding digits
decimal n = digits (suc n) n

decimal_example : decimal 1203 ≡ codes "1203"
unfolding decimal digits
decimal_example = refl

-- Reading the digits back, from the left.
value : ℕ → Text → ℕ
value acc [] = acc
value acc (d ∷ ds) = value (10 * acc + (d - 48)) ds

value-append : (acc d : ℕ) (ds : Text) → value acc (ds ++ d ∷ []) ≡ 10 * value acc ds + (d - 48)
unfolding value
value-append acc d [] = refl
value-append acc d (e ∷ ds) = value-append (10 * acc + (e - 48)) d ds

value-digits : (f n : ℕ) → n < f → value 0 (digits f n) ≡ n
unfolding digits value
value-digits zero n h = absurd (omega arith)
value-digits (suc f) n h = elim (Bool-cases (ltb n 10)) [
  | inl small ↦ ground (arith, small)
  | inr large ↦ rw large (
      value-append 0 (48 + n % 10) (digits f (n / 10))
      ∙ ap (λ v. 10 * v + (48 + n % 10 - 48)) (value-digits f (n / 10) (ground (arith, large)))
      ∙ omega arith)
]

pub decimal-inj : (m n : ℕ) → decimal m ≡ decimal n → m ≡ n
unfolding decimal
decimal-inj m n e =
    sym (value-digits (suc m) m (omega arith))
    ∙ ap (λ t. value 0 t) e
    ∙ value-digits (suc n) n (omega arith)

-- A separator before the digits.
abbrev pub underscore : ℕ
underscore = 95

any-append :
    (p : ℕ → Bool) (s t : Text) → any p s ≡ false → any p t ≡ false → any p (s ++ t) ≡ false
any-append p [] t h k = k
any-append p (c ∷ s) t h k = ground (arith, h, any-append p s t)

digits-plain : (f n : ℕ) → any (λ c. c == underscore) (digits f n) ≡ false
unfolding digits
digits-plain zero n = refl
digits-plain (suc f) n = elim (Bool-cases (ltb n 10)) [
  | inl small ↦ rw small (ground (arith, small))
  | inr large ↦ rw large (
      any-append (λ c. c == underscore) (digits f (n / 10)) _ (digits-plain f (n / 10))
        (ground arith))
]

pub decimal-plain : (n : ℕ) → any (λ c. c == underscore) (decimal n) ≡ false
unfolding decimal
decimal-plain n = digits-plain (suc n) n

-- What stands after the last underscore.
after_last : Text → Text
after_last [] = []
after_last (c ∷ s) =
    let rest = after_last s in
    if any (λ d. d == underscore) s then rest else if c == underscore then s else c ∷ s

has_underscore : (s t : Text) → any (λ d. d == underscore) (s ++ underscore ∷ t) ≡ true
has_underscore [] t = refl
has_underscore (c ∷ s) t = ground (arith, has_underscore s t)

after_last-append :
    (s t : Text) → any (λ d. d == underscore) t ≡ false → after_last (s ++ underscore ∷ t) ≡ t
unfolding after_last
after_last-append [] t h = ground (arith, h)
after_last-append (c ∷ s) t h = ground (arith, has_underscore s t, after_last-append s t h)

-- Texts that end in an underscore and a number are equal only if the numbers are.
pub numbered-inj :
    (s t : Text) (m n : ℕ) → s ++ underscore ∷ decimal m ≡ t ++ underscore ∷ decimal n → m ≡ n
numbered-inj s t m n e = decimal-inj m n (
    sym (after_last-append s (decimal m) (decimal-plain m))
    ∙ ap after_last e
    ∙ after_last-append t (decimal n) (decimal-plain n))
