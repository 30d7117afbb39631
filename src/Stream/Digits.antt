-- ===== src/Stream/Digits.antt =====
-- The decimal digits that `<<` prints, and what `>>` reads of them.
use dcom.Base.{
  ℕ, zero, suc, ◌+◌, ◌-◌, ◌*◌, ◌/◌, ◌%◌, ◌^◌, ◌≤◌, ◌<◌, ◌≡◌, refl, ◌⊎◌, inl, inr, [], ◌∷◌, Option,
  none, some, Bytes, length, arith, ap, sym, Bool-cases, ◌==◌, All,
}
use native.Mathlib.Nat.{pow-suc}
use mathlib.Core.Path.{subst}
use dcom.Stream.{digits, print_nat, value_or_zero, scan_digits}

abbrev pub IsDigit : ℕ → Type 0
IsDigit c = (b'0' ≤ c) × (c ≤ b'9')

abbrev StartsDigit : Bytes → Type 0
StartsDigit [] = ⊥
StartsDigit (c ∷ s) = IsDigit c

-- One round of the loop: it stops at the last digit, and else goes on with the others.
digits_step :
    (f n : ℕ) (out : Bytes)
    → ((n < 10) × (digits (suc f) n out ≡ (b'0' + n % 10) ∷ out))
      ⊎ ((10 ≤ n) × (digits (suc f) n out ≡ digits f (n / 10) ((b'0' + n % 10) ∷ out)))
unfolding digits
digits_step f n out = elim (Bool-cases (n / 10 == 0)) [
  | inl e ↦ inl (ground arith, ground arith)
  | inr e ↦ inr (ground arith, ground arith)
]

digits-StartsDigit : (f n c : ℕ) (out : Bytes) → IsDigit c → StartsDigit (digits f n (c ∷ out))
digits-StartsDigit zero n c out h = unfold digits in h
digits-StartsDigit (suc f) n c out h = elim (digits_step f n (c ∷ out)) [
  | inl (_, e) ↦ subst StartsDigit (sym e) (omega arith)
  | inr (_, e) ↦
      subst StartsDigit (sym e)
        (digits-StartsDigit f (n / 10) (b'0' + n % 10) (c ∷ out) (omega arith))
]

print_nat-StartsDigit : (n : ℕ) → StartsDigit (print_nat n)
unfolding print_nat
print_nat-StartsDigit n = elim (digits_step n n []) [
  | inl (_, e) ↦ subst StartsDigit (sym e) (omega arith)
  | inr (_, e) ↦
      subst StartsDigit (sym e) (digits-StartsDigit n (n / 10) (b'0' + n % 10) [] (omega arith))
]

digits-All : (f n : ℕ) (out : Bytes) → All IsDigit out → All IsDigit (digits f n out)
digits-All zero n out h = unfold digits in h
digits-All (suc f) n out h = elim (digits_step f n out) [
  | inl (_, e) ↦ subst (All IsDigit) (sym e) ((omega arith, omega arith), h)
  | inr (_, e) ↦
      subst (All IsDigit) (sym e)
        (digits-All f (n / 10) ((b'0' + n % 10) ∷ out) ((omega arith, omega arith), h))
]

pub print_nat-IsDigit : (n : ℕ) → All IsDigit (print_nat n)
unfolding print_nat
print_nat-IsDigit n = digits-All (suc n) n [] tt

-- One more digit is read.
scan_digit :
    (c : ℕ) (s : Bytes) (acc : Option ℕ)
    → IsDigit c
    → scan_digits (c ∷ s) acc ≡ scan_digits s (some (value_or_zero acc * 10 + (c - b'0')))
unfolding scan_digits
scan_digit c s acc h = ground arith

scan-digits :
    (f n : ℕ) (out : Bytes) → n < f → scan_digits (digits f n out) none ≡ scan_digits out (some n)
scan-digits zero n out h = absurd (omega arith)
scan-digits (suc f) n out h = elim (digits_step f n out) [
  | inl (small, e) ↦
      let whole : 0 * 10 + (b'0' + n % 10 - b'0') ≡ n = omega arith in
      rw (e, scan_digit (b'0' + n % 10) out none (omega arith))
        (ap (scan_digits out) (ap some whole))
  | inr (large, e) ↦
      let whole : n / 10 * 10 + (b'0' + n % 10 - b'0') ≡ n = omega arith in
      rw
        (
          e,
          scan-digits f (n / 10) ((b'0' + n % 10) ∷ out) (omega arith),
          scan_digit (b'0' + n % 10) out (some (n / 10)) (omega arith),
        )
        (ap (scan_digits out) (ap some whole))
]

-- The digits that are printed are read back.
pub scan-print_nat : (n : ℕ) → scan_digits (print_nat n) none ≡ some n
unfolding print_nat
scan-print_nat n = rw (scan-digits (suc n) n [] (omega arith)) (unfold scan_digits in refl)

-- A printed number begins with a digit.
pub print_nat-cons : (n : ℕ) → (c : ℕ) × (s : Bytes) × (print_nat n ≡ c ∷ s) × IsDigit c
print_nat-cons n = go (print_nat n) refl (print_nat-StartsDigit n)
  where
    go :
        (t : Bytes)
        → print_nat n ≡ t
        → StartsDigit t
        → (c : ℕ) × (s : Bytes) × (print_nat n ≡ c ∷ s) × IsDigit c
    go [] e h = absurd h
    go (c ∷ s) e h = (c, s, e, h)

-- A number below a power of ten has as many digits at most.
length-digits :
    (k f n : ℕ) (out : Bytes) → n < 10 ^ suc k → length (digits f n out) ≤ suc k + length out
length-digits k zero n out h = unfold digits in omega arith
length-digits zero (suc f) n out h = elim (digits_step f n out) [
  | inl (_, e) ↦ omega (arith, ap length e)
  | inr (large, e) ↦ absurd (omega arith)
]
length-digits (suc k) (suc f) n out h = elim (digits_step f n out) [
  | inl (_, e) ↦ omega (arith, ap length e)
  | inr (_, e) ↦ omega (
    arith,
    ap length e,
    length-digits k f (n / 10) ((b'0' + n % 10) ∷ out) (omega (arith, pow-suc 10 (suc k))),
  )
]

pub length-print_nat : (n : ℕ) → n < 10 ^ 10 → length (print_nat n) ≤ 10
unfolding print_nat
length-print_nat n h = omega (arith, length-digits 9 (suc n) n [] h)
