-- ===== src/Stream/RoundTrip.antt =====
-- `>>` reads what `<<` printed.
use dcom.Base.{
  ℕ, suc, ◌≤◌, ◌≡◌, refl, [], ◌∷◌, none, Bytes, length, arith, ℤ, pos, negsuc, IsInt, All, Lacks,
  ap, ◌∙◌,
}
use dcom.Stream.{
  print_nat, print_int, skip_space, scan_digits, to_long, to_negative_long, get_long, extract_int,
  to_dword, get_dword, extract_dword, long_max, dword_max,
}
use dcom.Stream.Digits.{
  IsDigit, print_nat-IsDigit, print_nat-cons, scan-print_nat, length-print_nat,
}

extract_int_digit :
    (d : ℤ) (c : ℕ) (s : Bytes)
    → IsDigit c
    → extract_int d (c ∷ s) ≡ to_long (scan_digits (c ∷ s) none)
unfolding extract_int
extract_int_digit d c s h = unfold skip_space get_long in ground arith

extract_dword_digit :
    (d c : ℕ) (s : Bytes)
    → IsDigit c
    → extract_dword d (c ∷ s) ≡ to_dword (scan_digits (c ∷ s) none)
unfolding extract_dword
extract_dword_digit d c s h = unfold skip_space get_dword in ground arith

extract_int-print_nat : (d : ℤ) (n : ℕ) → n ≤ long_max → extract_int d (print_nat n) ≡ pos n
extract_int-print_nat d n h =
    let (c, s, e, digit) = print_nat-cons n in
    rw (e, extract_int_digit d c s digit, ← e, scan-print_nat n) (unfold to_long in ground arith)

minus_digits :
    (d : ℤ) (s : Bytes) → extract_int d (b'-' ∷ s) ≡ to_negative_long (scan_digits s none)
unfolding extract_int
minus_digits d s = refl

-- An `int` is read back from its text, whatever the variable held before.
pub extract-print_int : (d v : ℤ) → IsInt v → extract_int d (print_int v) ≡ v
unfolding print_int
extract-print_int d (pos n) h = extract_int-print_nat d n (omega arith)
extract-print_int d (negsuc n) h =
    minus_digits d (print_nat (suc n))
    ∙ ap to_negative_long (scan-print_nat (suc n))
    ∙ (unfold to_negative_long in ground arith)

-- A `DWORD` is read back from its text, whatever the variable held before.
pub extract-print_dword : (d n : ℕ) → n ≤ dword_max → extract_dword d (print_nat n) ≡ n
extract-print_dword d n h =
    let (c, s, e, digit) = print_nat-cons n in
    rw (e, extract_dword_digit d c s digit, ← e, scan-print_nat n) (unfold to_dword in ground arith)

IsDigit-Lacks : (b : ℕ) (s : Bytes) → b'9' ≤ b → All IsDigit s → Lacks (suc b) s
IsDigit-Lacks b [] h k = tt
IsDigit-Lacks b (c ∷ s) h k = (omega arith, IsDigit-Lacks b s h k.1)

pub print_nat-Lacks : (n : ℕ) → Lacks b'?' (print_nat n)
print_nat-Lacks n = IsDigit-Lacks 62 (print_nat n) (omega arith) (print_nat-IsDigit n)

pub print_int-Lacks : (v : ℤ) → Lacks b'?' (print_int v)
unfolding print_int
print_int-Lacks (pos n) = print_nat-Lacks n
print_int-Lacks (negsuc n) = (omega arith, print_nat-Lacks (suc n))

pub length-print_int : (v : ℤ) → IsInt v → length (print_int v) ≤ 11
unfolding print_int
length-print_int (pos n) h = omega (arith, length-print_nat n (omega arith))
length-print_int (negsuc n) h = omega (arith, length-print_nat (suc n) (omega arith))

pub print_nat-clean : (n : ℕ) → Lacks 0 (print_nat n)
print_nat-clean n = go (print_nat n) (print_nat-IsDigit n)
  where
    go : (s : Bytes) → All IsDigit s → Lacks 0 s
    go [] h = tt
    go (c ∷ s) h = (omega arith, go s h.1)

pub print_int-clean : (v : ℤ) → Lacks 0 (print_int v)
unfolding print_int
print_int-clean (pos n) = print_nat-clean n
print_int-clean (negsuc n) = (omega arith, print_nat-clean (suc n))
