-- ===== src/Stream.antt =====
-- What the code uses of `std::stringstream` (Common/include/Marshaller.h, `ArgumentToType` and
-- `TypeToArgument`): `<<` and `>>` for `int`, `long` and `DWORD` in the default, decimal format.
-- `>>` skips white space; at the end of the text it leaves the variable as it was. Else it reads a
-- sign and digits up to the first other byte: with no digit it stores 0, and out of range the
-- nearest bound.
pub mod Digits
pub mod RoundTrip
use dcom.Base.{
  ℕ, zero, suc, ◌+◌, ◌-◌, ◌*◌, ◌/◌, ◌%◌, ◌^◌, ◌≡◌, refl, Bool, true, false, ◌&&◌, ◌||◌, List, [],
  ◌∷◌, ◌++◌, Option, none, some, Bytes, codes, leb, ◌==◌, if◌then◌else◌, ℤ, pos, negsuc,
}

-- The decimal digits of `n` before `out`, last digit first; the fuel is more than the rounds.
digits : ℕ → ℕ → Bytes → Bytes
digits zero n out = out
digits (suc f) n out =
    let grown = (b'0' + n % 10) ∷ out in
    elim (n / 10 == 0) [ true ↦ grown | false ↦ digits f (n / 10) grown ]

unfoldable pub print_nat : ℕ → Bytes
unfolding digits
print_nat n = digits (suc n) n []

-- `stream << t` for an `int` or a `long`.
unfoldable pub print_int : ℤ → Bytes
unfolding print_nat
print_int (pos n) = print_nat n
print_int (negsuc n) = b'-' ∷ print_nat (suc n)

is_space : ℕ → Bool
is_space c = c == 32 || (leb 9 c && leb c 13)

is_digit : ℕ → Bool
is_digit c = leb b'0' c && leb c b'9'

unfoldable pub skip_space : Bytes → Bytes
unfolding is_space
skip_space [] = []
skip_space (c ∷ s) = if is_space c then skip_space s else c ∷ s

abbrev value_or_zero : Option ℕ → ℕ
value_or_zero none = 0
value_or_zero (some n) = n

-- The number that the leading digits spell behind `acc`; `none` is "no digit".
unfoldable pub scan_digits : Bytes → Option ℕ → Option ℕ
unfolding is_digit
scan_digits [] acc = acc
scan_digits (c ∷ s) acc =
    if is_digit c then scan_digits s (some (value_or_zero acc * 10 + (c - b'0'))) else acc

abbrev pub long_max : ℕ
long_max = 2 ^ 31 - 1

abbrev pub dword_max : ℕ
dword_max = 2 ^ 32 - 1

to_long : Option ℕ → ℤ
to_long none = pos 0
to_long (some n) = if leb n long_max then pos n else pos long_max

to_negative_long : Option ℕ → ℤ
to_negative_long none = pos 0
to_negative_long (some zero) = pos 0
to_negative_long (some (suc n)) = if leb n long_max then negsuc n else negsuc long_max

get_long : ℕ → Bytes → ℤ
unfolding scan_digits to_long to_negative_long
get_long c s =
    if c == b'-'
    then to_negative_long (scan_digits s none)
    else if c == b'+'
    then to_long (scan_digits s none)
    else to_long (scan_digits (c ∷ s) none)

-- `stream >> t` for an `int` or a `long` that holds `t`.
unfoldable pub extract_int : ℤ → Bytes → ℤ
unfolding skip_space get_long
extract_int t s = elim (skip_space s) [ [] ↦ t | c ∷ r ↦ get_long c r ]

to_dword : Option ℕ → ℕ
to_dword none = 0
to_dword (some n) = if leb n dword_max then n else dword_max

-- A minus sign negates in the unsigned type.
to_negative_dword : Option ℕ → ℕ
to_negative_dword none = 0
to_negative_dword (some n) = if leb n dword_max then (2 ^ 32 - n) % 2 ^ 32 else dword_max

get_dword : ℕ → Bytes → ℕ
unfolding scan_digits to_dword to_negative_dword
get_dword c s =
    if c == b'-'
    then to_negative_dword (scan_digits s none)
    else if c == b'+'
    then to_dword (scan_digits s none)
    else to_dword (scan_digits (c ∷ s) none)

-- `stream >> t` for a `DWORD` that holds `t`.
unfoldable pub extract_dword : ℕ → Bytes → ℕ
unfolding skip_space get_dword
extract_dword t s = elim (skip_space s) [ [] ↦ t | c ∷ r ↦ get_dword c r ]

prints : (print_int (pos 94087) ≡ codes "94087") × (print_int (negsuc 0) ≡ codes "-1")
unfolding print_int
prints = (refl, refl)

extracts :
    (extract_int (pos 7) (codes " -12x") ≡ negsuc 11)
    × (extract_int (pos 7) (codes "x") ≡ pos 0)
    × (extract_int (pos 7) (codes "  ") ≡ pos 7)
    × (extract_int (pos 7) (codes "4294967296") ≡ pos 2147483647)
unfolding extract_int
extracts = (refl, refl, refl, refl)
