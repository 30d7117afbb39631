-- ===== src/Format.antt =====
-- How a parameter becomes text and text a parameter: `TypeToArgument` and `ArgumentToType` of
-- Common/include/Marshaller.h, at the types that the program uses. A `std::string` is copied whole.
-- The form in which a stream writes a `HANDLE` (a `void *`) is up to the compiler's library, so it
-- is a parameter of the model, `Platform`.
use dcom.Base.{ℕ, ◌<◌, ◌≤◌, ◌≡◌, refl, Bytes, Lacks, length, ℤ, IsInt}
use dcom.Constants.{handle_count}
use dcom.Stream.RoundTrip.{extract-print_int, extract-print_dword, print_nat-Lacks, print_int-Lacks}
use dcom.Stream.{print_nat, print_int, extract_int, extract_dword, dword_max}
use dcom.Tokenize.{wire_delimiter}

-- `extract t s` is `ArgumentToType<T>(t, s)`: what the variable holds after it, if it held `t`.
pub record Format {ℓ} (T : Type ℓ) : Type ℓ where
  pub print : T → Bytes
  pub extract : T → Bytes → T

abbrev pub int_format : Format ℤ
int_format = record { print = print_int; extract = extract_int }

abbrev pub dword_format : Format ℕ
dword_format = record { print = print_nat; extract = extract_dword }

abbrev pub string_format : Format Bytes
string_format = record { print = λ t. t; extract = λ t s. s }

-- The value comes through its text, and the text can stand between delimiters.
pub record Carries {ℓ} {T : Type ℓ} (f : Format T) (v : T) : Type ℓ where
  pub reads_back : (t : T) → f.extract t (f.print v) ≡ v
  pub undelimited : Lacks wire_delimiter (f.print v)

pub Carries-int : (v : ℤ) → IsInt v → Carries int_format v
Carries-int v h = record {
  reads_back = λ t. extract-print_int t v h;
  undelimited = print_int-Lacks v;
}

pub Carries-dword : (n : ℕ) → n ≤ dword_max → Carries dword_format n
Carries-dword n h = record {
  reads_back = λ t. extract-print_dword t n h;
  undelimited = print_nat-Lacks n;
}

pub Carries-string : (s : Bytes) → Lacks wire_delimiter s → Carries string_format s
Carries-string s h = record { reads_back = λ t. refl; undelimited = h }

-- What the compiler's library does with a `HANDLE`: it reads back every address that it wrote, and
-- writes none with a question mark, a zero byte, or more than 32 characters.
pub record Platform : Type 0 where
  pub handle_format : Format ℕ
  pub handle_carries : (h : ℕ) → h < handle_count → Carries handle_format h
  pub handle_clean : (h : ℕ) → h < handle_count → Lacks 0 (handle_format.print h)
  pub handle_short : (h : ℕ) → h < handle_count → length (handle_format.print h) ≤ 32
