-- ===== src/Tests/Machine.antt =====
-- A platform that writes a `HANDLE` as Microsoft's library does, 16 hexadecimal digits, and an
-- allocator that never uses an address twice while it is live.
use dcom.Base.{
  ℕ, zero, suc, ◌+◌, ◌-◌, ◌*◌, ◌/◌, ◌%◌, ◌^◌, ◌≤◌, ◌<◌, ◌≡◌, ◌≢◌, refl, ◌∙◌, Bool, true, false,
  ◌&&◌, ◌||◌, inl, inr, [], ◌∷◌, Option, none, some, Bytes, All, Lacks, length, arith, ltb, leb,
  ◌==◌, if◌then◌else◌, Bool-cases,
}
use Prim.Native.Nat.{max}
use native.Mathlib.Nat.{pow-suc}
use dcom.Constants.{handle_count}
use dcom.Format.{Format, Platform, Carries}
use dcom.ObjectManager.{Heap, load, Allocator}
use dcom.Stream.{skip_space}
use dcom.Tokenize.{wire_delimiter}

unfoldable pub hex_digit : ℕ → ℕ
hex_digit d = if ltb d 10 then 48 + d else 55 + d

unfoldable pub print_hex : ℕ → ℕ → Bytes → Bytes
unfolding hex_digit
print_hex zero n out = out
print_hex (suc width) n out = print_hex width (n / 16) (hex_digit (n % 16) ∷ out)

unfoldable pub is_hex : ℕ → Bool
is_hex c = (leb 48 c && leb c 57) || (leb 65 c && leb c 70)

unfoldable pub scan_hex : Bytes → ℕ → ℕ
unfolding is_hex
scan_hex [] n = n
scan_hex (c ∷ s) n =
    if is_hex c then scan_hex s (n * 16 + (if ltb c 65 then c - 48 else c - 55)) else n

unfoldable pub extract_hex : ℕ → Bytes → ℕ
unfolding scan_hex skip_space
extract_hex t s = elim (skip_space s) [ [] ↦ t | c ∷ r ↦ scan_hex (c ∷ r) 0 ]

abbrev HexText : Bytes → Type 0
HexText s = All (λ c. is_hex c ≡ true) s

hex_digit-is_hex : (d : ℕ) → d < 16 → is_hex (hex_digit d) ≡ true
unfolding hex_digit is_hex
hex_digit-is_hex d h = ground arith

print_hex-HexText : (w n : ℕ) (out : Bytes) → HexText out → HexText (print_hex w n out)
unfolding print_hex
print_hex-HexText zero n out h = h
print_hex-HexText (suc w) n out h =
    print_hex-HexText w (n / 16) (hex_digit (n % 16) ∷ out)
      (hex_digit-is_hex (n % 16) (omega arith), h)

scan_hex_digit :
    (d n : ℕ) (s : Bytes) → d < 16 → scan_hex (hex_digit d ∷ s) n ≡ scan_hex s (n * 16 + d)
unfolding scan_hex hex_digit
scan_hex_digit d n s h = ground arith

scan-print_hex :
    (w n : ℕ) (out : Bytes) → n < 16 ^ w → scan_hex (print_hex w n out) 0 ≡ scan_hex out n
unfolding print_hex
scan-print_hex zero n out h = let e : n ≡ 0 = omega arith in rw e
scan-print_hex (suc w) n out h =
    scan-print_hex w (n / 16) (hex_digit (n % 16) ∷ out) (omega (arith, pow-suc 16 w))
    ∙ scan_hex_digit (n % 16) (n / 16) out (omega arith)
    ∙ (let e : n / 16 * 16 + n % 16 ≡ n = omega arith in rw e)

HexText-Lacks : (s : Bytes) → HexText s → Lacks wire_delimiter s
unfolding is_hex
HexText-Lacks [] h = tt
HexText-Lacks (c ∷ s) h = (ground arith, HexText-Lacks s h.1)

extract_text :
    (t : ℕ) (c : ℕ) (s : Bytes) → HexText (c ∷ s) → extract_hex t (c ∷ s) ≡ scan_hex (c ∷ s) 0
unfolding extract_hex is_hex
extract_text t c s h = ground arith

unfoldable pub hex_format : Format ℕ
unfolding print_hex extract_hex
hex_format = record { print = λ n. print_hex 16 n []; extract = extract_hex }

extract_nonempty : (t : ℕ) (s : Bytes) → s ≢ [] → HexText s → extract_hex t s ≡ scan_hex s 0
extract_nonempty t [] h k = absurd (h refl)
extract_nonempty t (c ∷ s) h k = extract_text t c s k

print_hex-nonempty : (w n c : ℕ) (out : Bytes) → print_hex w n (c ∷ out) ≢ []
unfolding print_hex
print_hex-nonempty zero n c out = λ e. cc
print_hex-nonempty (suc w) n c out = print_hex-nonempty w (n / 16) (hex_digit (n % 16)) (c ∷ out)

pub hex-Carries : (h : ℕ) → h < handle_count → Carries hex_format h
unfolding hex_format
hex-Carries h in_range = record {
  reads_back = λ t.
      extract_nonempty t (print_hex 16 h [])
        (unfold print_hex in print_hex-nonempty 15 (h / 16) (hex_digit (h % 16)) [])
        (print_hex-HexText 16 h [] tt)
      ∙ scan-print_hex 16 h [] in_range
      ∙ (unfold scan_hex in refl);
  undelimited = HexText-Lacks (print_hex 16 h []) (print_hex-HexText 16 h [] tt);
}

HexText-clean : (s : Bytes) → HexText s → Lacks 0 s
unfolding is_hex
HexText-clean [] h = tt
HexText-clean (c ∷ s) h = (ground arith, HexText-clean s h.1)

pub hex-clean : (h : ℕ) → h < handle_count → Lacks 0 (hex_format.print h)
unfolding hex_format
hex-clean h in_range = HexText-clean (print_hex 16 h []) (print_hex-HexText 16 h [] tt)

length-print_hex : (w n : ℕ) (out : Bytes) → length (print_hex w n out) ≡ w + length out
unfolding print_hex
length-print_hex zero n out = omega arith
length-print_hex (suc w) n out =
    omega (arith, length-print_hex w (n / 16) (hex_digit (n % 16) ∷ out))

pub hex-short : (h : ℕ) → h < handle_count → length (hex_format.print h) ≤ 32
unfolding hex_format
hex-short h in_range = omega (arith, length-print_hex 16 h [])

abbrev pub windows : Platform
windows = record {
  handle_format = hex_format;
  handle_carries = hex-Carries;
  handle_clean = hex-clean;
  handle_short = hex-short;
}

unfoldable pub next_address : Heap → ℕ
next_address [] = 4096
next_address ((a, stub) ∷ h) = max (a + 16) (next_address h)

load_above : (h : Heap) (n : ℕ) → next_address h ≤ n → load n h ≡ none
unfolding load next_address
load_above [] n le = refl
load_above ((a, stub) ∷ h) n le =
    let other : (a == n) ≡ false = ground arith in rw (other, load_above h n (omega arith))

next_address_pos : (h : Heap) → 0 < next_address h
unfolding next_address
next_address_pos [] = omega arith
next_address_pos ((a, stub) ∷ h) = omega (arith, next_address_pos h)

unfoldable pub allocate : Heap → Option ℕ
unfolding next_address
allocate h = if ltb (next_address h) handle_count then some (next_address h) else none

pub allocate_fresh :
    (h : Heap) (a : ℕ) → allocate h ≡ some a → (0 < a) × (a < handle_count) × (load a h ≡ none)
unfolding allocate
allocate_fresh h a e = elim (Bool-cases (ltb (next_address h) handle_count)) [
  | inl room ↦
      let same : next_address h ≡ a = ground arith in
      rw (← same) (next_address_pos h, ground arith, load_above h (next_address h) (omega arith))
  | inr full ↦ absurd (ground arith)
]

abbrev pub allocator : Allocator
allocator = record { allocate = allocate; fresh = allocate_fresh }
