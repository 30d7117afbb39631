-- ===== src/Base/Lists.antt =====
-- Lists measured and indexed by native numbers, texts, and predicates on all items.
use Prim.Native.Char.{code}
use Prim.Native.Nat.{ℕ, zero, suc, ◌+◌, ◌<◌}
use Prim.Native.String.{String}
use mathlib.Core.Path.{◌≡◌, refl, sym, ◌∙◌, ap, subst}
use mathlib.Core.Logic.{◌≢◌}
use mathlib.Core.List.{List, [], ◌∷◌, ◌++◌, reverse, reverse-cons}
use native.Mathlib.Omega.{arith}

-- A `std::string`: its bytes.
abbrev pub Bytes : Type 0
Bytes = List ℕ

-- The bytes of an ASCII literal.
abbrev pub codes : String → Bytes
codes String.[] = []
codes (String.◌∷◌ c s) = code c ∷ codes s

module _ {ℓ} {A : Type ℓ} where
  abbrev pub length : List A → ℕ
  length [] = 0
  length (x ∷ xs) = suc (length xs)

  abbrev pub get_or : List A → ℕ → A → A
  get_or [] i d = d
  get_or (x ∷ xs) zero d = x
  get_or (x ∷ xs) (suc i) d = get_or xs i d

  abbrev pub set : List A → ℕ → A → List A
  set [] i v = []
  set (x ∷ xs) zero v = v ∷ xs
  set (x ∷ xs) (suc i) v = x ∷ set xs i v

  abbrev pub take : ℕ → List A → List A
  take zero xs = []
  take (suc n) [] = []
  take (suc n) (x ∷ xs) = x ∷ take n xs

  abbrev pub drop : ℕ → List A → List A
  drop zero xs = xs
  drop (suc n) [] = []
  drop (suc n) (x ∷ xs) = drop n xs

  abbrev pub replicate : ℕ → A → List A
  replicate zero a = []
  replicate (suc n) a = a ∷ replicate n a

module _ {ℓ} {A : Type ℓ} where
  pub length-append : (xs ys : List A) → length (xs ++ ys) ≡ length xs + length ys
  length-append [] ys = omega arith
  length-append (x ∷ xs) ys = omega (arith, length-append xs ys)

  pub length-set : (xs : List A) (i : ℕ) (v : A) → length (set xs i v) ≡ length xs
  length-set [] i v = refl
  length-set (x ∷ xs) zero v = refl
  length-set (x ∷ xs) (suc i) v = ap suc (length-set xs i v)

  pub length-replicate : (n : ℕ) (a : A) → length (replicate n a) ≡ n
  length-replicate zero a = refl
  length-replicate (suc n) a = ap suc (length-replicate n a)

  pub get_or-set_self :
      (xs : List A) (i : ℕ) (v d : A) → i < length xs → get_or (set xs i v) i d ≡ v
  get_or-set_self [] i v d h = elim h [ ]
  get_or-set_self (x ∷ xs) zero v d h = refl
  get_or-set_self (x ∷ xs) (suc i) v d h = get_or-set_self xs i v d (omega arith)

  pub get_or-set_ne :
      (xs : List A) (i j : ℕ) (v d : A) → i ≢ j → get_or (set xs i v) j d ≡ get_or xs j d
  get_or-set_ne [] i j v d h = refl
  get_or-set_ne (x ∷ xs) zero zero v d h = absurd (h refl)
  get_or-set_ne (x ∷ xs) zero (suc j) v d h = refl
  get_or-set_ne (x ∷ xs) (suc i) zero v d h = refl
  get_or-set_ne (x ∷ xs) (suc i) (suc j) v d h = get_or-set_ne xs i j v d (λ e. h (ap suc e))

  pub get_or-append :
      (xs ys : List A) (i : ℕ) (d : A) → i < length xs → get_or (xs ++ ys) i d ≡ get_or xs i d
  get_or-append [] ys i d h = elim h [ ]
  get_or-append (x ∷ xs) ys zero d h = refl
  get_or-append (x ∷ xs) ys (suc i) d h = get_or-append xs ys i d (omega arith)

  pub drop-length : (xs : List A) → drop (length xs) xs ≡ []
  drop-length [] = refl
  drop-length (x ∷ xs) = drop-length xs

module _ {ℓ κ} {A : Type ℓ} (P : A → Type κ) where
  -- Every item of the list has the property.
  abbrev pub All : List A → Type κ
  All [] = Unit
  All (x ∷ xs) = P x × All xs

  pub All-append : (xs ys : List A) → All xs → All ys → All (xs ++ ys)
  All-append [] ys hx hy = hy
  All-append (x ∷ xs) ys hx hy = (hx.0, All-append xs ys hx.1 hy)

  pub All-set : (xs : List A) (i : ℕ) (v : A) → P v → All xs → All (set xs i v)
  All-set [] i v hv h = tt
  All-set (x ∷ xs) zero v hv h = (hv, h.1)
  All-set (x ∷ xs) (suc i) v hv h = (h.0, All-set xs i v hv h.1)

  pub All-replicate : (n : ℕ) (v : A) → P v → All (replicate n v)
  All-replicate zero v h = tt
  All-replicate (suc n) v h = (h, All-replicate n v h)

-- No byte of the text is `b`.
abbrev pub Lacks : ℕ → Bytes → Type 0
Lacks b = All (λ c. c ≢ b)

pub length-reverse {ℓ} : {A : Type ℓ} (s : List A) → length (reverse s) ≡ length s
length-reverse [] = refl
length-reverse (c ∷ s) =
    ap length (reverse-cons c s)
    ∙ length-append (reverse s) (c ∷ [])
    ∙ omega (arith, length-reverse s)

pub reverse-Lacks : (b : ℕ) (s : Bytes) → Lacks b s → Lacks b (reverse s)
reverse-Lacks b [] h = tt
reverse-Lacks b (c ∷ s) h =
    subst (Lacks b) (sym (reverse-cons c s))
      (All-append (λ d. d ≢ b) (reverse s) (c ∷ []) (reverse-Lacks b s h.1) (h.0, tt))

pub All-map {ℓ κ} :
    {A : Type ℓ} (P Q : A → Type κ) (xs : List A) → ((x : A) → P x → Q x) → All P xs → All Q xs
All-map P Q [] f h = tt
All-map P Q (x ∷ xs) f h = (f x h.0, All-map P Q xs f h.1)
