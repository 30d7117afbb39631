-- ===== src/Base/Effects.antt =====
-- The outcome of C++ code: a value, or a fault. `length_error` and `bad_alloc` are exceptions,
-- which a `catch (...)` stops; the other faults are undefined behaviour, which nothing stops.
use mathlib.Core.Path.{◌≡◌, refl}

pub data Fault : Type 0 where
  out_of_bounds dangling null_call signed_overflow length_error bad_alloc : Fault

pub data Outcome {ℓ} (A : Type ℓ) : Type ℓ where
  ok : A → Outcome A
  err : Fault → Outcome A

infixl 5 ◌>>=◌
abbrev pub ◌>>=◌ {ℓ κ} : {A : Type ℓ} {B : Type κ} → Outcome A → (A → Outcome B) → Outcome B
ok a >>= f = f a
err e >>= f = err e

-- `try { m } catch (...) { handler }`
abbrev pub catch_all {ℓ} : {A : Type ℓ} → Outcome A → Outcome A → Outcome A
catch_all (ok a) handler = ok a
catch_all (err length_error) handler = handler
catch_all (err bad_alloc) handler = handler
catch_all (err out_of_bounds) handler = err out_of_bounds
catch_all (err dangling) handler = err dangling
catch_all (err null_call) handler = err null_call
catch_all (err signed_overflow) handler = err signed_overflow

-- A chain that ends well: its first part did, and the rest went on from there.
pub >>=-eq-ok {ℓ κ} :
    {A : Type ℓ} {B : Type κ} (first : Outcome A) (next : A → Outcome B) {end : B}
    → first >>= next ≡ ok end
    → (mid : A) × (first ≡ ok mid) × (next mid ≡ ok end)
>>=-eq-ok (ok mid) next e = (mid, refl, e)
>>=-eq-ok (err fault) next e = cc

-- The faults that a client's data can bring about in code that uses its memory rightly.
abbrev pub IsDataFault : Fault → Type 0
IsDataFault signed_overflow = Unit
IsDataFault bad_alloc = Unit
IsDataFault length_error = ⊥
IsDataFault out_of_bounds = ⊥
IsDataFault dangling = ⊥
IsDataFault null_call = ⊥

-- The code uses its memory rightly, and its value, if it returns one, satisfies `Q`.
abbrev pub Ensures {ℓ} : {A : Type ℓ} → (A → Type 0) → Outcome A → Type 0
Ensures Q (ok a) = Q a
Ensures Q (err e) = IsDataFault e

module _ {ℓ κ} {A : Type ℓ} {B : Type κ} where
  pub Ensures->>= :
      (Q : A → Type 0) (R : B → Type 0) (m : Outcome A) (f : A → Outcome B)
      → Ensures Q m
      → ((a : A) → Q a → Ensures R (f a))
      → Ensures R (m >>= f)
  Ensures->>= Q R (ok a) f h k = k a h
  Ensures->>= Q R (err e) f h k = h

pub Ensures-weaken {ℓ} :
    {A : Type ℓ} (Q R : A → Type 0) (m : Outcome A)
    → ((a : A) → Q a → R a)
    → Ensures Q m
    → Ensures R m
Ensures-weaken Q R (ok a) k h = k a h
Ensures-weaken Q R (err e) k h = h

pub Ensures-catch_all {ℓ} :
    {A : Type ℓ} (Q : A → Type 0) (m handler : Outcome A)
    → Ensures Q m
    → Ensures Q handler
    → Ensures Q (catch_all m handler)
Ensures-catch_all Q (ok a) handler h k = h
Ensures-catch_all Q (err length_error) handler h k = k
Ensures-catch_all Q (err bad_alloc) handler h k = k
Ensures-catch_all Q (err out_of_bounds) handler h k = h
Ensures-catch_all Q (err dangling) handler h k = h
Ensures-catch_all Q (err null_call) handler h k = h
Ensures-catch_all Q (err signed_overflow) handler h k = h
