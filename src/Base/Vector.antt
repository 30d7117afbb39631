-- ===== src/Base/Vector.antt =====
-- `operator[]` and `resize` of `std::vector`: an index outside the vector is undefined behaviour,
-- and a `resize` beyond `max_size` throws `std::length_error`.
use Prim.Native.Nat.{ℕ, zero, suc, ◌-◌, ◌<◌, ◌^◌}
use mathlib.Core.Path.{◌≡◌, refl, ap}
use mathlib.Core.List.{List, [], ◌∷◌, ◌++◌}
use native.Mathlib.Omega.{arith}
use dcom.Base.Lists.{length, get_or, set, take, replicate}
use dcom.Base.Effects.{Outcome, ok, err, out_of_bounds, length_error, ◌>>=◌, >>=-eq-ok}
use dcom.Base.Tests.{leb, if◌then◌else◌}

module _ {ℓ} {A : Type ℓ} where
  abbrev pub at : List A → ℕ → Outcome A
  at [] i = err out_of_bounds
  at (x ∷ xs) zero = ok x
  at (x ∷ xs) (suc i) = at xs i

  abbrev pub put : List A → ℕ → A → Outcome (List A)
  put [] i v = err out_of_bounds
  put (x ∷ xs) zero v = ok (v ∷ xs)
  put (x ∷ xs) (suc i) v = do ys ← put xs i v; ok (x ∷ ys)

  -- New items are copies of `blank`.
  abbrev pub resize : ℕ → A → List A → Outcome (List A)
  resize n blank xs =
      if leb n (2 ^ 31) then ok (take n xs ++ replicate (n - length xs) blank) else err length_error

  pub at-get_or : (s : List A) (i : ℕ) (d : A) → i < length s → at s i ≡ ok (get_or s i d)
  at-get_or [] i d h = elim h [ ]
  at-get_or (x ∷ xs) zero d h = refl
  at-get_or (x ∷ xs) (suc i) d h = at-get_or xs i d (omega arith)

  pub put-set : (xs : List A) (i : ℕ) (v : A) → i < length xs → put xs i v ≡ ok (set xs i v)
  put-set [] i v h = elim h [ ]
  put-set (x ∷ xs) zero v h = refl
  put-set (x ∷ xs) (suc i) v h =
      ap (λ (r : Outcome (List A)). r >>= λ ys. ok (x ∷ ys)) (put-set xs i v (omega arith))

  pub put-length :
      (xs : List A) (i : ℕ) (v : A) {ys : List A} → put xs i v ≡ ok ys → length ys ≡ length xs
  put-length [] i v h = cc
  put-length (x ∷ xs) zero v h = ground arith
  put-length (x ∷ xs) (suc i) v h =
      let (zs, e, last) = >>=-eq-ok (put xs i v) (λ zs. ok (x ∷ zs)) h in
      ground (arith, put-length xs i v e)
