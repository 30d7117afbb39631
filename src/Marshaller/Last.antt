-- ===== src/Marshaller/Last.antt =====
-- The parameter to which `GetLastFunctionParameterIndex` points.
use dcom.Base.{
  ℕ, suc, ◌-◌, ◌^◌, ◌<◌, ◌≡◌, ◌≢◌, refl, ap, ◌∙◌, false, [], length, get_or, arith, pos, ◌+ℤ◌,
  sub_ℕ, if◌then◌else◌, ◌==◌, Bool-cases, inl, inr, wrap, wrap_fits, ok,
}
use dcom.Format.{Format}
use dcom.Marshaller.Access.{IsWell, get_parameter_at}
use dcom.Marshaller.{
  Marshaller, is_zero, get_parameter, get_function_parameter, get_last_function_parameter_index,
  e_disp_id_position,
}

-- The index comes back from `wrap` as it went in.
index_fits : (n : ℕ) → n < 2 ^ 31 → wrap (sub_ℕ n 3) ≡ sub_ℕ n 3
index_fits n h = wrap_fits (sub_ℕ n 3) (ground arith)

index_of_last : (n : ℕ) → e_disp_id_position +ℤ sub_ℕ n 3 ≡ pos n
unfolding ◌+ℤ◌
index_of_last n = ground arith

is_zero_index : (n : ℕ) → n ≢ 3 → is_zero (sub_ℕ n 3) ≡ false
is_zero_index n other = ground arith

module _ {ℓ} {T : Type ℓ} (f : Format T) (m : Marshaller) (well : IsWell m)
    (short : length m.all_parameters < 2 ^ 31) where
  last_index : get_last_function_parameter_index m ≡ sub_ℕ (length m.all_parameters) 3
  unfolding get_last_function_parameter_index
  last_index = ap (λ (k : ℕ). wrap (sub_ℕ k 3)) well ∙ index_fits (length m.all_parameters) short

  read_no_parameter : (t : T) (n : ℕ) → n ≡ 3 → get_function_parameter f m (sub_ℕ n 3) t ≡ ok t
  unfolding get_function_parameter
  read_no_parameter t n three = rw three refl

  read_index :
      (t : T) (n : ℕ)
      → n ≢ 3
      → get_function_parameter f m (sub_ℕ n 3) t ≡ get_parameter f m (pos n) t
  unfolding get_function_parameter
  read_index t n other = rw (is_zero_index n other, index_of_last n) refl

  -- In a message with the right count, which has a parameter, `GetLastFunctionParameterIndex` points to
  -- the last one, whichever it is: with fewer than three parameters the index is negative, and what is
  -- read is the object id or the error code. With exactly three, where the function has no
  -- parameter, the value that was passed in is returned.
  pub get-last_function_parameter :
      (t : T)
      → length m.all_parameters ≢ 0
      → get_function_parameter f m (get_last_function_parameter_index m) t
        ≡ ok (
            if length m.all_parameters == 3
            then t
            else f.extract t (get_or m.all_parameters (length m.all_parameters - 1) []))
  get-last_function_parameter t some_parameter =
      ap (λ k. get_function_parameter f m k t) last_index
      ∙ elim (Bool-cases (length m.all_parameters == 3)) [
        | inl three ↦ rw three (read_no_parameter t (length m.all_parameters) (ground arith))
        | inr other ↦
            let place : length m.all_parameters ≡ suc (length m.all_parameters - 1) = omega arith in
            rw other (
              read_index t (length m.all_parameters) (ground arith)
              ∙ ap (λ k. get_parameter f m (pos k) t) place
              ∙ get_parameter_at f m (length m.all_parameters - 1) well t (omega arith))
      ]
