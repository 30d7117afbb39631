-- ===== src/ServerStub/Replies.antt =====
-- What `Invoke` answers to a call, for any implementation of the class and for the primitive objects.
use dcom.Base.{
  ℕ, ◌≤◌, ◌≡◌, refl, ap, ◌∙◌, true, false, Bool, [], ◌∷◌, List, some, Bytes, set, arith,
  if◌then◌else◌, ℤ, pos, IsInt, eq_ℤ, Outcome, ok, ◌>>=◌,
}
use dcom.Calculator.{
  ICalculator, invoke_add, invoke_reverse_name, invoke_long_operation, add_disp_id,
  reverse_name_disp_id, long_operation_disp_id,
}
use dcom.Constants.{error_success, error_dispid_invalid}
use dcom.Format.{Platform, Carries-int, Carries-dword, int_format, dword_format, string_format}
use dcom.Marshaller.Access.{padded}
use dcom.Marshaller.{Marshaller, get_function_parameter, set_function_parameter}
use dcom.Protocol.{
  message, get_disp_id-message, get_function_parameter-message, set_function_parameter-message,
  get_printed-message,
}
use dcom.ServerStub.Safety.{dispatch_cases}
use dcom.ServerStub.{custom, primitive_int, primitive_string, invoke}
use dcom.Stream.{print_int, print_nat, extract_int, dword_max}

module _ (p : Platform) (c : ICalculator) (code : ℤ) (a : ℕ) (d : ℤ) where
  invoke_add_lem :
      (x y z' e : ℤ) (q : Bytes)
      → IsInt x
      → IsInt y
      → c.add x y (extract_int (pos 0) q) ≡ ok (e, z')
      → invoke_add c (message p code a d (print_int x ∷ print_int y ∷ q ∷ []))
        ≡ ok (message p code a d (print_int x ∷ print_int y ∷ print_int z' ∷ []), error_success)
  unfolding invoke_add
  invoke_add_lem x y z' e q hx hy h = rw (ex, ey, ez, h, s₃, s₂, s₁)
    where
      m : Marshaller
      m = message p code a d (print_int x ∷ print_int y ∷ q ∷ [])

      m₃ : Marshaller
      m₃ = message p code a d (print_int x ∷ print_int y ∷ print_int z' ∷ [])

      ex : get_function_parameter int_format m (pos 1) (pos 0) ≡ ok x
      ex =
          get_printed-message p code a d (print_int x ∷ print_int y ∷ q ∷ []) int_format 0 x (pos 0)
            (omega arith) refl (Carries-int x hx)

      ey : get_function_parameter int_format m (pos 2) (pos 0) ≡ ok y
      ey =
          get_printed-message p code a d (print_int x ∷ print_int y ∷ q ∷ []) int_format 1 y (pos 0)
            (omega arith) refl (Carries-int y hy)

      ez : get_function_parameter int_format m (pos 3) (pos 0) ≡ ok (extract_int (pos 0) q)
      ez =
          get_function_parameter-message p code a d (print_int x ∷ print_int y ∷ q ∷ []) int_format
            2 (pos 0) (omega arith)

      s₃ : set_function_parameter int_format m (pos 3) z' ≡ ok (m₃, true)
      s₃ =
          set_function_parameter-message p code a d (print_int x ∷ print_int y ∷ q ∷ []) int_format
            2 z' (omega arith)

      s₂ : set_function_parameter int_format m₃ (pos 2) y ≡ ok (m₃, true)
      s₂ =
          set_function_parameter-message p code a d (print_int x ∷ print_int y ∷ print_int z' ∷ [])
            int_format 1 y (omega arith)

      s₁ : set_function_parameter int_format m₃ (pos 1) x ≡ ok (m₃, true)
      s₁ =
          set_function_parameter-message p code a d (print_int x ∷ print_int y ∷ print_int z' ∷ [])
            int_format 0 x (omega arith)

  invoke_reverse_name_lem :
      (s s' : Bytes) (e : ℤ)
      → c.reverse_name s ≡ ok (e, s')
      → invoke_reverse_name c (message p code a d (s ∷ []))
        ≡ ok (message p code a d (s' ∷ []), error_success)
  unfolding invoke_reverse_name
  invoke_reverse_name_lem s s' e h = rw (es, h, set₁)
    where
      es : get_function_parameter string_format (message p code a d (s ∷ [])) (pos 1) [] ≡ ok s
      es = get_function_parameter-message p code a d (s ∷ []) string_format 0 [] (omega arith)

      set₁ :
          set_function_parameter string_format (message p code a d (s ∷ [])) (pos 1) s'
          ≡ ok (message p code a d (s' ∷ []), true)
      set₁ = set_function_parameter-message p code a d (s ∷ []) string_format 0 s' (omega arith)

  invoke_long_operation_lem :
      (t : ℕ) (s s' : Bytes) (e : ℤ)
      → t ≤ dword_max
      → c.long_operation t s ≡ ok (e, s')
      → invoke_long_operation c (message p code a d (print_nat t ∷ s ∷ []))
        ≡ ok (message p code a d (print_nat t ∷ s' ∷ []), error_success)
  unfolding invoke_long_operation
  invoke_long_operation_lem t s s' e ht h = rw (et, es, h, set₂, set₁)
    where
      m : Marshaller
      m = message p code a d (print_nat t ∷ s ∷ [])

      m' : Marshaller
      m' = message p code a d (print_nat t ∷ s' ∷ [])

      et : get_function_parameter dword_format m (pos 1) 0 ≡ ok t
      et =
          get_printed-message p code a d (print_nat t ∷ s ∷ []) dword_format 0 t 0 (omega arith)
            refl (Carries-dword t ht)

      es : get_function_parameter string_format m (pos 2) [] ≡ ok s
      es =
          get_function_parameter-message p code a d (print_nat t ∷ s ∷ []) string_format 1 []
            (omega arith)

      set₂ : set_function_parameter string_format m (pos 2) s' ≡ ok (m', true)
      set₂ =
          set_function_parameter-message p code a d (print_nat t ∷ s ∷ []) string_format 1 s'
            (omega arith)

      set₁ : set_function_parameter dword_format m' (pos 1) t ≡ ok (m', true)
      set₁ =
          set_function_parameter-message p code a d (print_nat t ∷ s' ∷ []) dword_format 0 t
            (omega arith)

  invoke_custom :
      (params : List Bytes)
      → IsInt d
      → invoke (custom (some c)) (message p code a d params) ≡ (
          if eq_ℤ add_disp_id d
          then invoke_add c (message p code a d params)
          else if eq_ℤ reverse_name_disp_id d
          then invoke_reverse_name c (message p code a d params)
          else if eq_ℤ long_operation_disp_id d
          then invoke_long_operation c (message p code a d params)
          else ok (message p code a d params, error_dispid_invalid))
  unfolding invoke
  invoke_custom params h =
      rw (get_disp_id-message p code a d params h) (dispatch_cases c d (message p code a d params))

-- The replies to the three calls.
module _ (p : Platform) (c : ICalculator) (code : ℤ) (a : ℕ) where
  -- A request for `Add` with two `int`s and any text `q` for the third parameter: where the
  -- implementation answers `z'` on them, the reply has `z'` in the third place and reports success,
  -- whatever error code `e` the implementation returned.
  pub invoke_add_reply :
      (x y z' e : ℤ) (q : Bytes)
      → IsInt x
      → IsInt y
      → c.add x y (extract_int (pos 0) q) ≡ ok (e, z')
      → invoke (custom (some c)) (message p code a add_disp_id (print_int x ∷ print_int y ∷ q ∷ []))
        ≡ ok (
          message p code a add_disp_id (print_int x ∷ print_int y ∷ print_int z' ∷ []),
          error_success,
        )
  invoke_add_reply x y z' e q hx hy h =
      invoke_custom p c code a add_disp_id (print_int x ∷ print_int y ∷ q ∷ []) (omega arith)
      ∙ invoke_add_lem p c code a add_disp_id x y z' e q hx hy h

  pub invoke_reverse_name_reply :
      (s s' : Bytes) (e : ℤ)
      → c.reverse_name s ≡ ok (e, s')
      → invoke (custom (some c)) (message p code a reverse_name_disp_id (s ∷ []))
        ≡ ok (message p code a reverse_name_disp_id (s' ∷ []), error_success)
  invoke_reverse_name_reply s s' e h =
      invoke_custom p c code a reverse_name_disp_id (s ∷ []) (omega arith)
      ∙ invoke_reverse_name_lem p c code a reverse_name_disp_id s s' e h

  pub invoke_long_operation_reply :
      (t : ℕ) (s s' : Bytes) (e : ℤ)
      → t ≤ dword_max
      → c.long_operation t s ≡ ok (e, s')
      → invoke (custom (some c)) (message p code a long_operation_disp_id (print_nat t ∷ s ∷ []))
        ≡ ok (message p code a long_operation_disp_id (print_nat t ∷ s' ∷ []), error_success)
  invoke_long_operation_reply t s s' e ht h =
      invoke_custom p c code a long_operation_disp_id (print_nat t ∷ s ∷ []) (omega arith)
      ∙ invoke_long_operation_lem p c code a long_operation_disp_id t s s' e ht h

  -- A call with any disp id but those of the three functions is refused as invalid, and the
  -- message stays as it is.
  pub invoke_other_reply :
      (d : ℤ) (params : List Bytes)
      → IsInt d
      → eq_ℤ add_disp_id d ≡ false
      → eq_ℤ reverse_name_disp_id d ≡ false
      → eq_ℤ long_operation_disp_id d ≡ false
      → invoke (custom (some c)) (message p code a d params)
        ≡ ok (message p code a d params, error_dispid_invalid)
  invoke_other_reply d params h e₀ e₁ e₂ = invoke_custom p c code a d params h ∙ rw (e₀, e₁, e₂)

module _ (p : Platform) (code : ℤ) (a : ℕ) (d : ℤ) (params : List Bytes) where
  -- A primitive object answers every disp id with its value.
  pub invoke_int_reply :
      (v : ℤ)
      → invoke (primitive_int v) (message p code a d params)
        ≡ ok (message p code a d (set (padded 1 params) 0 (print_int v)), error_success)
  unfolding invoke
  invoke_int_reply v =
      ap (λ (r : Outcome (Marshaller × Bool)). r >>= λ t. ok (t.0, error_success))
        (set_function_parameter-message p code a d params int_format 0 v (omega arith))

  pub invoke_string_reply :
      (v : Bytes)
      → invoke (primitive_string v) (message p code a d params)
        ≡ ok (message p code a d (set (padded 1 params) 0 v), error_success)
  unfolding invoke
  invoke_string_reply v =
      ap (λ (r : Outcome (Marshaller × Bool)). r >>= λ t. ok (t.0, error_success))
        (set_function_parameter-message p code a d params string_format 0 v (omega arith))
