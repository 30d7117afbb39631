-- ===== src/Calculator.antt =====
-- The custom class: Common/include/Calculator.h (`ICalculator`: the interface with its disp ids and
-- the functions that unpack a call), Common/include/CalculatorServer.h (the dispatch table) and
-- Server/Calculator.cpp (the implementation).
-- `__COUNTER__ - begin` counts the functions in the order of their declaration.
use mathlib.Core.List.{reverse}
use dcom.Base.{
  ℕ, List, [], ◌∷◌, Option, none, some, Bytes, codes, if◌then◌else◌, ℤ, pos, ◌+ℤ◌, is_int, Outcome,
  ok, err, signed_overflow, catch_all, ◌>>=◌,
}
use dcom.Constants.{error_success, error_parameter_invalid}
use dcom.Format.{int_format, dword_format, string_format}
use dcom.Marshaller.{Marshaller, get_function_parameter, set_function_parameter}

-- The abstract class: each function returns its error code and what it leaves in the reference
-- parameter. The last three parameters of `LongOperation` are always `FALSE` and `NULL` on the
-- server, and are left out.
pub record ICalculator : Type 0 where
  pub add : ℤ → ℤ → ℤ → Outcome (ℤ × ℤ)
  pub reverse_name : Bytes → Outcome (ℤ × Bytes)
  pub long_operation : ℕ → Bytes → Outcome (ℤ × Bytes)

abbrev pub add_disp_id : ℤ
add_disp_id = pos 0

abbrev pub reverse_name_disp_id : ℤ
reverse_name_disp_id = pos 1

abbrev pub long_operation_disp_id : ℤ
long_operation_disp_id = pos 2

abbrev pub max_disp_id : ℕ
max_disp_id = 3

-- The error code that the function returns goes to a second variable `errorCode`, inside the block,
-- and is lost. What is thrown before the first write is caught with the message as it was.
unfoldable pub invoke_add : ICalculator → Marshaller → Outcome (Marshaller × ℤ)
invoke_add c m = catch_all body (ok (m, error_parameter_invalid))
  where
    body : Outcome (Marshaller × ℤ)
    body = do
      x ← get_function_parameter int_format m (pos 1) (pos 0)
      y ← get_function_parameter int_format m (pos 2) (pos 0)
      z ← get_function_parameter int_format m (pos 3) (pos 0)
      (_, z') ← c.add x y z
      (m₁, _) ← set_function_parameter int_format m (pos 3) z'
      (m₂, _) ← set_function_parameter int_format m₁ (pos 2) y
      (m₃, _) ← set_function_parameter int_format m₂ (pos 1) x
      ok (m₃, error_success)

unfoldable pub invoke_reverse_name : ICalculator → Marshaller → Outcome (Marshaller × ℤ)
invoke_reverse_name c m = catch_all body (ok (m, error_parameter_invalid))
  where
    body : Outcome (Marshaller × ℤ)
    body = do
      s ← get_function_parameter string_format m (pos 1) []
      (_, s') ← c.reverse_name s
      (m₁, _) ← set_function_parameter string_format m (pos 1) s'
      ok (m₁, error_success)

unfoldable pub invoke_long_operation : ICalculator → Marshaller → Outcome (Marshaller × ℤ)
invoke_long_operation c m = catch_all body (ok (m, error_parameter_invalid))
  where
    body : Outcome (Marshaller × ℤ)
    body = do
      wait_time ← get_function_parameter dword_format m (pos 1) 0
      s ← get_function_parameter string_format m (pos 2) []
      (_, s') ← c.long_operation wait_time s
      (m₁, _) ← set_function_parameter string_format m (pos 2) s'
      (m₂, _) ← set_function_parameter dword_format m₁ (pos 1) wait_time
      ok (m₂, error_success)

-- `Calculator::Add`; the sum of two `int`s that is no `int` is undefined behaviour.
unfoldable pub add : ℤ → ℤ → ℤ → Outcome (ℤ × ℤ)
unfolding ◌+ℤ◌
add x y z = if is_int (x +ℤ y) then ok (pos 0, x +ℤ y) else err signed_overflow

unfoldable pub reverse_name : Bytes → Outcome (ℤ × Bytes)
reverse_name s = ok (pos 0, reverse s)

-- The wait itself (`Sleep`) has no result.
unfoldable pub long_operation : ℕ → Bytes → Outcome (ℤ × Bytes)
long_operation wait_time s = ok (pos 0, codes "Hello from server!!!")

unfoldable pub calculator : ICalculator
unfolding add reverse_name long_operation
calculator = record { add = add; reverse_name = reverse_name; long_operation = long_operation }

pub record DispatchEntry : Type 0 where
  pub id : ℤ
  pub fn : Option (ICalculator → Marshaller → Outcome (Marshaller × ℤ))

unfoldable pub dispatch_entries : List DispatchEntry
unfolding invoke_add invoke_reverse_name invoke_long_operation
dispatch_entries =
    record { id = add_disp_id; fn = some invoke_add }
    ∷ record { id = reverse_name_disp_id; fn = some invoke_reverse_name }
    ∷ record { id = long_operation_disp_id; fn = some invoke_long_operation }
    ∷ record { id = pos max_disp_id; fn = none }
    ∷ []
