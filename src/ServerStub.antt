-- ===== src/ServerStub.antt =====
-- Common/include/ServerStub.h: the stub that the server keeps for each object, and `Invoke`.
pub mod Safety
pub mod Replies
use dcom.Base.{
  ℕ, zero, suc, ◌+◌, Bool, Option, none, some, Bytes, if◌then◌else◌, ℤ, pos, eq_ℤ, Outcome, ok, err,
  null_call, ◌>>=◌, at,
}
use dcom.Calculator.{ICalculator, DispatchEntry, dispatch_entries, max_disp_id}
use dcom.Constants.{error_success, error_no_object_found, error_dispid_invalid}
use dcom.Format.{int_format, string_format}
use dcom.Marshaller.{Marshaller, get_disp_id, set_function_parameter}

-- `ServerStub<Calculator>`, with its `auto_ptr`, and `ServerStub<T, TRUE>` at the two primitive types.
pub data ServerStub : Type 0 where
  custom : Option ICalculator → ServerStub
  primitive_int : ℤ → ServerStub
  primitive_string : Bytes → ServerStub

-- A call through the member pointer of an entry.
call : DispatchEntry → ICalculator → Marshaller → Outcome (Marshaller × ℤ)
call entry c m = elim entry.fn [ none ↦ err null_call | some fn ↦ fn c m ]

-- The loop over the dispatch table: `left` more entries from `index` on.
unfoldable pub dispatch : ℕ → ℕ → ICalculator → ℤ → Marshaller → Outcome (Marshaller × ℤ)
unfolding call dispatch_entries
dispatch zero index c disp_id m = ok (m, error_dispid_invalid)
dispatch (suc left) index c disp_id m =
    let rest = dispatch left (index + 1) c disp_id m in
    do entry ← at dispatch_entries index; if eq_ℤ entry.id disp_id then call entry c m else rest

unfoldable pub invoke : ServerStub → Marshaller → Outcome (Marshaller × ℤ)
unfolding dispatch
invoke (custom none) m = ok (m, error_no_object_found)
invoke (custom (some c)) m = do disp_id ← get_disp_id m; dispatch max_disp_id 0 c disp_id m
invoke (primitive_int v) m = do
  (m', _) ← set_function_parameter int_format m (pos 1) v
  ok (m', error_success)
invoke (primitive_string v) m = do
  (m', _) ← set_function_parameter string_format m (pos 1) v
  ok (m', error_success)
