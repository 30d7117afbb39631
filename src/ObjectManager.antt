-- ===== src/ObjectManager.antt =====
-- Common/include/ObjectManager.h and Common/ObjectManager.cpp: the objects of the server, and what a
-- message does to them. A request holds the critical section while it touches the set, and requests
-- are taken here one after the other.
-- The set of pointers `m_allObjects` is kept apart from the heap, which holds the stubs that are
-- allocated and not deleted: using a pointer that the heap does not hold is undefined behaviour.
pub mod Heap
pub mod Cases
pub mod Invariant
pub mod Safety
pub mod Reach
pub mod Destructor
pub mod Race
pub mod Store
pub mod History
pub mod Creation
pub mod Requests
pub mod Lifetime
use dcom.Base.{
  ℕ, ◌≡◌, ◌<◌, Bool, true, false, ◌||◌, List, [], ◌∷◌, Option, none, some, Bytes, codes, length,
  ltb, ◌==◌, text_eq, if◌then◌else◌, ℤ, pos, negsuc, eq_ℤ, Outcome, ok, err, dangling, bad_alloc,
  ◌>>=◌,
}
use dcom.Calculator.{calculator}
use dcom.Constants.{
  error_success, error_no_object_found, error_dispid_invalid, error_parameter_invalid,
  error_object_not_registered, error_memory_failure, handle_count,
}
use dcom.Format.{Format, Platform, int_format, string_format}
use dcom.Marshaller.{
  Marshaller, get_disp_id, set_error_code, get_function_parameter, set_function_parameter,
  get_object_id,
}
use dcom.ServerStub.{ServerStub, custom, primitive_int, primitive_string, invoke}

-- `GlobalDispIdT` of Common/include/RPC.h
abbrev pub e_create_custom_object_disp_id : ℤ
e_create_custom_object_disp_id = pos 0

abbrev pub e_create_int_disp_id : ℤ
e_create_int_disp_id = pos 1

abbrev pub e_create_string_disp_id : ℤ
e_create_string_disp_id = pos 2

abbrev pub e_delete_disp_id : ℤ
e_delete_disp_id = pos 3

abbrev pub Heap : Type 0
Heap = List (ℕ × ServerStub)

unfoldable pub load : ℕ → Heap → Option ServerStub
load a [] = none
load a ((b, stub) ∷ h) = if b == a then some stub else load a h

unfoldable pub free : ℕ → Heap → Heap
free a [] = []
free a ((b, stub) ∷ h) = if b == a then free a h else (b, stub) ∷ free a h

-- `operator new`: an address that is not in use, or none, which throws.
pub record Allocator : Type 0 where
  pub allocate : Heap → Option ℕ
  pub fresh :
      (h : Heap) (a : ℕ) → allocate h ≡ some a → (0 < a) × (a < handle_count) × (load a h ≡ none)

pub record ObjectManager : Type 0 where
  pub all_objects : List ℕ
  pub heap : Heap

unfoldable pub contains : ℕ → List ℕ → Bool
contains a [] = false
contains a (b ∷ s) = b == a || contains a s

-- `unordered_set::insert`
unfoldable pub insert : ℕ → List ℕ → List ℕ
unfolding contains
insert a s = if contains a s then s else a ∷ s

unfoldable pub empty_manager : ObjectManager
empty_manager = record { all_objects = []; heap = [] }

-- The loop of the destructor: `delete` of each pointer of the set.
unfoldable pub delete_all : List ℕ → Heap → Outcome Heap
delete_all [] h = ok h
delete_all (a ∷ s) h = elim (load a h) [ none ↦ err dangling | some _ ↦ delete_all s (free a h) ]

-- The destructor; the set is empty behind it.
unfoldable pub destroy_manager : ObjectManager → Outcome ObjectManager
unfolding delete_all
destroy_manager o = do
  h ← delete_all o.all_objects o.heap
  ok (record { all_objects = []; heap = h })

module _ (p : Platform) (al : Allocator) where
  -- `new ServerStub…`: the pointer and the heap behind it.
  unfoldable pub new_stub : ServerStub → Heap → Outcome (ℕ × Heap)
  new_stub stub h = elim (al.allocate h) [ none ↦ err bad_alloc | some a ↦ ok (a, (a, stub) ∷ h) ]

  -- The pointer as an `IServerStub *`, and the message; a null pointer leaves an error code in it.
  unfoldable pub new_or_fail : ServerStub → Heap → Marshaller → Outcome (ℕ × Heap × Marshaller)
  unfolding new_stub
  new_or_fail stub h m = do
    (a, h') ← new_stub stub h
    m' ← if a == 0 then set_error_code m error_memory_failure else ok m
    ok (a, h', m')

  unfoldable pub create_object : Heap → Marshaller → Outcome (ℕ × Heap × Marshaller)
  unfolding new_or_fail
  create_object h m = do
    object_name ← get_function_parameter string_format m (pos 1) []
    if text_eq object_name (codes "Calculator")
        then new_or_fail (custom (some calculator)) h m
        else (do m' ← set_error_code m error_object_not_registered; ok (0, h, m'))

  -- `T t{}` is the empty value of the type.
  unfoldable pub create_primitive_object {ℓ} :
      {T : Type ℓ}
      → Format T
      → T
      → (T → ServerStub)
      → Heap
      → Marshaller
      → Outcome (ℕ × Heap × Marshaller)
  unfolding new_or_fail
  create_primitive_object f blank stub h m = do
    t ← get_function_parameter f m (pos 1) blank
    new_or_fail (stub t) h m

  -- `delete (*it)` where the pointer is in the set; it stays in the set.
  unfoldable pub delete_pointer :
      ObjectManager → ℕ → Marshaller → Outcome (ObjectManager × Marshaller × ℤ)
  delete_pointer o obj_ptr m =
      if obj_ptr == 0
      then ok (o, m, error_parameter_invalid)
      else if contains obj_ptr o.all_objects
      then elim (load obj_ptr o.heap) [
        | none ↦ err dangling
        | some _ ↦ ok (record o { heap = free obj_ptr o.heap }, m, error_success)
      ]
      else ok (o, m, error_no_object_found)

  unfoldable pub delete_object :
      ObjectManager → Marshaller → Outcome (ObjectManager × Marshaller × ℤ)
  unfolding delete_pointer
  delete_object o m = do
    obj_ptr ← get_function_parameter p.handle_format m (pos 1) 0
    delete_pointer o obj_ptr m

  -- The `switch` over the disp id; the null pointer where there is no such case.
  unfoldable pub create : ℤ → Heap → Marshaller → Outcome (ℕ × Heap × Marshaller)
  unfolding create_object create_primitive_object
  create disp_id h m =
      if eq_ℤ disp_id e_create_custom_object_disp_id
      then create_object h m
      else if eq_ℤ disp_id e_create_int_disp_id
      then create_primitive_object int_format (pos 0) primitive_int h m
      else if eq_ℤ disp_id e_create_string_disp_id
      then create_primitive_object string_format [] primitive_string h m
      else ok (0, h, m)

  -- `if (pi) { … }` and the error code behind it.
  unfoldable pub register :
      ObjectManager → ℕ × Heap × Marshaller → Outcome (ObjectManager × Marshaller × ℤ)
  unfolding insert
  register o (pi, h, m) = if pi == 0 then failed else inserted
    where
      failed : Outcome (ObjectManager × Marshaller × ℤ)
      failed = do
        m' ← set_error_code m error_dispid_invalid
        ok (record o { heap = h }, m', error_dispid_invalid)

      inserted : Outcome (ObjectManager × Marshaller × ℤ)
      inserted = do
        (m₁, _) ← set_function_parameter p.handle_format m (pos 2) pi
        m₂ ← set_error_code m₁ error_success
        ok (record { all_objects = insert pi o.all_objects; heap = h }, m₂, error_success)

  unfoldable pub handle_global_functions :
      ObjectManager → Marshaller → Outcome (ObjectManager × Marshaller × ℤ)
  unfolding create delete_object register
  handle_global_functions o m = do
    disp_id ← get_disp_id m
    let created = do r ← create disp_id o.heap m; register o r
    if eq_ℤ disp_id e_delete_disp_id then delete_object o m else created

  -- `(*it)->Invoke(m)` for a pointer of the set.
  unfoldable pub invoke_object : ObjectManager → ℕ → Marshaller → Outcome (Marshaller × ℤ)
  invoke_object o object_id m =
      if contains object_id o.all_objects
      then elim (load object_id o.heap) [ none ↦ err dangling | some stub ↦ invoke stub m ]
      else ok (m, error_no_object_found)

  unfoldable pub process_request : ObjectManager → Marshaller → Outcome (ObjectManager × Marshaller)
  unfolding handle_global_functions invoke_object
  process_request o m = do
    object_id ← get_object_id p m
    if object_id == 0
        then global
        else if ltb 0 (length o.all_objects)
        then on_object object_id
        else ok (o, m)
    where
      global : Outcome (ObjectManager × Marshaller)
      global = do
        (o', m₁, error_code) ← handle_global_functions o m
        m₂ ← set_error_code m₁ error_code
        ok (o', m₂)

      on_object : ℕ → Outcome (ObjectManager × Marshaller)
      on_object object_id = do
        (m₁, error_code) ← invoke_object o object_id m
        m₂ ← set_error_code m₁ error_code
        ok (o, m₂)
