-- ===== src/ObjectManager/Race.antt =====
-- `ProcessRequest` takes the critical section to look for the object, leaves it, and then calls the
-- object: another thread may run in between.
use dcom.Base.{
  ℕ, ◌<◌, ◌≡◌, ◌≢◌, refl, Bool, true, Option, ap, none, some, ℤ, Outcome, ok, err, dangling,
  if◌then◌else◌, ◌>>=◌,
}
use dcom.Constants.{handle_count, error_no_object_found}
use dcom.Format.{Platform}
use dcom.Marshaller.{Marshaller}
use dcom.ObjectManager.Heap.{load-free_self}
use dcom.ObjectManager.Lifetime.{delete_request, delete_reply}
use dcom.ObjectManager.{
  Allocator, ObjectManager, contains, load, free, invoke_object, process_request,
}
use dcom.ServerStub.{ServerStub, invoke}

-- Inside the critical section: is the pointer in the collection?
unfoldable pub find_object : ObjectManager → ℕ → Bool
find_object o object_id = contains object_id o.all_objects

-- Outside: `(*it)->Invoke(m)`, on what the heap then holds.
unfoldable pub invoke_found : ObjectManager → ℕ → Marshaller → Outcome (Marshaller × ℤ)
invoke_found o object_id m = elim (load object_id o.heap) [
  | none ↦ err dangling
  | some stub ↦ invoke stub m
]

-- With nothing in between the two steps are the call of the model.
pub find-invoke :
    (p : Platform) (al : Allocator) (o : ObjectManager) (object_id : ℕ) (m : Marshaller)
    → invoke_object p al o object_id m ≡ (
        if find_object o object_id
        then invoke_found o object_id m
        else ok (m, error_no_object_found))
unfolding invoke_object find_object invoke_found
find-invoke p al o object_id m = refl

pub invoke_live :
    (o : ObjectManager) (a : ℕ) (m : Marshaller) (stub : ServerStub)
    → load a o.heap ≡ some stub
    → invoke_found o a m ≡ invoke stub m
unfolding invoke_found
invoke_live o a m stub live =
    ap
      (λ (found : Option ServerStub). elim found as (λ _. Outcome (Marshaller × ℤ)) [
        | none ↦ err dangling
        | some s ↦ invoke s m
      ])
      live

pub invoke_gone :
    (o : ObjectManager) (a : ℕ) (m : Marshaller)
    → load a o.heap ≡ none
    → invoke_found o a m ≡ err dangling
unfolding invoke_found
invoke_gone o a m gone =
    ap
      (λ (found : Option ServerStub). elim found as (λ _. Outcome (Marshaller × ℤ)) [
        | none ↦ err dangling
        | some s ↦ invoke s m
      ])
      gone

-- A call and a deletion of one live object, in two threads. The call finds the object; the deletion
-- is then served and succeeds; the call goes through a dangling pointer, whatever its message. With
-- the deletion left out it would have reached the object.
pub deleted_in_between :
    (p : Platform) (al : Allocator) (o : ObjectManager) (a : ℕ) (stub : ServerStub) (code : ℤ)
    (m : Marshaller)
    → a ≢ 0
    → a < handle_count
    → contains a o.all_objects ≡ true
    → load a o.heap ≡ some stub
    → (find_object o a ≡ true)
      × (invoke_found o a m ≡ invoke stub m)
      × ((do (o', reply) ← process_request p al o (delete_request p code a); invoke_found o' a m)
          ≡ err dangling)
unfolding find_object
deleted_in_between p al o a stub code m not_null in_range member live = (
  member,
  invoke_live o a m stub live,
  rw (delete_reply p al o code a not_null in_range member stub live)
      (invoke_gone (record o { heap = free a o.heap }) a m (load-free_self a o.heap)),
)
