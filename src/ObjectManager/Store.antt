-- ===== src/ObjectManager/Store.antt =====
-- What the server promises to a client that keeps numbers and strings there: a map from handles to
-- values. How the objects are kept, in a heap and in a collection of pointers, is not part of it.
use dcom.Base.{
  ℕ, ◌<◌, ◌≡◌, ◌≢◌, sym, ◌∙◌, inl, inr, Bool-cases, false, List, [], ◌∷◌, Option, none, some,
  Option-cases, Bytes, ℤ, pos, IsInt, ok,
}
use dcom.Calculator.{ICalculator}
use dcom.Constants.{error_success, error_no_object_found, handle_count}
use dcom.Format.{Platform}
use dcom.Marshaller.{Marshaller}
use dcom.ObjectManager.Heap.{load_new, load_old}
use dcom.ObjectManager.Invariant.{Inv, NoneDeleted, Inv-insert, NoneDeleted-insert}
use dcom.ObjectManager.Creation.{create_int_reply, create_string_reply}
use dcom.ObjectManager.Requests.{call_reply, call_unknown}
use dcom.ObjectManager.{
  Allocator, ObjectManager, contains, insert, load, process_request, e_create_int_disp_id,
  e_create_string_disp_id,
}
use dcom.Protocol.{message}
use dcom.ServerStub.Replies.{invoke_int_reply, invoke_string_reply}
use dcom.ServerStub.{ServerStub, custom, primitive_int, primitive_string}
use dcom.Stream.{print_int}

abbrev pub Store : Type 0
Store = ℕ → Option ServerStub

abbrev pub contents : ObjectManager → Store
contents o a = load a o.heap

pub data StoreRequest : Type 0 where
  keep_int : ℤ → StoreRequest
  keep_string : Bytes → StoreRequest
  look_up : ℕ → StoreRequest

pub data StoreReply : Type 0 where
  made_at : ℕ → StoreReply
  a_number : ℤ → StoreReply
  a_text : Bytes → StoreReply
  no_object : StoreReply

-- The messages of `SendPrimitiveData` and `GetPrimitiveData<int>`, and of the server's replies.
abbrev pub request_message : Platform → StoreRequest → Marshaller
request_message p (keep_int v) = message p (pos 0) 0 e_create_int_disp_id (print_int v ∷ [])
request_message p (keep_string s) = message p (pos 0) 0 e_create_string_disp_id (s ∷ [])
request_message p (look_up a) = message p (pos 0) a e_create_int_disp_id []

abbrev reply_parameters : Platform → StoreReply → List Bytes
reply_parameters p (made_at b) = p.handle_format.print b ∷ []
reply_parameters p (a_number v) = print_int v ∷ []
reply_parameters p (a_text s) = s ∷ []
reply_parameters p no_object = []

abbrev reply_code : StoreReply → ℤ
reply_code (made_at b) = error_success
reply_code (a_number v) = error_success
reply_code (a_text s) = error_success
reply_code no_object = error_no_object_found

abbrev pub reply_message : Platform → StoreRequest → StoreReply → Marshaller
reply_message p (keep_int v) r =
    message p (reply_code r) 0 e_create_int_disp_id (print_int v ∷ reply_parameters p r)
reply_message p (keep_string s) r =
    message p (reply_code r) 0 e_create_string_disp_id (s ∷ reply_parameters p r)
reply_message p (look_up a) r =
    message p (reply_code r) a e_create_int_disp_id (reply_parameters p r)

-- The second store has one more value, at a handle that was free.
pub record Adds (s : Store) (b : ℕ) (stub : ServerStub) (s' : Store) : Type 0 where
  pub was_free : s b ≡ none
  pub added : s' b ≡ some stub
  pub others : (c : ℕ) → b ≢ c → s' c ≡ s c

-- What a request does to a store, and how it is answered.
pub data Serves (s : Store) : StoreRequest → StoreReply → Store → Type 0 where
  int_kept :
      (v : ℤ) (b : ℕ) (s' : Store)
      → Adds s b (primitive_int v) s'
      → Serves s (keep_int v) (made_at b) s'
  string_kept :
      (t : Bytes) (b : ℕ) (s' : Store)
      → Adds s b (primitive_string t) s'
      → Serves s (keep_string t) (made_at b) s'
  int_read : (a : ℕ) (v : ℤ) → s a ≡ some (primitive_int v) → Serves s (look_up a) (a_number v) s
  string_read :
      (a : ℕ) (t : Bytes) → s a ≡ some (primitive_string t) → Serves s (look_up a) (a_text t) s
  not_found : (a : ℕ) → s a ≡ none → Serves s (look_up a) no_object s

-- A number is an `int`; what is read is not null and not a `Calculator`, and the server has some object.
abbrev pub CanServe : ObjectManager → StoreRequest → Type 0
CanServe o (keep_int v) = IsInt v
CanServe o (keep_string s) = Unit
CanServe o (look_up a) =
    (a ≢ 0)
    × (a < handle_count)
    × ((c : Option ICalculator) → load a o.heap ≢ some (custom c))
    × (o.all_objects ≢ [])

module _ (p : Platform) (al : Allocator) (o : ObjectManager) (inv : Inv o)
    (live : NoneDeleted o) where
  adds :
      (b : ℕ) (stub : ServerStub) (s : List ℕ)
      → al.allocate o.heap ≡ some b
      → Adds (contents o) b stub (contents (record { all_objects = s; heap = (b, stub) ∷ o.heap }))
  adds b stub s allocated = record {
    was_free = (al.fresh o.heap b allocated).2;
    added = load_new b stub o.heap;
    others = λ c apart. load_old c b stub o.heap apart;
  }

  unknown_here : (a : ℕ) → load a o.heap ≡ none → contains a o.all_objects ≡ false
  unknown_here a gone = elim (Bool-cases (contains a o.all_objects)) [
    | inl member ↦
        let (stub, found) = live a member in let clash : none ≡ some stub = sym gone ∙ found in cc
    | inr other ↦ other
  ]

  -- A `look_up`, by what the handle refers to.
  look_up-Serves :
      (a : ℕ)
      → CanServe o (look_up a)
      → (reply : StoreReply) × (process_request p al o (request_message p (look_up a))
          ≡ ok (o, reply_message p (look_up a) reply))
        × Serves (contents o) (look_up a) reply (contents o)
  look_up-Serves a (not_null, in_range, no_calculator, some_object) =
      elim (Option-cases (load a o.heap)) [
        | inl gone ↦ (
          no_object,
          call_unknown p al o (pos 0) a e_create_int_disp_id [] not_null in_range some_object
              (unknown_here a gone),
          not_found a gone,
        )
        | inr (stub, found) ↦ of_stub stub found
      ]
    where
      of_stub :
          (stub : ServerStub)
          → load a o.heap ≡ some stub
          → (reply : StoreReply) × (process_request p al o (request_message p (look_up a))
              ≡ ok (o, reply_message p (look_up a) reply))
            × Serves (contents o) (look_up a) reply (contents o)
      of_stub (custom c) found = absurd (no_calculator c found)
      of_stub (primitive_int v) found = (
        a_number v,
        call_reply p al o (pos 0) a e_create_int_disp_id [] not_null in_range (primitive_int v)
            (print_int v ∷ []) error_success (inv.known a (primitive_int v) found).0 found
            (invoke_int_reply p (pos 0) a e_create_int_disp_id [] v),
        int_read a v found,
      )
      of_stub (primitive_string t) found = (
        a_text t,
        call_reply p al o (pos 0) a e_create_int_disp_id [] not_null in_range (primitive_string t)
            (t ∷ []) error_success (inv.known a (primitive_string t) found).0 found
            (invoke_string_reply p (pos 0) a e_create_int_disp_id [] t),
        string_read a t found,
      )

  -- From a state in which the known pointers are those of the live objects, `ProcessRequest` answers a
  -- request to keep an `int` or a string, or to read what a handle refers to, as the map from handles
  -- to values does, if there is memory for one more object; and such a state is left behind. A value
  -- is kept at a handle that was free, and the others stay; a handle that refers to nothing is
  -- answered with an error. The handle that is read is an address that is not null and not that of a
  -- `Calculator`, and the server that is asked for it has some object.
  pub process_request-Serves :
      (r : StoreRequest) (b : ℕ)
      → CanServe o r
      → al.allocate o.heap ≡ some b
      → (o' : ObjectManager) × (reply : StoreReply) × (process_request p al o (request_message p r)
          ≡ ok (o', reply_message p r reply))
        × Serves (contents o) r reply (contents o')
        × Inv o'
        × NoneDeleted o'
  process_request-Serves (keep_int v) b can allocated = (
    _,
    made_at b,
    create_int_reply p al o (pos 0) v b can allocated,
    int_kept v b _ (adds b (primitive_int v) (insert b o.all_objects) allocated),
    Inv-insert o b (primitive_int v) inv (al.fresh o.heap b allocated).0 tt,
    NoneDeleted-insert o b (primitive_int v) live,
  )
  process_request-Serves (keep_string s) b can allocated = (
    _,
    made_at b,
    create_string_reply p al o (pos 0) s [] b allocated,
    string_kept s b _ (adds b (primitive_string s) (insert b o.all_objects) allocated),
    Inv-insert o b (primitive_string s) inv (al.fresh o.heap b allocated).0 tt,
    NoneDeleted-insert o b (primitive_string s) live,
  )
  process_request-Serves (look_up a) b can allocated =
      let (reply, answered, serves) = look_up-Serves a can in
      (o, reply, answered, serves, inv, live)
