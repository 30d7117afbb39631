-- ===== src/ObjectManager/History.antt =====
-- A value that is kept on the server, over the requests of all clients that come after.
use dcom.Base.{
  ℕ, ◌<◌, ◌≡◌, ◌≢◌, sym, ◌∙◌, inl, inr, Bool-cases, none, some, [], ◌∷◌, arith, ◌==◌, ==_iff, ℤ,
  pos, ok,
}
use dcom.Constants.{error_success, handle_count}
use dcom.Format.{Platform}
use dcom.Marshaller.{Marshaller}
use dcom.ObjectManager.Invariant.{Inv, NoneDeleted}
use dcom.ObjectManager.Requests.{call_reply}
use dcom.ObjectManager.Store.{
  Store, StoreRequest, StoreReply, look_up, a_number, Adds, Serves, int_kept, string_kept, int_read,
  string_read, not_found, CanServe, contents, request_message, reply_message,
  process_request-Serves,
}
use dcom.ObjectManager.{Allocator, ObjectManager, load, process_request, e_create_int_disp_id}
use dcom.ServerStub.Replies.{invoke_int_reply}
use dcom.ServerStub.{ServerStub, primitive_int}
use dcom.Stream.{print_int}
use mathlib.Core.Path.{subst}

Adds-keeps :
    (s s' : Store) (a b : ℕ) (stub kept : ServerStub)
    → Adds s b stub s'
    → s a ≡ some kept
    → s' a ≡ some kept
Adds-keeps s s' a b stub kept adds found = elim (Bool-cases (b == a)) [
  | inl same ↦
      let here : s a ≡ none = subst (λ c. s c ≡ none) ((==_iff b a).0 same) adds.was_free in
      let clash : none ≡ some kept = sym here ∙ found in cc
  | inr apart ↦ adds.others a (ground arith) ∙ found
]

-- No request to the map takes a value out of it, or changes one.
pub Serves-keeps :
    (s s' : Store) (a : ℕ) (kept : ServerStub) (r : StoreRequest) (reply : StoreReply)
    → Serves s r reply s'
    → s a ≡ some kept
    → s' a ≡ some kept
Serves-keeps s s' a kept _ _ (int_kept v b _ adds) found =
    Adds-keeps s s' a b (primitive_int v) kept adds found
Serves-keeps s s' a kept _ _ (string_kept t b _ adds) found = Adds-keeps s s' a b _ kept adds found
Serves-keeps s _ a kept _ _ (int_read c v e) found = found
Serves-keeps s _ a kept _ _ (string_read c t e) found = found
Serves-keeps s _ a kept _ _ (not_found c e) found = found

-- Requests to keep and to read that the server answered one after the other, from whatever clients.
pub data History (p : Platform) (al : Allocator) (first : ObjectManager)
    : ObjectManager → Type 0 where
  nothing_yet : History p al first first
  one_more :
      (o o' : ObjectManager) (r : StoreRequest) (b : ℕ) (reply : Marshaller)
      → History p al first o
      → CanServe o r
      → al.allocate o.heap ≡ some b
      → process_request p al o (request_message p r) ≡ ok (o', reply)
      → History p al first o'

module _ (p : Platform) (al : Allocator) (first : ObjectManager) (inv : Inv first)
    (live : NoneDeleted first) (a : ℕ) (kept : ServerStub)
    (found : load a first.heap ≡ some kept) where
  History-keeps :
      (o : ObjectManager)
      → History p al first o
      → Inv o × NoneDeleted o × (load a o.heap ≡ some kept)
  History-keeps _ nothing_yet = (inv, live, found)
  History-keeps _ (one_more o o' r b reply before can allocated answered) =
      let (inv_o, live_o, found_o) = History-keeps o before in
      let (next, said, served, serves, inv_next, live_next) =
        process_request-Serves p al o inv_o live_o r b can allocated in
      let same : next ≡ o' = cc (served, answered) in
      subst (λ o. Inv o × NoneDeleted o × (load a o.heap ≡ some kept)) same
        (
          inv_next,
          live_next,
          Serves-keeps (contents o) (contents next) a kept r said serves found_o,
        )

-- An `int` that the server holds at a handle is what every later look-up of the handle answers, whatever
-- requests to keep values and to read them were answered before, if what the server knew at first was
-- what it held; and a look-up leaves the server as it is.
pub kept_number_stays :
    (p : Platform) (al : Allocator) (first : ObjectManager)
    → Inv first
    → NoneDeleted first
    → (a : ℕ) (v : ℤ) → load a first.heap ≡ some (primitive_int v)
    → a ≢ 0
    → a < handle_count
    → (o : ObjectManager) → History p al first o
    → process_request p al o (request_message p (look_up a))
      ≡ ok (o, reply_message p (look_up a) (a_number v))
kept_number_stays p al first inv live a v found not_null in_range o before =
    let (inv_o, live_o, found_o) =
      History-keeps p al first inv live a (primitive_int v) found o before in
    call_reply p al o (pos 0) a e_create_int_disp_id [] not_null in_range (primitive_int v)
      (print_int v ∷ []) error_success (inv_o.known a (primitive_int v) found_o).0 found_o
      (invoke_int_reply p (pos 0) a e_create_int_disp_id [] v)
