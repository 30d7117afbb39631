-- ===== src/Tests/Safety.antt =====
-- The server that holds a number and a calculator serves a call.
use mathlib.Core.Path.{subst}
use dcom.Base.{
  ℕ, ◌<◌, ◌≡◌, ◌≢◌, refl, ap, sym, ◌∙◌, Bool, false, Option, none, ok, inl, inr, true, [], ◌∷◌,
  some, codes, arith, ◌==◌, Bool-cases, pos, Ensures,
}
use dcom.Calculator.{calculator, ICalculator}
use dcom.Marshaller.Access.{init_helper-IsWell}
use dcom.Marshaller.{empty_marshaller, init_helper}
use dcom.ObjectManager.Invariant.{Inv, NoneDeleted}
use dcom.ObjectManager.Safety.{Served, process_request_safe, calculator-IsSafe}
use dcom.ObjectManager.History.{nothing_yet, one_more, kept_number_stays}
use dcom.ObjectManager.Creation.{create_string_reply}
use dcom.ObjectManager.{insert}
use dcom.ObjectManager.Store.{
  keep_string, a_number, StoreReply, look_up, Serves, contents, request_message, reply_message,
  process_request-Serves,
}
use dcom.ObjectManager.{load, contains, ObjectManager, process_request}
use dcom.ServerStub.Safety.{StubIsSafe}
use dcom.ServerStub.{ServerStub, custom, primitive_int, primitive_string}
use dcom.Tests.Machine.{windows, allocator, allocate}

abbrev pub two_live : ObjectManager
two_live = record {
  all_objects = 4112 ∷ 4096 ∷ [];
  heap = (4112, primitive_int (pos 7)) ∷ (4096, custom (some calculator)) ∷ [];
}

two_known :
    (a : ℕ) (stub : ServerStub)
    → load a two_live.heap ≡ some stub
    → (contains a two_live.all_objects ≡ true) × (0 < a) × StubIsSafe stub
unfolding load contains
two_known a stub h = elim (Bool-cases (4112 == a)) [
  | inl first ↦
      let e : primitive_int (pos 7) ≡ stub = ground arith in
      (ground arith, ground arith, subst StubIsSafe e tt)
  | inr other ↦ elim (Bool-cases (4096 == a)) [
    | inl second ↦
        let e : custom (some calculator) ≡ stub = ground arith in
        (ground arith, ground arith, subst StubIsSafe e calculator-IsSafe)
    | inr neither ↦ absurd (ground arith)
  ]
]

two_live-Inv : Inv two_live
two_live-Inv = record { known = two_known }

two_live-NoneDeleted : NoneDeleted two_live
unfolding load contains
two_live-NoneDeleted a h = elim (Bool-cases (4112 == a)) [
  | inl first ↦ (primitive_int (pos 7), ground arith)
  | inr other ↦ (custom (some calculator), ground arith)
]

process_request_safe_example : Ensures Served (
    process_request windows allocator two_live
      (init_helper empty_marshaller (codes "0?0000000000001000?0?2?3?0")))
process_request_safe_example =
    process_request_safe windows allocator two_live
      (init_helper empty_marshaller (codes "0?0000000000001000?0?2?3?0")) two_live-Inv
      two_live-NoneDeleted
      (init_helper-IsWell empty_marshaller (codes "0?0000000000001000?0?2?3?0"))

allocated_third : allocate two_live.heap ≡ some 4128
unfolding allocate
allocated_third = refl

number_there : load 4112 two_live.heap ≡ some (primitive_int (pos 7))
unfolding load
number_there = refl

is_number : Option ServerStub → Bool
is_number (some (primitive_int v)) = true
is_number (some (primitive_string s)) = false
is_number (some (custom c)) = false
is_number none = false

not_a_calculator : (c : Option ICalculator) → load 4112 two_live.heap ≢ some (custom c)
unfolding is_number
not_a_calculator c e = let clash : true ≡ false = ap is_number (sym number_there ∙ e) in cc

process_request-Serves_example :
    (o' : ObjectManager) × (reply : StoreReply) × (process_request windows allocator two_live
        (request_message windows (look_up 4112))
      ≡ ok (o', reply_message windows (look_up 4112) reply))
    × Serves (contents two_live) (look_up 4112) reply (contents o')
    × Inv o'
    × NoneDeleted o'
process_request-Serves_example =
    process_request-Serves windows allocator two_live two_live-Inv two_live-NoneDeleted
      (look_up 4112) 4128
      (λ e. absurd (omega arith), omega arith, λ c e. not_a_calculator c e, λ e. cc) allocated_third

-- A client keeps a string, and the number that was there before is read after that.
abbrev three_live : ObjectManager
three_live = record {
  all_objects = insert 4128 two_live.all_objects;
  heap = (4128, primitive_string (codes "abc")) ∷ two_live.heap;
}

kept_number_stays_example :
    process_request windows allocator three_live (request_message windows (look_up 4112))
    ≡ ok (three_live, reply_message windows (look_up 4112) (a_number (pos 7)))
kept_number_stays_example =
    kept_number_stays windows allocator two_live two_live-Inv two_live-NoneDeleted 4112 (pos 7)
      number_there (λ e. absurd (omega arith)) (omega arith) three_live
      (one_more two_live three_live (keep_string (codes "abc")) 4128 _ nothing_yet tt
        allocated_third
        (create_string_reply windows allocator two_live (pos 0) (codes "abc") [] 4128
          allocated_third))
