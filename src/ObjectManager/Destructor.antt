-- ===== src/ObjectManager/Destructor.antt =====
-- The destructor of the object manager.
use dcom.Base.{
  ℕ, suc, ℤ, ◌<◌, ◌≡◌, ◌≢◌, sym, ◌∙◌, inl, inr, true, List, [], ◌∷◌, none, some, arith, ◌==◌,
  ==_iff, ap, Bool-cases, Option-cases, ok, err, dangling, ◌>>=◌, Outcome,
}
use mathlib.Core.Path.{subst}
use dcom.ObjectManager.Cases.{none-ne-some}
use dcom.ObjectManager.Heap.{load-free_self, load-free_other}
use dcom.Constants.{handle_count}
use dcom.Format.{Platform}
use dcom.ObjectManager.Lifetime.{delete_request, delete_other}
use dcom.ObjectManager.{
  Heap, Allocator, process_request, load, free, contains, delete_all, destroy_manager,
  ObjectManager,
}
use dcom.ServerStub.{ServerStub}

-- What is gone stays gone.
load-free_gone : (a b : ℕ) (h : Heap) → load a h ≡ none → load a (free b h) ≡ none
load-free_gone a b h gone = elim (Bool-cases (b == a)) [
  | inl same ↦
      subst (λ c. load a (free c h) ≡ none) (sym ((==_iff b a).0 same)) (load-free_self a h)
  | inr apart ↦ load-free_other a b h (ground arith) ∙ gone
]

delete_all-dangling :
    (a : ℕ) (s : List ℕ) (h : Heap)
    → contains a s ≡ true
    → load a h ≡ none
    → delete_all s h ≡ err dangling
unfolding delete_all contains
delete_all-dangling a [] h member gone = cc
delete_all-dangling a (b ∷ s) h member gone = elim (Option-cases (load b h)) [
  | inl e ↦ rw (delete_all, e)
  | inr (stub, e) ↦
      rw (delete_all, e)
        (elim (Bool-cases (b == a)) [
          | inl same ↦
              let found : load a h ≡ some stub =
                subst (λ c. load c h ≡ some stub) ((==_iff b a).0 same) e in
              absurd (none-ne-some stub (sym gone ∙ found))
          | inr apart ↦
              delete_all-dangling a s (free b h) (ground arith) (load-free_gone a b h gone)
        ])
]

destroy_manager-dangling :
    (o : ObjectManager) (a : ℕ)
    → contains a o.all_objects ≡ true
    → load a o.heap ≡ none
    → destroy_manager o ≡ err dangling
unfolding destroy_manager
destroy_manager-dangling o a member gone =
    ap (λ (r : Outcome Heap). r >>= λ h. ok (record { all_objects = []; heap = h }))
      (delete_all-dangling a o.all_objects o.heap member gone)

-- After the deletion of a live object on a client's request, the destructor deletes it again.
pub deleted_twice :
    (p : Platform) (al : Allocator) (o : ObjectManager) (a : ℕ) (stub : ServerStub) (code : ℤ)
    → a ≢ 0
    → a < handle_count
    → contains a o.all_objects ≡ true
    → load a o.heap ≡ some stub
    → (do (o', reply) ← process_request p al o (delete_request p code a); destroy_manager o')
      ≡ err dangling
deleted_twice p al o a stub code not_null in_range member live =
    let (o', served, gone, _, same) =
      delete_other p al o a (suc a) stub code not_null in_range member live
        (λ e. absurd (omega arith)) in
    let kept : contains a o'.all_objects ≡ true =
      subst (λ s. contains a s ≡ true) (sym same) member in
    rw served (destroy_manager-dangling o' a kept gone)
