-- ===== src/ObjectManager/Invariant.antt =====
-- The invariant of the server's objects, and what an insertion and a deletion do to it.
use mathlib.Core.Path.{subst}
use dcom.Base.{ℕ, ◌<◌, ◌≡◌, sym, ◌∙◌, inl, inr, true, ◌∷◌, some, arith, ◌==◌, ==_iff, Bool-cases}
use dcom.ObjectManager.Heap.{
  load_new, load_old, load-free_sub, contains-insert_self, contains-insert_old, contains-insert_inv,
}
use dcom.ObjectManager.{load, free, ObjectManager, contains, insert}
use dcom.ServerStub.Safety.{StubIsSafe}
use dcom.ServerStub.{ServerStub}

-- Each live object is known, at an address that is not null, and its functions are safe.
pub record Inv (o : ObjectManager) : Type 0 where
  pub known :
      (a : ℕ) (stub : ServerStub)
      → load a o.heap ≡ some stub
      → (contains a o.all_objects ≡ true) × (0 < a) × StubIsSafe stub

-- Each known pointer is to a live object.
abbrev pub NoneDeleted : ObjectManager → Type 0
NoneDeleted o =
    (a : ℕ) → contains a o.all_objects ≡ true → (stub : ServerStub) × (load a o.heap ≡ some stub)

-- The invariant after an insertion and after a deletion.
pub Inv-insert :
    (o : ObjectManager) (a : ℕ) (stub : ServerStub)
    → Inv o
    → 0 < a
    → StubIsSafe stub
    → Inv (record { all_objects = insert a o.all_objects; heap = (a, stub) ∷ o.heap })
Inv-insert o a stub inv positive safe = record { known = known }
  where
    known :
        (b : ℕ) (other : ServerStub)
        → load b ((a, stub) ∷ o.heap) ≡ some other
        → (contains b (insert a o.all_objects) ≡ true) × (0 < b) × StubIsSafe other
    known b other e = elim (Bool-cases (a == b)) [
      | inl same ↦
          let eq = (==_iff a b).0 same in
          let found : stub ≡ other = cc (load_new a stub o.heap, eq) in
          subst (λ c. (contains c (insert a o.all_objects) ≡ true) × (0 < c) × StubIsSafe other) eq
            (contains-insert_self a o.all_objects, positive, subst StubIsSafe found safe)
      | inr apart ↦
          let old = load_old b a stub o.heap (ground arith) in
          let (member, pos_b, safe_b) = inv.known b other (sym old ∙ e) in
          (contains-insert_old b a o.all_objects member, pos_b, safe_b)
    ]

pub Inv-free : (o : ObjectManager) (a : ℕ) → Inv o → Inv (record o { heap = free a o.heap })
Inv-free o a inv = record { known = λ b stub e. inv.known b stub (load-free_sub b a o.heap stub e) }

pub NoneDeleted-insert :
    (o : ObjectManager) (a : ℕ) (stub : ServerStub)
    → NoneDeleted o
    → NoneDeleted (record { all_objects = insert a o.all_objects; heap = (a, stub) ∷ o.heap })
NoneDeleted-insert o a stub live b member = elim (Bool-cases (a == b)) [
  | inl same ↦
      let eq = (==_iff a b).0 same in
      (stub, subst (λ c. load c ((a, stub) ∷ o.heap) ≡ some stub) eq (load_new a stub o.heap))
  | inr apart ↦ elim (contains-insert_inv b a o.all_objects member) [
    | inl same ↦ absurd (ground arith)
    | inr old ↦ let (kept, e) = live b old in (kept, load_old b a stub o.heap (ground arith) ∙ e)
  ]
]
