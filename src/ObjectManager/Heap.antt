-- ===== src/ObjectManager/Heap.antt =====
-- Laws of the heap and of the set of pointers.
use dcom.Base.{
  ℕ, ◌≡◌, ◌≢◌, refl, ◌⊎◌, inl, inr, true, List, [], ◌∷◌, none, some, arith, ◌==◌, Bool-cases,
  if◌then◌else◌,
}
use dcom.ObjectManager.{Heap, load, free, contains, insert}
use dcom.ServerStub.{ServerStub}

pub load-cons :
    (a b : ℕ) (stub : ServerStub) (h : Heap)
    → load a ((b, stub) ∷ h) ≡ (if b == a then some stub else load a h)
unfolding load
load-cons a b stub h = refl

-- A new object is found at its address, and the others where they were.
pub load_new : (a : ℕ) (stub : ServerStub) (h : Heap) → load a ((a, stub) ∷ h) ≡ some stub
unfolding load
load_new a stub h = ground arith

pub load_old : (a b : ℕ) (stub : ServerStub) (h : Heap) → b ≢ a → load a ((b, stub) ∷ h) ≡ load a h
unfolding load
load_old a b stub h apart = ground arith

-- What is freed is gone, and nothing else.
pub load-free_self : (a : ℕ) (h : Heap) → load a (free a h) ≡ none
unfolding load free
load-free_self a [] = refl
load-free_self a ((b, stub) ∷ h) = ground (arith, load-free_self a h)

pub load-free_other : (a b : ℕ) (h : Heap) → b ≢ a → load a (free b h) ≡ load a h
unfolding load free
load-free_other a b [] apart = refl
load-free_other a b ((c, stub) ∷ h) apart = ground (arith, load-free_other a b h apart)

pub load-free_sub :
    (a b : ℕ) (h : Heap) (stub : ServerStub) → load a (free b h) ≡ some stub → load a h ≡ some stub
unfolding load free
load-free_sub a b [] stub e = e
load-free_sub a b ((c, kept) ∷ h) stub e =
    ground (arith, load-free_sub a b h stub, load-free_self a h)

pub contains-insert_self : (a : ℕ) (s : List ℕ) → contains a (insert a s) ≡ true
unfolding insert
contains-insert_self a s = elim (Bool-cases (contains a s)) [
  | inl e ↦ rw e e
  | inr e ↦ rw e (unfold contains in ground arith)
]

pub contains-insert_old :
    (a b : ℕ) (s : List ℕ) → contains a s ≡ true → contains a (insert b s) ≡ true
unfolding insert
contains-insert_old a b s h = elim (Bool-cases (contains b s)) [
  | inl e ↦ rw e h
  | inr e ↦ rw e (unfold contains in ground arith)
]

pub contains-insert_inv :
    (a b : ℕ) (s : List ℕ) → contains a (insert b s) ≡ true → (b ≡ a) ⊎ (contains a s ≡ true)
unfolding insert
contains-insert_inv a b s = elim (Bool-cases (contains b s)) [
  | inl e ↦ rw e (λ h. inr h)
  | inr e ↦ rw e (λ h. unfold contains in ground arith)
]
