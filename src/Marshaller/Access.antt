-- ===== src/Marshaller/Access.antt =====
-- Reading and writing the parameters of a message in which the count is right.
use dcom.Base.{
  ℕ, zero, suc, ◌+◌, ◌-◌, ◌^◌, ◌≤◌, ◌<◌, ◌≡◌, ◌≢◌, refl, sym, ap, ◌∙◌, inl, inr, true, false, List,
  [], ◌∷◌, ◌++◌, append-nil, Bytes, length, get_or, set, take, replicate, length-append, length-set,
  length-replicate, get_or-set_self, get_or-set_ne, get_or-append, arith, ltb, leb, Bool-cases, ℤ,
  pos, ◌+ℤ◌, ok, ◌>>=◌, >>=-eq-ok, put, at-get_or, put-set, put-length,
}
use dcom.Format.{Format, Carries}
use dcom.Marshaller.{
  Marshaller, init_helper, to_size, pred_ℤ, grow, get_parameter, set_parameter,
  get_function_parameter, set_function_parameter, e_disp_id_position,
}

-- The count that the message keeps is the size of its vector.
abbrev pub IsWell : Marshaller → Type 0
IsWell m = m.total_number_of_parameters ≡ length m.all_parameters

abbrev pub padded : ℕ → List Bytes → List Bytes
padded n params = params ++ replicate (n - length params) []

-- The message with the text `s` at place `i`, counted from 0.
abbrev pub written : Marshaller → ℕ → Bytes → Marshaller
written m i s = record {
  all_parameters = set (padded (suc i) m.all_parameters) i s;
  total_number_of_parameters = length (padded (suc i) m.all_parameters);
}

take_all : (n : ℕ) (xs : List Bytes) → length xs ≤ n → take n xs ≡ xs
take_all zero [] h = refl
take_all zero (x ∷ xs) h = absurd (omega arith)
take_all (suc n) [] h = refl
take_all (suc n) (x ∷ xs) h = ap (◌∷◌ x) (take_all n xs (omega arith))

length-padded : (i : ℕ) (xs : List Bytes) → i < length (padded (suc i) xs)
length-padded i xs = omega (
  arith,
  length-append xs (replicate (suc i - length xs) []),
  length-replicate {A = Bytes} (suc i - length xs) [],
)

padded_id : (n : ℕ) (xs : List Bytes) → n ≤ length xs → padded n xs ≡ xs
padded_id n xs h = let e : n - length xs ≡ 0 = omega arith in rw e (append-nil xs)

grow_lem :
    (m : Marshaller) (i : ℕ)
    → IsWell m
    → i < 2 ^ 31
    → grow m (pos (suc i))
      ≡ ok (record {
        all_parameters = padded (suc i) m.all_parameters;
        total_number_of_parameters = length (padded (suc i) m.all_parameters);
      })
unfolding grow
grow_lem m i well h = elim (Bool-cases (ltb m.total_number_of_parameters (suc i))) [
  | inl e ↦
      let small : leb (suc i) (2 ^ 31) ≡ true = ground arith in
      let whole = take_all (suc i) m.all_parameters (ground arith) in rw (e, small, whole)
  | inr e ↦
      let whole = padded_id (suc i) m.all_parameters (ground arith) in rw (e, whole) (ground arith)
]

module _ {ℓ} {T : Type ℓ} (f : Format T) (m : Marshaller) (i : ℕ) (well : IsWell m) where
  -- A parameter that is there is read; beyond the end the default stays.
  pub get_parameter_at :
      (t : T)
      → i < length m.all_parameters
      → get_parameter f m (pos (suc i)) t ≡ ok (f.extract t (get_or m.all_parameters i []))
  unfolding get_parameter
  get_parameter_at t h = ground (arith, at-get_or m.all_parameters i [] h)

  pub get_parameter_beyond :
      (t : T) → length m.all_parameters ≤ i → get_parameter f m (pos (suc i)) t ≡ ok t
  unfolding get_parameter
  get_parameter_beyond t h = ground arith

  -- A write never fails at a place from 1 to 2 ^ 31, and pads with empty texts.
  pub set_parameter_lem :
      (v : T) → i < 2 ^ 31 → set_parameter f m (pos (suc i)) v ≡ ok (written m i (f.print v))
  unfolding set_parameter
  set_parameter_lem v h =
      rw (grow_lem m i well h, put-set _ i (f.print v) (length-padded i m.all_parameters))

get_or-replicate : (n i : ℕ) → get_or (replicate {A = Bytes} n []) i [] ≡ []
get_or-replicate zero i = refl
get_or-replicate (suc n) zero = refl
get_or-replicate (suc n) (suc i) = get_or-replicate n i

get_or_beyond :
    (xs ys : List Bytes) (i : ℕ)
    → length xs ≤ i
    → get_or (xs ++ ys) i [] ≡ get_or ys (i - length xs) []
get_or_beyond [] ys i h = let e : i - 0 ≡ i = omega arith in rw e
get_or_beyond (x ∷ xs) ys zero h = absurd (omega arith)
get_or_beyond (x ∷ xs) ys (suc i) h =
    let e : suc i - suc (length xs) ≡ i - length xs = omega arith in
    rw e (get_or_beyond xs ys i (omega arith))

get_or-nil : (i : ℕ) → get_or {A = Bytes} [] i [] ≡ []
get_or-nil zero = refl
get_or-nil (suc i) = refl

get_or_absent : (xs : List Bytes) (i : ℕ) → length xs ≤ i → get_or xs i [] ≡ []
get_or_absent xs i h = rw (← append-nil xs) (get_or_beyond xs [] i h ∙ get_or-nil (i - length xs))

-- Padding adds only empty texts.
get_or-padded : (n i : ℕ) (xs : List Bytes) → get_or (padded n xs) i [] ≡ get_or xs i []
get_or-padded n i xs = elim (Bool-cases (ltb i (length xs))) [
  | inl e ↦ get_or-append xs _ i [] (ground arith)
  | inr e ↦
      let h : length xs ≤ i = ground arith in
      get_or_beyond xs _ i h
      ∙ get_or-replicate (n - length xs) (i - length xs)
      ∙ sym (get_or_absent xs i h)
]

module _ {ℓ} {T : Type ℓ} (f : Format T) (m : Marshaller) (i : ℕ) (v : T) where
  pub get_parameter-written :
      (t : T) → Carries f v → get_parameter f (written m i (f.print v)) (pos (suc i)) t ≡ ok v
  get_parameter-written t carries =
      let room = length-padded i m.all_parameters in
      rw
        (
          get_parameter_at f (written m i (f.print v)) i
              (sym (length-set (padded (suc i) m.all_parameters) i (f.print v))) t
              (omega (arith, length-set (padded (suc i) m.all_parameters) i (f.print v), room)),
          get_or-set_self (padded (suc i) m.all_parameters) i (f.print v) [] room,
        )
        (ap ok (carries.reads_back t))

  -- In a message with the right count, a write at a place up to `2 ^ 31` succeeds, keeps the count
  -- right, makes no message shorter, and changes no text at another place; a place that it adds on
  -- the way is empty.
  pub set_parameter-other :
      (j : ℕ)
      → IsWell m
      → i < 2 ^ 31
      → i ≢ j
      → (m' : Marshaller) × (set_parameter f m (pos (suc i)) v ≡ ok m')
        × IsWell m'
        × (length m.all_parameters ≤ length m'.all_parameters)
        × (get_or m'.all_parameters j [] ≡ get_or m.all_parameters j [])
  set_parameter-other j well h apart = (
    written m i (f.print v),
    set_parameter_lem f m i well v h,
    sym (length-set (padded (suc i) m.all_parameters) i (f.print v)),
    omega (
      arith,
      length-set (padded (suc i) m.all_parameters) i (f.print v),
      length-append m.all_parameters (replicate (suc i - length m.all_parameters) []),
    ),
    get_or-set_ne (padded (suc i) m.all_parameters) i j (f.print v) [] apart
        ∙ get_or-padded (suc i) j m.all_parameters,
  )

grow-IsWell :
    (m : Marshaller) (index : ℤ) {m' : Marshaller} → IsWell m → grow m index ≡ ok m' → IsWell m'
unfolding grow
grow-IsWell m index well e = ground arith

-- Every write that succeeds, at any index, keeps the count right.
pub set_parameter-IsWell {ℓ} :
    {T : Type ℓ} (f : Format T) (m : Marshaller) (index : ℤ) (v : T) {m' : Marshaller}
    → IsWell m
    → set_parameter f m index v ≡ ok m'
    → IsWell m'
unfolding set_parameter
set_parameter-IsWell f m index v {m'} well e =
    let (g, grown, rest) = >>=-eq-ok (grow m index) _ e in
    let (params, stored, last) =
      >>=-eq-ok (put g.all_parameters (to_size (pred_ℤ index)) (f.print v)) _ rest in
    ground (arith, grow-IsWell m index well grown, put-length g.all_parameters _ _ stored)

pub init_helper-IsWell : (m : Marshaller) (s : Bytes) → IsWell (init_helper m s)
unfolding init_helper
init_helper-IsWell m s = refl

-- The parameters of the function begin behind the disp id.
pub function_index : (i : ℕ) → e_disp_id_position +ℤ pos (suc i) ≡ pos (suc (i + 3))
unfolding ◌+ℤ◌
function_index i = ground arith

module _ {ℓ} {T : Type ℓ} (f : Format T) (m : Marshaller) (i : ℕ) (v : T) where
  pub get_function_parameter_lem :
      get_function_parameter f m (pos (suc i)) v ≡ get_parameter f m (pos (suc (i + 3))) v
  unfolding get_function_parameter
  get_function_parameter_lem = rw (function_index i) (ground arith)

module _ {ℓ} {T : Type ℓ} (f : Format T) (m : Marshaller) (i : ℕ) (v : T) where
  pub set_function_parameter_lem :
      IsWell m
      → i + 3 < 2 ^ 31
      → set_function_parameter f m (pos (suc i)) v ≡ ok (written m (i + 3) (f.print v), true)
  unfolding set_function_parameter
  set_function_parameter_lem well h =
      rw (function_index i, set_parameter_lem f m (i + 3) well v h) (ground arith)

  -- Function parameter 0 is refused by both operations. In a message with the right count, any
  -- other up to `2 ^ 31 - 3` is read back as it was written, if the format carries the value.
  pub get-set_function_parameter :
      (t : T)
      → IsWell m
      → i + 3 < 2 ^ 31
      → Carries f v
      → (set_function_parameter f m (pos 0) v ≡ ok (m, false))
        × (get_function_parameter f m (pos 0) t ≡ ok t)
        × ((do
          (m', done) ← set_function_parameter f m (pos (suc i)) v
          get_function_parameter f m' (pos (suc i)) t)
            ≡ ok v)
  get-set_function_parameter t well h carries = (
    unfold set_function_parameter in refl,
    unfold get_function_parameter in refl,
    rw
        (
          set_function_parameter_lem well h,
          get_function_parameter_lem f (written m (i + 3) (f.print v)) i t,
        )
        (get_parameter-written f m (i + 3) v t carries),
  )
