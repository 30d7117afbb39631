-- ===== src/Marshaller/Safety.antt =====
-- The accesses that the program makes, at the places 1 to 3 and at the parameters of a function
-- from 1 on, stay inside the vector and keep the count right.
use dcom.Base.{
  ℕ, suc, ◌+◌, ◌^◌, ◌<◌, ◌≡◌, sym, inl, inr, Bool, [], length, length-set, get_or, arith, ltb,
  Bool-cases, pos, ok, Ensures,
}
use mathlib.Core.Path.{subst}
use dcom.Format.{Format}
use dcom.Marshaller.Access.{
  IsWell, padded, get_parameter_at, get_parameter_beyond, set_parameter_lem,
  get_function_parameter_lem, set_function_parameter_lem,
}
use dcom.Marshaller.{
  Marshaller, get_parameter, set_parameter, get_function_parameter, set_function_parameter,
}

module _ {ℓ} {T : Type ℓ} (f : Format T) (m : Marshaller) (i : ℕ) (well : IsWell m) where
  pub get_parameter_total : (t : T) → (v : T) × (get_parameter f m (pos (suc i)) t ≡ ok v)
  get_parameter_total t = elim (Bool-cases (ltb i (length m.all_parameters))) [
    | inl e ↦
        (f.extract t (get_or m.all_parameters i []), get_parameter_at f m i well t (ground arith))
    | inr e ↦ (t, get_parameter_beyond f m i well t (ground arith))
  ]

  pub get_parameter_safe : (t : T) → Ensures (λ _. Unit {0}) (get_parameter f m (pos (suc i)) t)
  get_parameter_safe t = let (v, e) = get_parameter_total t in rw e tt

  pub set_parameter_safe : (v : T) → i < 2 ^ 31 → Ensures IsWell (set_parameter f m (pos (suc i)) v)
  set_parameter_safe v h =
      subst (Ensures IsWell) (sym (set_parameter_lem f m i well v h))
        (sym (length-set (padded (suc i) m.all_parameters) i (f.print v)))

module _ {ℓ} {T : Type ℓ} (f : Format T) (m : Marshaller) (i : ℕ) (well : IsWell m) where
  pub get_function_parameter_safe :
      (t : T) → Ensures (λ _. Unit {0}) (get_function_parameter f m (pos (suc i)) t)
  get_function_parameter_safe t =
      subst (Ensures (λ _. Unit {0})) (sym (get_function_parameter_lem f m i t))
        (get_parameter_safe f m (i + 3) well t)

  pub set_function_parameter_safe :
      (v : T)
      → i + 3 < 2 ^ 31
      → Ensures (λ (r : Marshaller × Bool). IsWell r.0) (set_function_parameter f m (pos (suc i)) v)
  set_function_parameter_safe v h =
      subst (Ensures (λ (r : Marshaller × Bool). IsWell r.0))
        (sym (set_function_parameter_lem f m i v well h))
        (sym (length-set (padded (suc (i + 3)) m.all_parameters) (i + 3) (f.print v)))
