-- ===== src/Marshaller/Wire.antt =====
-- The wire format: a message is written as its parameters with the delimiter between them, and is
-- read back whole.
use dcom.Base.{
  ℕ, suc, ◌+◌, ◌-◌, ◌<◌, ◌≡◌, ◌≢◌, refl, sym, ap, ◌∙◌, true, false, List, [], ◌∷◌, ◌++◌,
  append_assoc, append-nil, Bytes, length, length-append, All, Lacks, arith, ◌==◌, ok, at,
}
use dcom.Constants.{npos}
use dcom.Marshaller.Access.{IsWell}
use dcom.Marshaller.{Marshaller, of_text, wire_from, get_wire_format}
use dcom.Tokenize.Split.{split, join, push_all_tokens-split, split-join, join-split}
use dcom.Tokenize.{wire_delimiter}

at_middle : (xs ys : List Bytes) (p : Bytes) → at (xs ++ p ∷ ys) (length xs) ≡ ok p
at_middle [] ys p = refl
at_middle (x ∷ xs) ys p = at_middle xs ys p

module _ (m : Marshaller) (left index : ℕ) (s p : Bytes)
    (found : at m.all_parameters index ≡ ok p) where
  wire_from_inner :
      index + 1 < m.total_number_of_parameters
      → wire_from (suc left) index m s
        ≡ wire_from left (index + 1) m ((s ++ p) ++ wire_delimiter ∷ [])
  unfolding wire_from
  wire_from_inner h =
      let inner : (index == m.total_number_of_parameters - 1) ≡ false = ground arith in
      rw (found, inner)

  wire_from_last :
      index + 1 ≡ m.total_number_of_parameters
      → wire_from (suc left) index m s ≡ wire_from left (index + 1) m (s ++ p)
  unfolding wire_from
  wire_from_last h =
      let last : (index == m.total_number_of_parameters - 1) ≡ true = ground arith in
      rw (found, last)

regroup :
    (s p q : Bytes) (ps : List Bytes)
    → ((s ++ p) ++ wire_delimiter ∷ []) ++ join (q ∷ ps) ≡ s ++ join (p ∷ q ∷ ps)
regroup s p q ps = rw (append_assoc (s ++ p), append_assoc s p) (unfold join in refl)

wire_from-join :
    (ps xs : List Bytes) (m : Marshaller) (s : Bytes)
    → m.all_parameters ≡ xs ++ ps
    → m.total_number_of_parameters ≡ length xs + length ps
    → wire_from (length ps) (length xs) m s ≡ ok (s ++ join ps)
wire_from-join [] xs m s e total = unfold wire_from join in ap ok (sym (append-nil s))
wire_from-join (p ∷ []) xs m s e total =
    wire_from_last m 0 (length xs) s p (rw e (at_middle xs [] p)) (omega arith)
    ∙ unfold wire_from join in refl
wire_from-join (p ∷ q ∷ ps) xs m s e total =
    wire_from_inner m (suc (length ps)) (length xs) s p (rw e (at_middle xs (q ∷ ps) p))
      (omega arith)
    ∙ rw next (
        wire_from-join (q ∷ ps) (xs ++ p ∷ []) m ((s ++ p) ++ wire_delimiter ∷ [])
          (e ∙ sym (append_assoc xs (p ∷ []) (q ∷ ps))) (omega (arith, next)))
    ∙ ap ok (regroup s p q ps)
  where
    next : length xs + 1 ≡ length (xs ++ p ∷ [])
    next = omega (arith, length-append xs (p ∷ []))

pub get_wire_format-join :
    (m : Marshaller) → IsWell m → get_wire_format m ≡ ok (join m.all_parameters)
unfolding get_wire_format
get_wire_format-join m well =
    ap (λ (n : ℕ). wire_from n 0 m []) well
    ∙ (wire_from-join m.all_parameters [] m [] refl (omega arith))

pub of_text-split :
    (s : Bytes)
    → length s < npos
    → of_text s ≡ record { all_parameters = split s; total_number_of_parameters = length (split s) }
unfolding of_text
of_text-split s fits = rw (push_all_tokens-split s [] fits)

-- A message with the right count and at least one parameter, none of which holds the delimiter, is
-- what its wire format is read as, if that is shorter than `npos`.
pub of_text-wire :
    (m : Marshaller) (s : Bytes)
    → IsWell m
    → m.all_parameters ≢ []
    → All (Lacks wire_delimiter) m.all_parameters
    → get_wire_format m ≡ ok s
    → length s < npos
    → of_text s ≡ m
of_text-wire m s well some_parameter lacks e fits = go m.all_parameters refl some_parameter lacks
  where
    joined : join m.all_parameters ≡ s
    joined = cc (get_wire_format-join m well)

    go :
        (ps : List Bytes)
        → m.all_parameters ≡ ps
        → ps ≢ []
        → All (Lacks wire_delimiter) ps
        → of_text s ≡ m
    go [] at_ps nonempty h = absurd (nonempty refl)
    go (p ∷ ps) at_ps nonempty h =
        of_text-split s fits ∙ rw (← joined, at_ps, split-join p ps h) (ground arith)

-- Any text shorter than `npos` is the wire format of the message that is read from it.
pub wire-of_text : (s : Bytes) → length s < npos → get_wire_format (of_text s) ≡ ok s
wire-of_text s fits = rw (of_text-split s fits) (get_wire_format-join _ refl ∙ ap ok (join-split s))
