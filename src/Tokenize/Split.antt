-- ===== src/Tokenize/Split.antt =====
-- The tokens of a text are its parts between the delimiters.
use dcom.Base.{
  ℕ, zero, suc, ◌+◌, ◌-◌, ◌≤◌, ◌<◌, ◌≡◌, refl, sym, ap, ◌∙◌, ◌⊎◌, inl, inr, List, [], ◌∷◌, ◌++◌,
  none, some, append_assoc, Bytes, length, take, drop, length-append, All, All-append, Lacks, arith,
  ◌==◌, Bool-cases, if◌then◌else◌, ◌≢◌,
}
use mathlib.Core.Path.{subst}
use dcom.Constants.{npos}
use dcom.Tokenize.{
  wire_delimiter, find_from, find_first_of, tokenize, push_tokens, push_all_tokens, rounds,
}

abbrev cons_head : ℕ → List Bytes → List Bytes
cons_head c [] = (c ∷ []) ∷ []
cons_head c (t ∷ ts) = (c ∷ t) ∷ ts

-- The parts of a text between the delimiters.
unfoldable pub split : Bytes → List Bytes
split [] = [] ∷ []
split (c ∷ s) = if c == wire_delimiter then [] ∷ split s else cons_head c (split s)

-- The parts with a delimiter between each two.
unfoldable pub join : List Bytes → Bytes
join [] = []
join (p ∷ []) = p
join (p ∷ q ∷ ps) = p ++ wire_delimiter ∷ join (q ∷ ps)

-- Where `find_from` stops, `split` cuts.
abbrev FirstToken : Bytes → ℕ → Type 0
FirstToken s i =
    ((find_from (wire_delimiter ∷ []) s i ≡ npos) × (split s ≡ s ∷ []))
    ⊎ ((k : ℕ) × (k < length s)
        × (find_from (wire_delimiter ∷ []) s i ≡ i + k)
        × (split s ≡ take k s ∷ split (drop (suc k) s)))

find-FirstToken : (s : Bytes) (i : ℕ) → FirstToken s i
unfolding find_from split
find-FirstToken [] i = inl (refl, refl)
find-FirstToken (c ∷ s) i = elim (Bool-cases (c == wire_delimiter)) [
  | inl e ↦ inr (0, omega arith, ground arith, ground arith)
  | inr e ↦ elim (find-FirstToken s (i + 1)) [
    | inl (f, p) ↦ inl (ground arith, ground (arith, p))
    | inr (k, lt, f, p) ↦ inr (suc k, omega arith, ground arith, ground (arith, p))
  ]
]

take_all : (n : ℕ) (s : Bytes) → length s ≤ n → take n s ≡ s
take_all zero [] h = refl
take_all zero (c ∷ s) h = absurd (omega arith)
take_all (suc n) [] h = refl
take_all (suc n) (c ∷ s) h = ap (◌∷◌ c) (take_all n s (omega arith))

drop_nil : (k : ℕ) → drop {A = ℕ} k [] ≡ []
drop_nil zero = refl
drop_nil (suc k) = refl

drop-drop : (k i : ℕ) (s : Bytes) → drop k (drop i s) ≡ drop (i + k) s
drop-drop k zero s = let e : 0 + k ≡ k = omega arith in rw e
drop-drop k (suc i) [] = rw (drop_nil k, drop_nil (suc i + k))
drop-drop k (suc i) (c ∷ s) =
    let e : suc i + k ≡ suc (i + k) = omega arith in rw (e, drop-drop k i s)

length-drop : (i : ℕ) (s : Bytes) → length (drop i s) ≡ length s - i
length-drop zero s = omega arith
length-drop (suc i) [] = omega arith
length-drop (suc i) (c ∷ s) = omega (arith, length-drop i s)

-- One call of `tokenize` inside the text.
tokenize_inside :
    (s : Bytes) (start : ℕ)
    → start ≤ length s
    → length s < npos
    → let i = find_from (wire_delimiter ∷ []) (drop start s) start in
      tokenize s (wire_delimiter ∷ []) start
      ≡ some
          (take (if i == npos then i else i - start) (drop start s), if i == npos then i else i + 1)
unfolding tokenize find_first_of
tokenize_inside s start h fits = ground arith

tokenize-npos : (s : Bytes) → tokenize s (wire_delimiter ∷ []) npos ≡ none
unfolding tokenize
tokenize-npos s = refl

push_tokens-npos :
    (f : ℕ) (s : Bytes) (params : List Bytes) → push_tokens f s npos params ≡ (params, npos)
unfolding push_tokens
push_tokens-npos zero s params = refl
push_tokens-npos (suc f) s params = rw (tokenize-npos s, push_tokens)

push_tokens-some :
    (f start next : ℕ) (s token : Bytes) (params : List Bytes)
    → tokenize s (wire_delimiter ∷ []) start ≡ some (token, next)
    → push_tokens (suc f) s start params ≡ push_tokens f s next (params ++ token ∷ [])
unfolding push_tokens
push_tokens-some f start next s token params e = rw (e, push_tokens)

-- The last token: no delimiter is left.
last_token :
    (s : Bytes) (start : ℕ)
    → start ≤ length s
    → length s < npos
    → find_from (wire_delimiter ∷ []) (drop start s) start ≡ npos
    → tokenize s (wire_delimiter ∷ []) start ≡ some (drop start s, npos)
last_token s start h fits e =
    tokenize_inside s start h fits
    ∙ rw e (
        ap (λ t. some (t, npos))
          (take_all npos (drop start s) (omega (arith, length-drop start s))))

next_token :
    (s : Bytes) (start k : ℕ)
    → start ≤ length s
    → length s < npos
    → k < length (drop start s)
    → find_from (wire_delimiter ∷ []) (drop start s) start ≡ start + k
    → tokenize s (wire_delimiter ∷ []) start ≡ some (take k (drop start s), start + k + 1)
next_token s start k h fits lt e =
    tokenize_inside s start h fits ∙ rw e (ground (arith, length-drop start s))

rest : (start k : ℕ) (s : Bytes) → drop (start + k + 1) s ≡ drop (suc k) (drop start s)
rest start k s =
    let e : start + k + 1 ≡ start + suc k = omega arith in rw (e, drop-drop (suc k) start s)

push_tokens-split :
    (f start : ℕ) (s : Bytes) (params : List Bytes)
    → start ≤ length s
    → length s < npos
    → length s - start + 1 < f
    → push_tokens f s start params ≡ (params ++ split (drop start s), npos)
push_tokens-split zero start s params h fits fuel = absurd (omega arith)
push_tokens-split (suc f) start s params h fits fuel = elim (find-FirstToken (drop start s) start) [
  | inl (e, whole) ↦
      push_tokens-some f start npos s (drop start s) params (last_token s start h fits e)
      ∙ push_tokens-npos f s (params ++ drop start s ∷ [])
      ∙ ap (λ t. (params ++ t, npos)) (sym whole)
  | inr (k, lt, e, cut) ↦
      push_tokens-some f start (start + k + 1) s (take k (drop start s)) params
        (next_token s start k h fits lt e)
      ∙ push_tokens-split f (start + k + 1) s (params ++ take k (drop start s) ∷ [])
          (omega (arith, length-drop start s)) fits (omega (arith, length-drop start s))
      ∙ ap (λ t. (t, npos))
          (rw append_assoc (
            ap (λ t. params ++ take k (drop start s) ∷ split t) (rest start k s)
            ∙ ap (λ t. params ++ t) (sym cut)))
]

-- On a text shorter than `npos`, the loop of `InitHelper` ends at `npos`, where `Tokenize` answers
-- false, and what it adds to the parameters is the parts of the text between the delimiters.
pub push_tokens_ends :
    (s : Bytes) (params : List Bytes)
    → length s < npos
    → push_tokens (rounds s) s 0 params ≡ (params ++ split s, npos)
push_tokens_ends s params fits =
    push_tokens-split (rounds s) 0 s params (omega arith) fits (omega arith)

pub push_all_tokens-split :
    (s : Bytes) (params : List Bytes)
    → length s < npos
    → push_all_tokens s params ≡ params ++ split s
unfolding push_all_tokens
push_all_tokens-split s params fits =
    ap (λ (r : List Bytes × ℕ). r.0) (push_tokens_ends s params fits)

pub split_nonempty : (s : Bytes) → (p : Bytes) × (ps : List Bytes) × (split s ≡ p ∷ ps)
unfolding split
split_nonempty [] = ([], [], refl)
split_nonempty (c ∷ s) = elim (Bool-cases (c == wire_delimiter)) [
  | inl e ↦ ([], split s, rw e)
  | inr e ↦ let (p, ps, eq) = split_nonempty s in (c ∷ p, ps, rw (e, eq))
]

pub split_text : (p : Bytes) → Lacks wire_delimiter p → split p ≡ p ∷ []
unfolding split
split_text [] h = refl
split_text (c ∷ p) h = ground (arith, split_text p h.1)

pub split_at :
    (p s : Bytes) → Lacks wire_delimiter p → split (p ++ wire_delimiter ∷ s) ≡ p ∷ split s
unfolding split
split_at [] s h = refl
split_at (c ∷ p) s h = ground (arith, split_at p s h.1)

-- Splitting what was joined gives the parts back: at least one, and none with a delimiter in it.
pub split-join :
    (p : Bytes) (ps : List Bytes)
    → All (Lacks wire_delimiter) (p ∷ ps)
    → split (join (p ∷ ps)) ≡ p ∷ ps
unfolding join
split-join p [] h = split_text p h.0
split-join p (q ∷ ps) h = split_at p (join (q ∷ ps)) h.0 ∙ ap (◌∷◌ p) (split-join q ps h.1)

-- The parts of a text hold no delimiter, and joined they are the text.
pub split-Lacks : (s : Bytes) → All (Lacks wire_delimiter) (split s)
unfolding split
split-Lacks [] = (tt, tt)
split-Lacks (c ∷ s) =
    let (p, ps, eq) = split_nonempty s in
    let rest : All (Lacks wire_delimiter) (p ∷ ps) =
      subst (All (Lacks wire_delimiter)) eq (split-Lacks s) in
    elim (Bool-cases (c == wire_delimiter)) [
      | inl e ↦ rw (e, All) (tt, split-Lacks s)
      | inr e ↦ rw (e, All, eq) (((ground arith, rest.0), rest.1))
    ]

join_cons_head : (c : ℕ) (p : Bytes) (ps : List Bytes) → join ((c ∷ p) ∷ ps) ≡ c ∷ join (p ∷ ps)
unfolding join
join_cons_head c p [] = refl
join_cons_head c p (q ∷ ps) = refl

join_nil_cons : (p : Bytes) (ps : List Bytes) → join ([] ∷ p ∷ ps) ≡ wire_delimiter ∷ join (p ∷ ps)
unfolding join
join_nil_cons p ps = refl

pub join-split : (s : Bytes) → join (split s) ≡ s
unfolding split
join-split [] = unfold join in refl
join-split (c ∷ s) =
    let (p, ps, eq) = split_nonempty s in
    ground (arith, join-split s, join_nil_cons p ps, join_cons_head c p ps)

-- A bound on the length of the joined text.
abbrev pub total_length : List Bytes → ℕ
total_length [] = 0
total_length (p ∷ ps) = length p + 1 + total_length ps

pub length-join : (ps : List Bytes) → length (join ps) ≤ total_length ps
unfolding join
length-join [] = omega arith
length-join (p ∷ []) = omega arith
length-join (p ∷ q ∷ ps) =
    omega (arith, length-append p (wire_delimiter ∷ join (q ∷ ps)), length-join (q ∷ ps))

pub join-Lacks :
    (b : ℕ) (ps : List Bytes) → wire_delimiter ≢ b → All (Lacks b) ps → Lacks b (join ps)
unfolding join
join-Lacks b [] other h = tt
join-Lacks b (p ∷ []) other h = h.0
join-Lacks b (p ∷ q ∷ ps) other h =
    All-append (λ c. c ≢ b) p (wire_delimiter ∷ join (q ∷ ps)) h.0
      (other, join-Lacks b (q ∷ ps) other h.1)

-- A delimiter in the last part cuts that part only.
pub split-join_last :
    (ps : List Bytes) (v : Bytes)
    → All (Lacks wire_delimiter) ps
    → split (join (ps ++ v ∷ [])) ≡ ps ++ split v
unfolding join
split-join_last [] v h = refl
split-join_last (p ∷ []) v h = split_at p v h.0
split-join_last (p ∷ q ∷ ps) v h =
    split_at p (join (q ∷ (ps ++ v ∷ []))) h.0 ∙ ap (◌∷◌ p) (split-join_last (q ∷ ps) v h.1)

pub total_length-split : (s : Bytes) → total_length (split s) ≡ suc (length s)
unfolding split
total_length-split [] = omega arith
total_length-split (c ∷ s) =
    let (p, ps, eq) = split_nonempty s in ground (arith, total_length-split s, ap total_length eq)
