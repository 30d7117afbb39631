-- ===== src/Tokenize.antt =====
-- Common/include/Utils.h, `StringUtils::Tokenize`, and the loop of `Marshaller::InitHelper`
-- (Common/Marshaller.cpp) that calls it. A `size_t` is a number below 2 ^ 64, and `npos` the
-- largest. `find_first_of` and `substr` are those of `std::string`.
pub mod Split
use dcom.Base.{
  ℕ, zero, suc, ◌+◌, ◌-◌, ◌≡◌, refl, Bool, true, false, ◌||◌, List, [], ◌∷◌, ◌++◌, Option, none,
  some, Bytes, codes, length, take, drop, ltb, ◌==◌, if◌then◌else◌,
}
use dcom.Constants.{npos}

-- `#define WIRE_DELIMITER "?"`
abbrev pub wire_delimiter : ℕ
wire_delimiter = b'?'

contains : Bytes → ℕ → Bool
contains [] c = false
contains (d ∷ delimiter) c = d == c || contains delimiter c

-- The first place from `i` on that holds a byte of `delimiter`; the text begins at place `i`.
find_from : Bytes → Bytes → ℕ → ℕ
unfolding contains
find_from delimiter [] i = npos
find_from delimiter (c ∷ s) i = if contains delimiter c then i else find_from delimiter s (i + 1)

find_first_of : Bytes → Bytes → ℕ → ℕ
unfolding find_from
find_first_of src delimiter start = find_from delimiter (drop start src) start

-- `none` is the result false, which leaves `token` and `start` alone; else the new token and start.
unfoldable pub tokenize : Bytes → Bytes → ℕ → Option (Bytes × ℕ)
unfolding find_first_of
tokenize src delimiter start =
    if start == npos || (ltb (length src) start || ltb start 0)
    then none
    else let end = find_first_of src delimiter start in
      let count = if end == npos then end else end - start in
      some (take count (drop start src), if end == npos then end else end + 1)

-- `while (Tokenize(s, token, WIRE_DELIMITER, start)) m_allParameters.push_back(token);` from
-- `start`, on fuel: the parameters, and the `start` at the end.
unfoldable pub push_tokens : ℕ → Bytes → ℕ → List Bytes → List Bytes × ℕ
push_tokens zero s start params = (params, start)
push_tokens (suc f) s start params = elim (tokenize s (wire_delimiter ∷ []) start) [
  | none ↦ (params, start)
  | some (token, next) ↦ push_tokens f s next (params ++ token ∷ [])
]

-- A round reads past one byte at least, but for the last, which moves to `npos`.
abbrev pub rounds : Bytes → ℕ
rounds s = length s + 2

unfoldable pub push_all_tokens : Bytes → List Bytes → List Bytes
unfolding push_tokens
push_all_tokens s params = (push_tokens (rounds s) s 0 params).0

tokens : push_all_tokens (codes "0?12??a") [] ≡ codes "0" ∷ codes "12" ∷ [] ∷ codes "a" ∷ []
unfolding push_all_tokens tokenize
tokens = refl
