-- ===== src/Logger/Growth.antt =====
-- The buffer of the logger grows until the text fits.
use dcom.Base.{
  ℕ, zero, suc, ◌+◌, ◌*◌, ◌%◌, ◌^◌, ◌≤◌, ◌<◌, ◌≡◌, refl, ◌⊎◌, inl, inr, Bool, true, some, Bytes,
  length, arith, ℤ, pos, negsuc, ok,
}
use dcom.Logger.{grow_buffer, log}
use dcom.NamedPipe.{c_string}

-- What is documented of `_vsnprintf_s` with `_TRUNCATE`, for a format and arguments that print as
-- `text`: a buffer with room for the text and a final zero gets it, and a smaller one is reported by -1.
pub record Prints (vsnprintf : ℕ → ℤ × Bytes) (text : Bytes) : Type 0 where
  pub fits : (n : ℕ) → length text < n → vsnprintf n ≡ (pos (length text), text)
  pub too_small : (n : ℕ) → 0 < n → n ≤ length text → (vsnprintf n).0 ≡ negsuc 0

-- The size of the buffer after `left` more rounds.
abbrev doubled : ℕ → ℕ → ℕ
doubled size zero = size
doubled size (suc left) = doubled (size * 2) left

room_or_not : (len size : ℕ) → (len < size) ⊎ (size ≤ len)
room_or_not len size = omega arith

module _ (vsnprintf : ℕ → ℤ × Bytes) (allocates : ℕ → Bool) (text : Bytes)
    (prints : Prints vsnprintf text) (short : length text < 2 ^ 31)
    (memory : (n : ℕ) → n ≤ 1024 + length text * 2 → allocates n ≡ true) where
  grow_fits :
      (left size : ℕ)
      → size ≤ 1024 + length text * 2
      → length text < size
      → grow_buffer vsnprintf allocates (suc left) size ≡ some (ok (c_string text))
  unfolding grow_buffer
  grow_fits left size small room = rw (memory size small, prints.fits size room) refl

  grows :
      (left size : ℕ)
      → 0 < size
      → size ≤ 1024 + length text * 2
      → length text < doubled size left
      → grow_buffer vsnprintf allocates (suc left) size ≡ some (ok (c_string text))
  unfolding grow_buffer
  grows zero size positive small room = grow_fits zero size small room
  grows (suc left) size positive small room = elim (room_or_not (length text) size) [
    | inl fits ↦ grow_fits (suc left) size small fits
    | inr larger ↦
        let twice : size * 2 % 2 ^ 32 ≡ size * 2 = omega (arith, larger) in
        rw
          (
            memory size small,
            prints.too_small size positive (omega (arith, larger)),
            twice,
            grows left (size * 2) (omega arith) (omega (arith, larger)) room,
          )
          refl
  ]

  -- A text of fewer than `2 ^ 31` bytes reaches the debugger, up to its first zero byte, after at most
  -- 22 buffers, if there is memory for buffers of up to 1024 bytes more than twice its length.
  pub log_ends : log vsnprintf allocates 22 ≡ some (ok (c_string text))
  unfolding log
  log_ends = grows 21 1024 (omega arith) (omega arith) (omega (arith, short))
