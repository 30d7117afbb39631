-- ===== src/Tests/Logs.antt =====
-- The logger with a text that the first buffer does not hold.
use dcom.Base.{
  ℕ, ◌≡◌, refl, some, [], err, bad_alloc, Bytes, length, replicate, arith, ℤ, pos, negsuc, ok, ltb,
  if◌then◌else◌,
}
use dcom.Logger.Growth.{Prints, log_ends}
use dcom.Logger.{grow_buffer, log}
use dcom.NamedPipe.{c_string}

abbrev long_text : Bytes
long_text = replicate 1500 65

abbrev print_to : Bytes → ℕ → ℤ × Bytes
print_to text n = if ltb (length text) n then (pos (length text), text) else (negsuc 0, [])

print_to-Prints : (text : Bytes) → Prints (print_to text) text
print_to-Prints text = record {
  fits = λ n room. ground (arith, room);
  too_small = λ n positive larger. ground (arith, larger);
}

log_ends_example : log (print_to long_text) (λ n. ltb n 5000) 22 ≡ some (ok (c_string long_text))
log_ends_example =
    log_ends (print_to long_text) (λ n. ltb n 5000) long_text (print_to-Prints long_text)
      (omega arith) (λ n small. ground (arith, small))

no_memory : log (print_to long_text) (λ n. ltb n 2000) 22 ≡ some (err bad_alloc)
unfolding log grow_buffer
no_memory = refl
