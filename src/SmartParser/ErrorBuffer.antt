-- ===== src/SmartParser/ErrorBuffer.antt =====
-- The buffer of `sp_set_error` in src/smart-parser.c: its size is computed from `token_pos / 10`, its
-- text has the decimal digits of `token_pos + 1`.
use fireflymediaserver.Prelude.{
  ℕ, zero, suc, ◌+◌, ◌*◌, ◌/◌, ◌%◌, ◌≤◌, ◌≡◌, ◌≢◌, ◌↔◌, refl, ◌∷◌, ◌++◌, length, length-append,
  Bytes, arith, codes,
}
use fireflymediaserver.CString.{decimal_onto, decimal}
use fireflymediaserver.SmartParser.State.{SpError, sp_errorstrings, error_size, error_text}

-- At most `k + 1` digits for a number up to 90 * k + 9.
length-decimal_onto :
    (fuel n k : ℕ) (acc : Bytes)
    → n ≤ 90 * k + 9
    → length (decimal_onto fuel n acc) ≤ k + 1 + length acc
unfolding decimal_onto
length-decimal_onto zero n k acc h = omega arith
length-decimal_onto (suc fuel) n zero acc h = ground arith
length-decimal_onto (suc fuel) n (suc k) acc h =
    ground (arith, length-decimal_onto fuel (n / 10) k ((b'0' + n % 10) ∷ acc))

length-decimal-le : (n k : ℕ) → n ≤ 90 * k + 9 → length (decimal n) ≤ k + 1
unfolding decimal
length-decimal-le n k h = omega (arith, length-decimal_onto (n + 1) n k _ h)

length-error_text :
    (token_pos : ℕ) (e : SpError)
    → length (error_text token_pos e)
      ≡ 10 + length (decimal (token_pos + 1)) + length (sp_errorstrings e)
unfolding error_text
length-error_text token_pos e =
    omega (arith, length-append (decimal (token_pos + 1)) (codes ":  " ++ sp_errorstrings e))

length-decimal_ten : length (decimal 10) ≡ 2
unfolding decimal
length-decimal_ten = refl

length-error_text_nine : (e : SpError) → length (error_text 9 e) + 1 ≡ error_size 9 e + 1
unfolding error_size
length-error_text_nine e = omega (arith, length-error_text 9 e, length-decimal_ten)

-- The message of `sp_set_error`, with its NUL, fits the buffer allocated for it exactly when the
-- token does not stand at offset 9, for every error; at offset 9 it is one byte too long.
pub error_text-fits_iff :
    (token_pos : ℕ) (e : SpError)
    → ((length (error_text token_pos e) + 1 ≤ error_size token_pos e) ↔ (token_pos ≢ 9))
      × (length (error_text 9 e) + 1 ≡ error_size 9 e + 1)
unfolding error_size
error_text-fits_iff token_pos e = (
  (
    λ fits nine. omega (arith, rw nine at fits, length-error_text_nine e),
    λ ne. omega (
      arith,
      length-error_text token_pos e,
      length-decimal-le (token_pos + 1) (token_pos / 10) (omega arith),
    ),
  ),
  length-error_text_nine e,
)
