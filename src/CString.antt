-- ===== src/CString.antt =====
-- The routines of the C library that the modelled code calls on strings, in the "C" locale: strchr,
-- strncmp, strcasecmp, strncasecmp, strcasestr, atoi and the decimal conversion of printf.
use fireflymediaserver.Prelude.{
  ℕ, zero, suc, ◌+◌, ◌-◌, ◌*◌, ◌/◌, ◌%◌, ◌^◌, min, Bool, true, false, ◌&&◌, ◌||◌, [], ◌∷◌, leb, ltb,
  ◌==◌, if◌then◌else◌, Bytes, Option, none, some,
}

-- `strchr(set, c) != NULL` for a byte `c` that is not NUL.
unfoldable pub has_byte : ℕ → Bytes → Bool
has_byte c [] = false
has_byte c (d ∷ set) = d == c || has_byte c set

-- `strncmp(prefix, s, strlen(prefix)) == 0`, with what follows the prefix.
unfoldable pub strip_prefix : Bytes → Bytes → Option Bytes
strip_prefix [] s = some s
strip_prefix (p ∷ ps) [] = none
strip_prefix (p ∷ ps) (c ∷ s) = if p == c then strip_prefix ps s else none

unfoldable pub tolower : ℕ → ℕ
tolower c = if leb b'A' c && leb c b'Z' then c + 32 else c

-- `strcasecmp(a, b) == 0`.
unfoldable pub eq_nocase : Bytes → Bytes → Bool
unfolding tolower
eq_nocase [] [] = true
eq_nocase [] (_ ∷ _) = false
eq_nocase (_ ∷ _) [] = false
eq_nocase (x ∷ a) (y ∷ b) = tolower x == tolower y && eq_nocase a b

-- `strncasecmp(s, prefix, strlen(prefix)) == 0`.
unfoldable pub starts_nocase : Bytes → Bytes → Bool
unfolding tolower
starts_nocase s [] = true
starts_nocase [] (_ ∷ _) = false
starts_nocase (c ∷ s) (p ∷ prefix) = tolower c == tolower p && starts_nocase s prefix

-- `strcasestr(s, needle) != NULL`.
unfoldable pub contains_nocase : Bytes → Bytes → Bool
unfolding starts_nocase
contains_nocase [] needle = starts_nocase [] needle
contains_nocase (c ∷ s) needle = starts_nocase (c ∷ s) needle || contains_nocase s needle

-- A run of decimal digits, read onto what stands before it.
unfoldable pub digits_value : ℕ → Bytes → ℕ
digits_value acc [] = acc
digits_value acc (c ∷ s) = digits_value (acc * 10 + (c - b'0')) s

-- `atoi` on a string of digits, as the bits of an `int`: strtol stops at LONG_MAX, and the cast to
-- int keeps the low 32 bits.
unfoldable pub atoi : Bytes → ℕ
unfolding digits_value
atoi s = min (digits_value 0 s) (2 ^ 63 - 1) % 2 ^ 32

-- The digits of `n`, with `fuel` an upper bound on their number.
unfoldable pub decimal_onto : ℕ → ℕ → Bytes → Bytes
decimal_onto zero n acc = acc
decimal_onto (suc fuel) n acc =
    let digit = b'0' + n % 10 in
    let rest = decimal_onto fuel (n / 10) (digit ∷ acc) in if ltb n 10 then digit ∷ acc else rest

-- `%d` of a number that is not negative.
unfoldable pub decimal : ℕ → Bytes
unfolding decimal_onto
decimal n = decimal_onto (n + 1) n []
