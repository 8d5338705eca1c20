-- ===== src/Utf.antt =====
-- The conversions between UTF-16 (low byte first) and UTF-8 that src/util.c has for systems without
-- iconv. A UTF-8 string is a list of bytes, of which the code takes those before the first NUL. An "or" of numbers without a common bit is written
-- as their sum, and a shift and mask as a quotient and remainder. What stands in a destination after a
-- refusal is left out.
pub mod RoundTrip
pub mod Pairs
mod Tests
use fireflymediaserver.Prelude.{
  ℕ, zero, suc, ◌+◌, ◌-◌, ◌*◌, ◌/◌, ◌%◌, ◌^◌, Bool, true, false, [], ◌∷◌, ◌++◌, Option, none, some,
  ◌==◌, ltb, leb, if◌then◌else◌, length, Bytes,
}
use fireflymediaserver.SmartParser.State.{Outcome, done, overrun, ◌>>=◌}

-- "src[1] << 8 | src[0]".
abbrev pub unit : ℕ → ℕ → ℕ
unit low high = high * 256 + low

-- "(w & 0xFC00) == 0xD800" and "(w & 0xFC00) == 0xDC00".
abbrev pub is_high : ℕ → Bool
is_high w = w / 1024 == 54

abbrev pub is_low : ℕ → Bool
is_low w = w / 1024 == 55

abbrev pub plus : ℕ → Option ℕ → Option ℕ
plus n none = none
plus n (some m) = some (n + m)

-- The bytes counted for a unit that is no first half of a pair.
abbrev pub unit_len : ℕ → ℕ
unit_len w = if leb w 0x7F then 1 else if leb w 0x7FF then 2 else 3

-- The result is `none` for -1.
unfoldable pub util_utf16toutf8_len : Bytes → Option ℕ
util_utf16toutf8_len (a ∷ b ∷ c ∷ d ∷ s) =
    let pair = util_utf16toutf8_len s in
    let single = util_utf16toutf8_len (c ∷ d ∷ s) in
    if is_high (unit a b) then plus 4 pair else plus (unit_len (unit a b)) single
util_utf16toutf8_len (a ∷ b ∷ s) = if is_high (unit a b) then none else some (unit_len (unit a b))
util_utf16toutf8_len s = some 0

-- "now encode the original code point in utf-8".
unfoldable pub encode_utf8 : ℕ → Bytes
encode_utf8 w =
    if ltb w 0x80
    then w ∷ []
    else if ltb w 0x800
    then (0xC0 + w / 64) ∷ (0x80 + w % 64) ∷ []
    else if ltb w 0x10000
    then (0xE0 + w / 4096) ∷ (0x80 + w / 64 % 64) ∷ (0x80 + w % 64) ∷ []
    else (0xF0 + w / 2 ^ 18) ∷ (0x80 + w / 4096 % 64) ∷ (0x80 + w / 64 % 64) ∷ (0x80 + w % 64) ∷ []

-- The code point of two halves.
abbrev pub join : ℕ → ℕ → ℕ
join w1 w2 = w1 % 1024 * 1024 + w2 % 1024 + 0x10000

abbrev pub behind : Bytes → Outcome (Option Bytes) → Outcome (Option Bytes)
behind b rest = do r ← rest; elim r [ none ↦ done none | some bs ↦ done (some (b ++ bs)) ]

-- The loop of `util_utf16toutf8`, with the bytes that it writes, or `none` where it refuses. The second
-- half of a pair is read at `src[2]` and `src[3]` when `src` points behind the first half already.
unfoldable pub to_utf8 : Bytes → Outcome (Option Bytes)
unfolding encode_utf8
to_utf8 (a ∷ b ∷ c ∷ d ∷ e ∷ f ∷ s) =
    let rest = to_utf8 (c ∷ d ∷ e ∷ f ∷ s) in
    if is_high (unit a b)
    then if is_low (unit e f)
      then behind (encode_utf8 (join (unit a b) (unit e f))) rest
      else done none
    else behind (encode_utf8 (unit a b)) rest
to_utf8 (a ∷ b ∷ c ∷ d ∷ s) =
    let rest = to_utf8 (c ∷ d ∷ s) in
    if is_high (unit a b) then overrun else behind (encode_utf8 (unit a b)) rest
to_utf8 (a ∷ b ∷ s) = if is_high (unit a b) then done none else done (some (encode_utf8 (unit a b)))
to_utf8 s = done (some [])

unfoldable pub util_utf16toutf8 : ℕ → Bytes → Outcome (Option Bytes)
unfolding util_utf16toutf8_len to_utf8
util_utf16toutf8 dlen [] = done none
util_utf16toutf8 dlen (a ∷ s) = elim (util_utf16toutf8_len (a ∷ s)) [
  | none ↦ done none
  | some new_len ↦ if leb dlen new_len then done none else to_utf8 (a ∷ s)
]

unfoldable pub util_utf16touft8_alloc : Bytes → Outcome (Option Bytes)
unfolding util_utf16toutf8_len util_utf16toutf8
util_utf16touft8_alloc s = elim (util_utf16toutf8_len s) [
  | none ↦ done none
  | some new_len ↦ util_utf16toutf8 (new_len + 1) s
]

unfoldable pub trailing_bytes : ℕ → ℕ
trailing_bytes c =
    if c / 32 == 6 then 1 else if c / 16 == 14 then 2 else if c / 8 == 30 then 3 else 0

-- The walk over characters, where `skip` bytes belong to the one before.
unfoldable pub utf16_len : ℕ → Bytes → Option ℕ
unfolding trailing_bytes
utf16_len skip [] = some 1
utf16_len (suc skip) (c ∷ s) = utf16_len skip s
utf16_len zero (c ∷ s) =
    let rest = utf16_len (trailing_bytes c) s in
    if ltb (length s + 1) (trailing_bytes c)
    then none
    else plus (if trailing_bytes c == 3 then 4 else 2) rest

-- The bytes that "strlen" counts.
unfoldable pub c_string : Bytes → Bytes
c_string [] = []
c_string (c ∷ s) = (let rest = c_string s in if c == 0 then [] else c ∷ rest)

unfoldable pub util_utf8toutf16_len : Bytes → Option ℕ
unfolding utf16_len
util_utf8toutf16_len utf8 = utf16_len 0 (c_string utf8)

-- `src[i]`, which may be the NUL.
abbrev pub nth : Bytes → ℕ → ℕ
nth [] i = 0
nth (c ∷ s) zero = c
nth (c ∷ s) (suc i) = nth s i

-- The code point at a character, whose first byte is `c`.
unfoldable pub decode_utf8 : ℕ → Bytes → ℕ
unfolding trailing_bytes
decode_utf8 c s =
    if trailing_bytes c == 0
    then c
    else if trailing_bytes c == 1
    then c % 32 * 64 + nth s 0 % 64
    else if trailing_bytes c == 2
    then c % 16 * 4096 + nth s 0 % 64 * 64 + nth s 1 % 64
    else c % 8 * 2 ^ 18 + nth s 0 % 64 * 4096 + nth s 1 % 64 * 64 + nth s 2 % 64

abbrev pub two_bytes : ℕ → Bytes
two_bytes w = w % 256 ∷ w / 256 % 256 ∷ []

unfoldable pub encode_utf16 : ℕ → Bytes
encode_utf16 w =
    if leb w 0xFFFF
    then two_bytes w
    else two_bytes (0xD800 + w / 1024 % 1024) ++ two_bytes (0xDC00 + w % 1024)

abbrev pub before : Bytes → Option Bytes → Option Bytes
before b none = none
before b (some bs) = some (b ++ bs)

unfoldable pub to_utf16 : ℕ → Bytes → Option Bytes
unfolding trailing_bytes decode_utf8 encode_utf16
to_utf16 skip [] = some []
to_utf16 (suc skip) (c ∷ s) = to_utf16 skip s
to_utf16 zero (c ∷ s) =
    let rest = to_utf16 (trailing_bytes c) s in
    if ltb (length s + 1) (trailing_bytes c)
    then none
    else before (encode_utf16 (decode_utf8 c s)) rest

unfoldable pub util_utf8toutf16 : ℕ → Bytes → Option Bytes
unfolding util_utf8toutf16_len to_utf16
util_utf8toutf16 dlen utf8 =
    if length (c_string utf8) == 0 then none else elim (util_utf8toutf16_len utf8) [
      | none ↦ none
      | some new_len ↦ if leb dlen (new_len + 1) then none else to_utf16 0 (c_string utf8)
    ]

unfoldable pub util_utf8toutf16_alloc : Bytes → Option Bytes
unfolding util_utf8toutf16_len util_utf8toutf16
util_utf8toutf16_alloc utf8 = elim (util_utf8toutf16_len utf8) [
  | none ↦ none
  | some new_len ↦ util_utf8toutf16 (new_len + 2) utf8
]
