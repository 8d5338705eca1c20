-- ===== src/UrlDecode.antt =====
-- `ws_urldecode` of src/webserver.c: the bytes that it writes in front of the closing NUL. `malloc`
-- succeeds.
pub mod RoundTrip
mod Tests
use fireflymediaserver.Prelude.{
  ℕ, ◌+◌, ◌-◌, ◌*◌, ◌%◌, ◌^◌, Bool, true, false, ◌&&◌, [], ◌∷◌, Option, none, some, leb, ◌==◌,
  if◌then◌else◌, Bytes,
}
use fireflymediaserver.CString.{tolower}

-- The value of a digit that the code takes.
unfoldable pub hex_digit : ℕ → Option ℕ
unfolding tolower
hex_digit c =
    if leb c b'9' && leb b'0' c
    then some (c - b'0')
    else if leb (tolower c) b'f' && leb b'a' (tolower c)
    then some (10 + (tolower c - b'a'))
    else none

-- The first digit sets `val`; where it is none, `val` keeps what it was at the escape before.
unfoldable pub first_digit : ℕ → ℕ → ℕ
unfolding hex_digit
first_digit val c = elim (hex_digit c) [ none ↦ val | some d ↦ d ]

unfoldable pub second_digit : ℕ → ℕ → ℕ
unfolding hex_digit
second_digit val c = elim (hex_digit c) [
  | none ↦ val * 16 % 2 ^ 32
  | some d ↦ (val * 16 + d) % 2 ^ 32
]

-- A byte that stands for itself, or for a space.
abbrev pub plain_byte : Bool → ℕ → ℕ
plain_byte space_as_plus c = if c == b'+' && space_as_plus then b' ' else c

-- From `src` on, with `val`.
unfoldable pub decode_from : Bool → ℕ → Bytes → Bytes
unfolding first_digit second_digit
decode_from plus val [] = []
decode_from plus val (c ∷ []) = if c == b'%' then val % 256 ∷ [] else plain_byte plus c ∷ []
decode_from plus val (c ∷ h ∷ []) =
    let plain = plain_byte plus c ∷ decode_from plus val (h ∷ []) in
    if c == b'%' then first_digit val h % 256 ∷ [] else plain
decode_from plus val (c ∷ h ∷ l ∷ s) =
    let escaped = decode_from plus (second_digit (first_digit val h) l) s in
    let plain = plain_byte plus c ∷ decode_from plus val (h ∷ l ∷ s) in
    if c == b'%' then second_digit (first_digit val h) l % 256 ∷ escaped else plain

unfoldable pub ws_urldecode : Bytes → Bool → Bytes
unfolding decode_from
ws_urldecode text space_as_plus = decode_from space_as_plus 0 text
