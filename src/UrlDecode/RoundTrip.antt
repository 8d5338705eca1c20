-- ===== src/UrlDecode/RoundTrip.antt =====
-- Texts that are encoded for a URL, decoded by `ws_urldecode` of src/webserver.c.
use fireflymediaserver.Prelude.{
  ℕ, ◌+◌, ◌-◌, ◌*◌, ◌/◌, ◌%◌, ◌^◌, ◌<◌, ◌≡◌, refl, ap, ◌∙◌, Bool, true, false, ◌&&◌, ◌||◌, [], ◌∷◌,
  none, some, leb, ltb, ◌==◌, if◌then◌else◌, Bytes, arith, Bool-cases, inl, inr,
}
use fireflymediaserver.CString.{tolower}
use fireflymediaserver.UrlDecode.{
  hex_digit, first_digit, second_digit, plain_byte, decode_from, ws_urldecode,
}

-- A digit below 16, in upper case.
abbrev pub hex_char : ℕ → ℕ
hex_char d = if ltb d 10 then b'0' + d else b'A' + (d - 10)

-- Bytes that a client leaves as they are: here letters and digits.
abbrev pub is_safe : ℕ → Bool
is_safe c = (leb b'0' c && leb c b'9') || (leb b'A' c && leb c b'Z') || (leb b'a' c && leb c b'z')

-- A space is written as `+` where the client does so, and any other byte by its two digits.
unfoldable pub encode : Bool → Bytes → Bytes
encode plus [] = []
encode plus (c ∷ s) =
    let rest = encode plus s in
    if is_safe c
    then c ∷ rest
    else if c == b' ' && plus
    then b'+' ∷ rest
    else b'%' ∷ hex_char (c / 16) ∷ hex_char (c % 16) ∷ rest

unfoldable pub all_bytes : Bytes → Bool
all_bytes [] = true
all_bytes (c ∷ s) = ltb c 256 && all_bytes s

hex_digit-hex_char : (d : ℕ) → d < 16 → hex_digit (hex_char d) ≡ some d
unfolding hex_digit tolower
hex_digit-hex_char d h = ground arith

decode_plain :
    (plus : Bool) (val c : ℕ) (s : Bytes)
    → (c == b'%') ≡ false
    → decode_from plus val (c ∷ s) ≡ plain_byte plus c ∷ decode_from plus val s
unfolding decode_from
decode_plain plus val c [] h = rw h refl
decode_plain plus val c (d ∷ []) h = rw h refl
decode_plain plus val c (d ∷ e ∷ s) h = rw h refl

first_digit-hex_char : (val d : ℕ) → d < 16 → first_digit val (hex_char d) ≡ d
unfolding first_digit
first_digit-hex_char val d h = rw (first_digit, hex_digit-hex_char d h) refl

second_digit-hex_char :
    (val d : ℕ) → d < 16 → second_digit val (hex_char d) ≡ (val * 16 + d) % 2 ^ 32
unfolding second_digit
second_digit-hex_char val d h = rw (second_digit, hex_digit-hex_char d h) refl

decode_escape :
    (plus : Bool) (val h l : ℕ) (s : Bytes)
    → decode_from plus val (b'%' ∷ h ∷ l ∷ s)
      ≡ second_digit (first_digit val h) l % 256
        ∷ decode_from plus (second_digit (first_digit val h) l) s
unfolding decode_from
decode_escape plus val h l s = refl

decode_byte :
    (plus : Bool) (val c : ℕ) (s : Bytes)
    → c < 256
    → decode_from plus val (b'%' ∷ hex_char (c / 16) ∷ hex_char (c % 16) ∷ s)
      ≡ c ∷ decode_from plus c s
decode_byte plus val c s h =
    let first : first_digit val (hex_char (c / 16)) ≡ c / 16 =
      first_digit-hex_char val (c / 16) (omega arith) in
    let both : second_digit (first_digit val (hex_char (c / 16))) (hex_char (c % 16)) ≡ c =
      rw first (second_digit-hex_char (c / 16) (c % 16) (omega arith) ∙ whole c h) in
    let same : c % 256 ≡ c = omega arith in
    decode_escape plus val (hex_char (c / 16)) (hex_char (c % 16)) s ∙ rw (both, same) refl
  where
    whole : (c : ℕ) → c < 256 → (c / 16 * 16 + c % 16) % 2 ^ 32 ≡ c
    whole c h = omega arith

module _ (plus : Bool) (c : ℕ) (s : Bytes) where
  encode_safe : is_safe c ≡ true → encode plus (c ∷ s) ≡ c ∷ encode plus s
  unfolding encode
  encode_safe h = rw h refl

  encode_space :
      is_safe c ≡ false → (c == b' ' && plus) ≡ true → encode plus (c ∷ s) ≡ b'+' ∷ encode plus s
  unfolding encode
  encode_space h k = rw (h, k) refl

  encode_other :
      is_safe c ≡ false
      → (c == b' ' && plus) ≡ false
      → encode plus (c ∷ s) ≡ b'%' ∷ hex_char (c / 16) ∷ hex_char (c % 16) ∷ encode plus s
  unfolding encode
  encode_other h k = rw (h, k) refl

  byte_head : all_bytes (c ∷ s) ≡ true → (c < 256) × (all_bytes s ≡ true)
  unfolding all_bytes
  byte_head h = (ground arith, ground arith)

safe_plain :
    (plus : Bool) (c : ℕ) → is_safe c ≡ true → ((c == b'%') ≡ false) × (plain_byte plus c ≡ c)
safe_plain plus c h = (ground arith, ground arith)

space_plain : (plus : Bool) (c : ℕ) → (c == b' ' && plus) ≡ true → plain_byte plus b'+' ≡ c
space_plain plus c h = ground arith

decode-encode :
    (plus : Bool) (val : ℕ) (s : Bytes)
    → all_bytes s ≡ true
    → decode_from plus val (encode plus s) ≡ s
decode-encode plus val [] h = unfold encode decode_from in refl
decode-encode plus val (c ∷ s) h =
    let (lt, rest) = byte_head plus c s h in
    elim (Bool-cases (is_safe c)) [
      | inl safe ↦
          let (other, same) = safe_plain plus c safe in
          rw (encode_safe plus c s safe) (
            decode_plain plus val c (encode plus s) other
            ∙ rw (same, decode-encode plus val s rest) refl)
      | inr unsafe ↦ elim (Bool-cases (c == b' ' && plus)) [
        | inl space ↦ rw (encode_space plus c s unsafe space) (
            decode_plain plus val b'+' (encode plus s) refl
            ∙ rw (space_plain plus c space, decode-encode plus val s rest) refl)
        | inr other ↦
            rw (encode_other plus c s unsafe other)
              (decode_byte plus val c (encode plus s) lt ∙ ap (◌∷◌ c) (decode-encode plus c s rest))
      ]
    ]

-- A text of bytes that is encoded for a URL, with letters and digits as they are, a space as `+`
-- where the client does so, and each other byte as `%` and two digits, is decoded to itself.
pub ws_urldecode-encode :
    (text : Bytes) (plus : Bool)
    → all_bytes text ≡ true
    → ws_urldecode (encode plus text) plus ≡ text
unfolding ws_urldecode
ws_urldecode-encode text plus h = decode-encode plus 0 text h

bad_digits :
    (c h l : ℕ)
    → c < 256
    → hex_digit h ≡ none
    → hex_digit l ≡ none
    → second_digit (first_digit c h) l ≡ c * 16
unfolding first_digit second_digit
bad_digits c h l lt p q =
    let kept : first_digit c h ≡ c = rw (first_digit, p) refl in
    let shifted : second_digit c l ≡ c * 16 % 2 ^ 32 = rw (second_digit, q) refl in
    rw (kept, shifted) (omega arith)

-- Where the two bytes behind `%` are no digits, the byte that is written is 16 times the value of the
-- escape before it, not an error: behind the escape of the byte `c` it is 16 times `c`.
pub ws_urldecode-bad_escape :
    (plus : Bool) (c h l : ℕ) (s : Bytes)
    → c < 256
    → hex_digit h ≡ none
    → hex_digit l ≡ none
    → ws_urldecode (b'%' ∷ hex_char (c / 16) ∷ hex_char (c % 16) ∷ b'%' ∷ h ∷ l ∷ s) plus
      ≡ c ∷ c * 16 % 256 ∷ decode_from plus (c * 16) s
unfolding ws_urldecode
ws_urldecode-bad_escape plus c h l s lt p q =
    decode_byte plus 0 c (b'%' ∷ h ∷ l ∷ s) lt
    ∙ ap (◌∷◌ c) (decode_escape plus c h l s ∙ rw (bad_digits c h l lt p q) refl)
