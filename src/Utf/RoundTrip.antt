-- ===== src/Utf/RoundTrip.antt =====
-- Texts of 16-bit characters through both conversions of src/util.c.
use fireflymediaserver.Prelude.{
  ℕ, ◌+◌, ◌/◌, ◌%◌, ◌<◌, ◌≡◌, ◌∙◌, refl, sym, ap, false, List, [], ◌∷◌, ◌++◌, some, ◌≤◌, length,
  length-append, Bytes, arith, append-nil,
}
use fireflymediaserver.SmartParser.State.{done}
use fireflymediaserver.Utf.{
  unit, is_high, plus, unit_len, util_utf16toutf8_len, encode_utf8, behind, to_utf8, two_bytes,
}

-- A 16-bit character that is not NUL and no first half of a pair.
abbrev pub IsPlain : ℕ → Type 0
IsPlain w = (0 < w) × ((w < 0x10000) × (is_high w ≡ false))

abbrev pub AllPlain : List ℕ → Type 0
AllPlain [] = Unit
AllPlain (w ∷ ws) = IsPlain w × AllPlain ws

-- The text in UTF-16.
abbrev pub units : List ℕ → Bytes
units [] = []
units (w ∷ ws) = two_bytes w ++ units ws

unfoldable pub texts : List ℕ → Bytes
texts [] = []
texts (w ∷ ws) = encode_utf8 w ++ texts ws

pub unit_back : (w : ℕ) → w < 0x10000 → unit (w % 256) (w / 256 % 256) ≡ w
unit_back w h = omega arith

plain_unit : (w : ℕ) → IsPlain w → is_high (unit (w % 256) (w / 256 % 256)) ≡ false
plain_unit w (nz, (lt, p)) = ap is_high (unit_back w lt) ∙ p

to_utf8-unit :
    (w : ℕ) (ws : List ℕ)
    → IsPlain w
    → to_utf8 (two_bytes w ++ units ws) ≡ behind (encode_utf8 w) (to_utf8 (units ws))
unfolding to_utf8
to_utf8-unit w [] (nz, (lt, p)) =
    rw (plain_unit w (nz, (lt, p)), unit_back w lt)
      (ap (λ b. done (some b)) (sym (append-nil (encode_utf8 w))))
to_utf8-unit w (v ∷ []) (nz, (lt, p)) =
    rw (plain_unit w (nz, (lt, p)))
      (ap (λ x. behind (encode_utf8 x) (to_utf8 (units (v ∷ [])))) (unit_back w lt))
to_utf8-unit w (v ∷ u ∷ ws) (nz, (lt, p)) =
    rw (plain_unit w (nz, (lt, p)))
      (ap (λ x. behind (encode_utf8 x) (to_utf8 (units (v ∷ u ∷ ws)))) (unit_back w lt))

pub to_utf8-units : (ws : List ℕ) → AllPlain ws → to_utf8 (units ws) ≡ done (some (texts ws))
unfolding texts to_utf8
to_utf8-units [] h = refl
to_utf8-units (w ∷ ws) (p, h) =
    to_utf8-unit w ws p ∙ ap (behind (encode_utf8 w)) (to_utf8-units ws h)

pub length-encode_utf8 : (w : ℕ) → w < 0x10000 → length (encode_utf8 w) ≡ unit_len w
unfolding encode_utf8
length-encode_utf8 w h = ground arith

len-unit :
    (w : ℕ) (ws : List ℕ)
    → IsPlain w
    → util_utf16toutf8_len (two_bytes w ++ units ws)
      ≡ plus (unit_len w) (util_utf16toutf8_len (units ws))
unfolding util_utf16toutf8_len
len-unit w [] (nz, (lt, p)) =
    rw (plain_unit w (nz, (lt, p)), unit_back w lt) (ap some (omega arith))
len-unit w (v ∷ ws) (nz, (lt, p)) = rw (plain_unit w (nz, (lt, p)), unit_back w lt) refl

pub len-units :
    (ws : List ℕ) → AllPlain ws → util_utf16toutf8_len (units ws) ≡ some (length (texts ws))
unfolding texts util_utf16toutf8_len
len-units [] h = refl
len-units (w ∷ ws) ((nz, (lt, p)), h) =
    len-unit w ws (nz, (lt, p))
    ∙ (ap (plus (unit_len w)) (len-units ws h)
        ∙ ap some
            (omega (arith, length-append (encode_utf8 w) (texts ws), length-encode_utf8 w lt)))

-- The bytes of one character, of whose first one the count of the others is read.
data Char8 : ℕ → Bytes → Type 0 where
  one : {w : ℕ} → w < 0x80 → Char8 w (w ∷ [])
  two : {w : ℕ} → 0x80 ≤ w → w < 0x800 → Char8 w ((0xC0 + w / 64) ∷ (0x80 + w % 64) ∷ [])
  three :
      {w : ℕ}
      → 0x800 ≤ w
      → w < 0x10000
      → Char8 w ((0xE0 + w / 4096) ∷ (0x80 + w / 64 % 64) ∷ (0x80 + w % 64) ∷ [])
