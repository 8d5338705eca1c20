-- ===== src/Utf/Pairs.antt =====
-- Surrogate pairs in the conversion from UTF-16 of src/util.c.
use fireflymediaserver.Prelude.{
  ℕ, ◌%◌, ◌/◌, ◌<◌, ◌≡◌, ◌∙◌, refl, ap, true, false, [], ◌∷◌, ◌++◌, none, some, Option-cases,
  length, length-append, Bytes, arith, inl, inr,
}
use fireflymediaserver.SmartParser.State.{done}
use fireflymediaserver.Utf.{
  unit, is_high, is_low, two_bytes, encode_utf8, join, behind, to_utf8, util_utf16toutf8_len,
  util_utf16toutf8, unit_len,
}
use fireflymediaserver.Utf.RoundTrip.{texts, IsPlain, to_utf8-units, unit_back, length-encode_utf8}

high_unit :
    (w : ℕ) → w < 0x10000 → is_high w ≡ true → is_high (unit (w % 256) (w / 256 % 256)) ≡ true
high_unit w lt h = ap is_high (unit_back w lt) ∙ h

-- A pair of halves that is followed by a unit other than a second half makes `util_utf16toutf8` refuse
-- the text, whatever follows and however long the destination is.
pub util_utf16toutf8-pair :
    (dlen hi lo u : ℕ) (s : Bytes)
    → hi < 0x10000
    → u < 0x10000
    → is_high hi ≡ true
    → is_low u ≡ false
    → util_utf16toutf8 dlen (two_bytes hi ++ (two_bytes lo ++ (two_bytes u ++ s))) ≡ done none
unfolding util_utf16toutf8
util_utf16toutf8-pair dlen hi lo u s lt lu h l =
    let hh : is_high (unit (hi % 256) (hi / 256 % 256)) ≡ true = high_unit hi lt h in
    let ll : is_low (unit (u % 256) (u / 256 % 256)) ≡ false = ap is_low (unit_back u lu) ∙ l in
    let refused : to_utf8 (two_bytes hi ++ (two_bytes lo ++ (two_bytes u ++ s))) ≡ done none =
      rw (to_utf8, hh, ll) refl in
    elim (Option-cases
      (util_utf16toutf8_len (two_bytes hi ++ (two_bytes lo ++ (two_bytes u ++ s))))) [
        | inl n ↦ rw (util_utf16toutf8, n) refl
        | inr (m, n) ↦ rw (util_utf16toutf8, n, refused) (ground arith)
      ]

low-IsPlain : (w : ℕ) → w < 0x10000 → is_low w ≡ true → IsPlain w
low-IsPlain w h l = (ground arith, (h, ground arith))

length-encode_utf8-join : (w1 w2 : ℕ) → length (encode_utf8 (join w1 w2)) ≡ 4
unfolding encode_utf8
length-encode_utf8-join w1 w2 = ground arith

low_text : (w : ℕ) → w < 0x10000 → is_low w ≡ true → length (encode_utf8 w) ≡ 3
low_text w h l = length-encode_utf8 w h ∙ ground arith

-- A pair that is followed by a second half alone, at the end of the text, is counted as 7 bytes, and 10
-- bytes are written.
pub to_utf8-overflow :
    (hi lo lo' : ℕ)
    → hi < 0x10000
    → lo < 0x10000
    → lo' < 0x10000
    → is_high hi ≡ true
    → is_low lo ≡ true
    → is_low lo' ≡ true
    → (b : Bytes) × (util_utf16toutf8_len (two_bytes hi ++ (two_bytes lo ++ two_bytes lo'))
        ≡ some 7)
      × (to_utf8 (two_bytes hi ++ (two_bytes lo ++ two_bytes lo')) ≡ done (some b))
      × (length b ≡ 10)
unfolding texts to_utf8 util_utf16toutf8_len
to_utf8-overflow hi lo lo' h l l' hh hl hl' =
    let hu : is_high (unit (hi % 256) (hi / 256 % 256)) ≡ true = high_unit hi h hh in
    let lu : is_low (unit (lo' % 256) (lo' / 256 % 256)) ≡ true =
      ap is_low (unit_back lo' l') ∙ hl' in
    let w = join (unit (hi % 256) (hi / 256 % 256)) (unit (lo' % 256) (lo' / 256 % 256)) in
    let pl : is_high (unit (lo' % 256) (lo' / 256 % 256)) ≡ false =
      ap is_high (unit_back lo' l') ∙ (low-IsPlain lo' l' hl').1.1 in
    let ul : unit_len (unit (lo' % 256) (lo' / 256 % 256)) ≡ 3 =
      ap unit_len (unit_back lo' l') ∙ ground arith in
    let rest = to_utf8-units (lo ∷ lo' ∷ []) (low-IsPlain lo l hl, (low-IsPlain lo' l' hl', tt)) in
    (
      encode_utf8 w ++ texts (lo ∷ lo' ∷ []),
      rw (hu, pl, ul) refl,
      rw (hu, lu) (ap (behind (encode_utf8 w)) rest),
      omega (
        arith,
        low_text lo l hl,
        low_text lo' l' hl',
        length-encode_utf8-join (unit (hi % 256) (hi / 256 % 256))
            (unit (lo' % 256) (lo' / 256 % 256)),
        length-append (encode_utf8 w) (texts (lo ∷ lo' ∷ [])),
        length-append (encode_utf8 lo) (texts (lo' ∷ [])),
        length-append (encode_utf8 lo') [],
        low_text lo' l' hl',
      ),
    )
