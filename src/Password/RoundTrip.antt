-- ===== src/Password/RoundTrip.antt =====
-- Headers of the "Basic" scheme: the base 64 of RFC 4648 through `ws_decodepassword` of src/webserver.c.
use fireflymediaserver.Prelude.{
  ℕ, zero, suc, ◌+◌, ◌-◌, ◌*◌, ◌/◌, ◌%◌, ◌<◌, ◌≤◌, ◌≡◌, refl, ap, Bool, false, [], ◌∷◌, ◌++◌, some,
  ◌||◌, ◌==◌, ==_iff, ltb, ltb→lt, if_cases, if◌then◌else◌, length, length-append, Bytes, codes,
  arith,
}
use fireflymediaserver.SmartParser.State.{done}
use fireflymediaserver.Password.{
  digit, ws_xlat, is_garbage, meets_garbage, upper, lower, decode, buffer_string, split_colon,
  ws_decodepassword,
}

-- The digits of base 64.
unfoldable pub sextet : ℕ → ℕ
sextet v =
    if ltb v 26
    then b'A' + v
    else if ltb v 52
    then b'a' + (v - 26)
    else if ltb v 62
    then b'0' + (v - 52)
    else if v == 62
    then b'+'
    else b'/'

-- Three bytes make four digits; the last group is padded.
unfoldable pub base64 : Bytes → Bytes
unfolding sextet
base64 (x ∷ y ∷ z ∷ s) =
    sextet (x / 4)
    ∷ sextet (x % 4 * 16 + y / 16)
    ∷ sextet (y % 16 * 4 + z / 64)
    ∷ sextet (z % 64)
    ∷ base64 s
base64 (x ∷ y ∷ []) =
    sextet (x / 4) ∷ sextet (x % 4 * 16 + y / 16) ∷ sextet (y % 16 * 4) ∷ b'=' ∷ []
base64 (x ∷ []) = sextet (x / 4) ∷ sextet (x % 4 * 16) ∷ b'=' ∷ b'=' ∷ []
base64 [] = []

xlat_upper : (v : ℕ) → v < 26 → ws_xlat (b'A' + v) ≡ digit v
unfolding ws_xlat
xlat_upper v h = ground arith

xlat_lower : (v : ℕ) → 26 ≤ v → v < 52 → ws_xlat (b'a' + (v - 26)) ≡ digit v
unfolding ws_xlat
xlat_lower v g h = ground arith

xlat_number : (v : ℕ) → 52 ≤ v → v < 62 → ws_xlat (b'0' + (v - 52)) ≡ digit v
unfolding ws_xlat
xlat_number v g h = ground arith

xlat_sign : (v : ℕ) → 62 ≤ v → v < 64 → ws_xlat (if v == 62 then b'+' else b'/') ≡ digit v
unfolding ws_xlat
xlat_sign v g h = ground (arith, ==_iff v 62)

xlat-sextet : (v : ℕ) → v < 64 → ws_xlat (sextet v) ≡ digit v
unfolding sextet
xlat-sextet v h =
    if_cases (λ c. ws_xlat c ≡ digit v) (ltb v 26) (λ a. xlat_upper v (ltb→lt v 26 a))
      (λ a.
        if_cases (λ c. ws_xlat c ≡ digit v) (ltb v 52)
          (λ b. xlat_lower v (ground arith) (ltb→lt v 52 b))
          (λ b.
            if_cases (λ c. ws_xlat c ≡ digit v) (ltb v 62)
              (λ c. xlat_number v (ground arith) (ltb→lt v 62 c))
              (λ c. xlat_sign v (ground arith) h)))

or_false : {a b : Bool} → a ≡ false → b ≡ false → (a || b) ≡ false
or_false e f = rw (e, f) refl

fine : (signed : Bool) (v : ℕ) → v < 64 → is_garbage signed (ws_xlat (sextet v)) ≡ false
fine signed v h = ap (is_garbage signed) (xlat-sextet v h)

abbrev pub AllBytes : Bytes → Type 0
AllBytes [] = Unit
AllBytes (c ∷ s) = (0 < c) × (c < 256) × AllBytes s

abbrev zeros : Bytes → Bytes
zeros (x ∷ y ∷ z ∷ s) = zeros s
zeros (x ∷ y ∷ []) = 0 ∷ []
zeros (x ∷ []) = 0 ∷ 0 ∷ []
zeros [] = []

three_bytes : {a b c x y z : ℕ} → a ≡ x → b ≡ y → c ≡ z → (a ∷ b ∷ c ∷ []) ≡ (x ∷ y ∷ z ∷ [])
three_bytes e f g = rw (e, f, g) refl

first_byte :
    (x y : ℕ)
    → x < 256
    → y < 256
    → lower (upper 2 (digit (x / 4))) 4 (digit (x % 4 * 16 + y / 16)) ≡ x
first_byte x y h k = omega arith

second_byte :
    (x y z : ℕ)
    → y < 256
    → z < 256
    → lower (upper 4 (digit (x % 4 * 16 + y / 16))) 2 (digit (y % 16 * 4 + z / 64)) ≡ y
second_byte x y z h k = omega arith

third_byte :
    (y z : ℕ) → z < 256 → lower (upper 6 (digit (y % 16 * 4 + z / 64))) 0 (digit (z % 64)) ≡ z
third_byte y z h = omega arith

decode-base64 : (s : Bytes) → AllBytes s → decode (base64 s) ≡ s ++ zeros s
unfolding decode base64
decode-base64 [] h = refl
decode-base64 (x ∷ []) (px, hx, h) =
    rw (xlat-sextet (x / 4) (omega arith), xlat-sextet (x % 4 * 16) (omega arith))
      (three_bytes (omega arith) (omega arith) refl)
decode-base64 (x ∷ y ∷ []) (px, hx, (py, hy, h)) =
    rw
      (
        xlat-sextet (x / 4) (omega arith),
        xlat-sextet (x % 4 * 16 + y / 16) (omega arith),
        xlat-sextet (y % 16 * 4) (omega arith),
      )
      (three_bytes (omega arith) (omega arith) (omega arith))
decode-base64 (x ∷ y ∷ z ∷ s) (px, hx, (py, hy, (pz, hz, h))) =
    rw
      (
        xlat-sextet (x / 4) (omega arith),
        xlat-sextet (x % 4 * 16 + y / 16) (omega arith),
        xlat-sextet (y % 16 * 4 + z / 64) (omega arith),
        xlat-sextet (z % 64) (omega arith),
        first_byte x y hx hy,
        second_byte x y z hy hz,
        third_byte y z hz,
        decode-base64 s h,
      )
      refl

-- The base 64 of a text holds digits and padding only.
meets_garbage-base64 :
    (signed : Bool) (s : Bytes) → AllBytes s → meets_garbage signed (base64 s) ≡ false
unfolding meets_garbage base64
meets_garbage-base64 signed [] h = refl
meets_garbage-base64 signed (x ∷ []) (px, hx, h) =
    or_false (fine signed (x / 4) (omega arith))
      (or_false (fine signed (x % 4 * 16) (omega arith)) refl)
meets_garbage-base64 signed (x ∷ y ∷ []) (px, hx, (py, hy, h)) =
    or_false (fine signed (x / 4) (omega arith)) (
      or_false (fine signed (x % 4 * 16 + y / 16) (omega arith))
        (or_false (fine signed (y % 16 * 4) (omega arith)) refl))
meets_garbage-base64 signed (x ∷ y ∷ z ∷ s) (px, hx, (py, hy, (pz, hz, h))) =
    or_false (fine signed (x / 4) (omega arith)) (
      or_false (fine signed (x % 4 * 16 + y / 16) (omega arith)) (
        or_false (fine signed (y % 16 * 4 + z / 64) (omega arith))
          (or_false (fine signed (z % 64) (omega arith)) (meets_garbage-base64 signed s h))))

-- The text is shorter than its base 64.
length-base64 : (s : Bytes) → 0 < length s → length s < length (base64 s)
unfolding base64
length-base64 [] h = absurd (omega arith)
length-base64 (x ∷ []) h = omega arith
length-base64 (x ∷ y ∷ []) h = omega arith
length-base64 (x ∷ y ∷ z ∷ []) h = omega arith
length-base64 (x ∷ y ∷ z ∷ w ∷ s) h = omega (arith, length-base64 (w ∷ s))

buffer_zeros : (size : ℕ) (s : Bytes) → 0 < size → buffer_string size (zeros s) ≡ done []
unfolding buffer_string
buffer_zeros zero s h = absurd (omega arith)
buffer_zeros (suc size) [] h = refl
buffer_zeros (suc size) (x ∷ []) h = refl
buffer_zeros (suc size) (x ∷ y ∷ []) h = refl
buffer_zeros (suc size) (x ∷ y ∷ z ∷ s) h = buffer_zeros (suc size) s h

buffer-string :
    (size : ℕ) (s t : Bytes)
    → AllBytes s
    → length s < size
    → buffer_string size (s ++ zeros t) ≡ done s
unfolding buffer_string
buffer-string size [] t a h = buffer_zeros size t h
buffer-string zero (c ∷ s) t a h = absurd (omega arith)
buffer-string (suc size) (c ∷ s) t (p, q, a) h =
    let ne : (c == 0) ≡ false = ground arith in rw (ne, buffer-string size s t a (omega arith)) refl

abbrev pub has_colon : Bytes → Bool
has_colon [] = false
has_colon (c ∷ s) = c == b':' || has_colon s

split-colon :
    (user password : Bytes)
    → has_colon user ≡ false
    → split_colon (user ++ (b':' ∷ password)) ≡ (user, some password)
unfolding split_colon
split-colon [] password h = refl
split-colon (c ∷ user) password h =
    let ne : (c == b':') ≡ false = ground arith in
    rw (ne, split-colon user password (ground arith)) refl

-- A user name without a colon and a password, both of bytes other than NUL, in base 64 behind
-- "Basic ", are decoded to themselves, whether a `char` is signed or not.
pub ws_decodepassword-base64 :
    (signed : Bool) (user password : Bytes)
    → AllBytes (user ++ (b':' ∷ password))
    → has_colon user ≡ false
    → ws_decodepassword signed (codes "Basic " ++ base64 (user ++ (b':' ∷ password)))
      ≡ done (some (user, some password))
unfolding ws_decodepassword
ws_decodepassword-base64 signed user password a h =
    let s = user ++ (b':' ∷ password) in
    rw
      (
        meets_garbage-base64 signed s a,
        decode-base64 s a,
        buffer-string (length (base64 s)) s s a
            (length-base64 s (omega (arith, length-append user (b':' ∷ password)))),
        split-colon user password h,
      )
      refl
