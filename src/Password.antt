-- ===== src/Password.antt =====
-- The user and the password in the header of a request: `ws_decodepassword` of src/webserver.c. Whether
-- a `char` is signed is up to the compiler, and `signed` says it. What its loop writes over zeroed bytes is a sum, where the bits are apart, and `pads` and
-- `len`, which nothing reads, are left out.
pub mod RoundTrip
pub mod Refusal
mod Tests
use fireflymediaserver.Prelude.{
  ℕ, zero, suc, ◌+◌, ◌-◌, ◌*◌, ◌/◌, ◌%◌, ◌^◌, Bool, true, false, not, ◌&&◌, ◌||◌, [], ◌∷◌, ◌++◌,
  Option, none, some, ◌==◌, leb, ltb, if◌then◌else◌, length, Bytes,
}
use fireflymediaserver.SmartParser.State.{Outcome, done, overrun, ◌>>=◌}

-- A character of the text: padding, or its entry in `ws_xlat`, where -1 stands for no digit.
pub data Lookup : Type 0 where
  pad minus_one : Lookup
  digit : ℕ → Lookup

unfoldable pub ws_xlat : ℕ → Lookup
ws_xlat c =
    if c == b'='
    then pad
    else if leb b'A' c && leb c b'Z'
    then digit (c - b'A')
    else if leb b'a' c && leb c b'z'
    then digit (c - b'a' + 26)
    else if leb b'0' c && leb c b'9'
    then digit (c - b'0' + 52)
    else if c == b'+'
    then digit 62
    else if c == b'/'
    then digit 63
    else minus_one

-- "pout[i] = (lookup << k)".
abbrev pub upper : ℕ → Lookup → ℕ
upper k pad = 0
upper k minus_one = 256 - 2 ^ k
upper k (digit v) = v * 2 ^ k % 256

-- "pout[i] |= (lookup >> k)".
abbrev pub lower : ℕ → ℕ → Lookup → ℕ
lower byte k pad = byte
lower byte k minus_one = 255
lower byte k (digit v) = byte + v / 2 ^ k

-- "lookup == 0xFF": an entry of -1 is 255 where a `char` is unsigned, and below 0 where it is signed.
abbrev pub is_garbage : Bool → Lookup → Bool
is_garbage signed pad = false
is_garbage signed minus_one = not signed
is_garbage signed (digit v) = false

-- The test is made at each character; where it holds, the buffer is freed.
unfoldable pub meets_garbage : Bool → Bytes → Bool
unfolding ws_xlat
meets_garbage signed [] = false
meets_garbage signed (c ∷ s) = is_garbage signed (ws_xlat c) || meets_garbage signed s

-- The bytes that the loop writes, where it meets no garbage: four characters make three of them.
unfoldable pub decode : Bytes → Bytes
unfolding ws_xlat
decode (a ∷ b ∷ c ∷ d ∷ s) =
    lower (upper 2 (ws_xlat a)) 4 (ws_xlat b)
    ∷ lower (upper 4 (ws_xlat b)) 2 (ws_xlat c)
    ∷ lower (upper 6 (ws_xlat c)) 0 (ws_xlat d)
    ∷ decode s
decode (a ∷ b ∷ c ∷ []) =
    lower (upper 2 (ws_xlat a)) 4 (ws_xlat b)
    ∷ lower (upper 4 (ws_xlat b)) 2 (ws_xlat c)
    ∷ upper 6 (ws_xlat c)
    ∷ []
decode (a ∷ b ∷ []) = lower (upper 2 (ws_xlat a)) 4 (ws_xlat b) ∷ upper 4 (ws_xlat b) ∷ []
decode (a ∷ []) = upper 2 (ws_xlat a) ∷ []
decode [] = []

-- The string in a buffer of `size` bytes, which are 0 behind those written.
unfoldable pub buffer_string : ℕ → Bytes → Outcome Bytes
buffer_string zero written = overrun
buffer_string (suc size) [] = done []
buffer_string (suc size) (c ∷ written) =
    let rest = buffer_string size written in if c == 0 then done [] else (do s ← rest; done (c ∷ s))

-- "strsep(password,":")": what stands before the colon and behind it.
unfoldable pub split_colon : Bytes → Bytes × Option Bytes
split_colon [] = ([], none)
split_colon (c ∷ s) =
    let (user, password) = split_colon s in if c == b':' then ([], some s) else (c ∷ user, password)

unfoldable pub skip_spaces : Bytes → Bytes
skip_spaces [] = []
skip_spaces (c ∷ s) = if c == b' ' then skip_spaces s else c ∷ s

-- What stands behind the first space, as `strchr` finds it.
unfoldable pub behind_space : Bytes → Option Bytes
behind_space [] = none
behind_space (c ∷ s) = if c == b' ' then some s else behind_space s

-- The result is the user and the password, which may be NULL, or `none` for FALSE.
unfoldable pub ws_decodepassword : Bool → Bytes → Outcome (Option (Bytes × Option Bytes))
unfolding skip_spaces behind_space meets_garbage decode buffer_string split_colon
ws_decodepassword signed header = elim (behind_space (skip_spaces header)) [
  | none ↦ done none
  | some base64 ↦
      if meets_garbage signed base64
      then done none
      else (do s ← buffer_string (length base64) (decode base64); done (some (split_colon s)))
]
