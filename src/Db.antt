-- ===== src/Db.antt =====
-- The clean-up of strings of src/db.c, before a song goes into the database: db_utf8_validate_string
-- and db_trim_string. A string that is NULL is left alone.
pub mod Cache
pub mod Clean
pub mod Trim
mod Tests
use fireflymediaserver.Prelude.{
  ℕ, zero, suc, ◌+◌, Bool, true, false, not, ◌&&◌, ◌||◌, List, [], ◌∷◌, Option, none, some, ◌==◌,
  if◌then◌else◌, Bytes, bit_and, length,
}

-- "(*current) & 0x80".
abbrev pub is_high : ℕ → Bool
is_high c = not (bit_and c 0x80 == 0)

-- "(c & 0xC0) == 0x80".
abbrev pub is_more : ℕ → Bool
is_more c = bit_and c 0xC0 == 0x80

-- `run`: the later of the three tests overrides.
abbrev pub run_of : ℕ → ℕ
run_of c =
    if bit_and c 0xF8 == 0xF0
    then 3
    else if bit_and c 0xF0 == 0xE0
    then 2
    else if bit_and c 0xE0 == 0xC0
    then 1
    else 0

-- "r_current == run" after the loop over the bytes behind the lead.
unfoldable pub follow : ℕ → Bytes → Bool
follow zero s = true
follow (suc run) [] = false
follow (suc run) (c ∷ s) = is_more c && follow run s

-- The byte that is left at `current`, how many bytes behind it are passed over, and `retval`.
unfoldable pub checked : ℕ → Bytes → ℕ × ℕ × Bool
unfolding follow
checked c s =
    if not (is_high c)
    then (c, 0, false)
    else if run_of c == 0
    then (b'?', 0, true)
    else if follow (run_of c) s
    then (c, run_of c, false)
    else (b'?', 0, true)

-- "while(*current)", with the bytes that are still passed over.
unfoldable pub validate_from : ℕ → Bytes → Bytes × Bool
unfolding checked
validate_from skip [] = ([], false)
validate_from (suc skip) (c ∷ s) = let (rest, changed) = validate_from skip s in (c ∷ rest, changed)
validate_from zero (c ∷ s) =
    let (byte, skip, here) = checked c s in
    let (rest, changed) = validate_from skip s in (byte ∷ rest, here || changed)

-- The string after the call, and whether the result is 1.
unfoldable pub db_utf8_validate_string : Option Bytes → Option Bytes × Bool
unfolding validate_from
db_utf8_validate_string none = (none, false)
db_utf8_validate_string (some s) = let (clean, changed) = validate_from 0 s in (some clean, changed)

-- "string[strlen(string) - 1]", for a string that is not empty.
unfoldable pub last_byte : ℕ → Bytes → ℕ
last_byte c [] = c
last_byte c (d ∷ s) = last_byte d s

-- "string[strlen(string) - 1] = '\0'".
unfoldable pub drop_last : Bytes → Bytes
drop_last [] = []
drop_last (c ∷ []) = []
drop_last (c ∷ d ∷ s) = c ∷ drop_last (d ∷ s)

-- The loop, each round of which makes the string shorter.
unfoldable pub trim_from : ℕ → Bytes → Bytes
unfolding last_byte drop_last
trim_from zero s = s
trim_from (suc fuel) [] = []
trim_from (suc fuel) (c ∷ s) =
    let shorter = trim_from fuel (drop_last (c ∷ s)) in
    if last_byte c s == b' ' then shorter else c ∷ s

unfoldable pub db_trim_string : Option Bytes → Option Bytes
unfolding trim_from
db_trim_string none = none
db_trim_string (some s) = some (trim_from (length s) s)
