-- ===== src/Util.antt =====
-- util_split of src/util.c, which cuts a string at its delimiters, and the hash of a block.
-- The copy `t` is a buffer that ends at its NUL: a read behind the NUL leaves the buffer.
pub mod Inside
pub mod RoundTrip
mod Tests
use fireflymediaserver.Prelude.{
  ℕ, zero, suc, ◌+◌, ◌*◌, ◌%◌, ◌^◌, Bool, true, false, ◌&&◌, ◌||◌, List, [], ◌∷◌, Option, none,
  some, ◌==◌, if◌then◌else◌, Bytes,
}

-- `strchr(delimiters, c)`, for a byte that is no NUL.
unfoldable pub has : Bytes → ℕ → Bool
has [] c = false
has (d ∷ delimiters) c = d == c || has delimiters c

-- `strspn`, and the pointer moved by it.
unfoldable pub skip_leading : Bytes → Bytes → Bytes
unfolding has
skip_leading delimiters [] = []
skip_leading delimiters (c ∷ s) =
    let rest = skip_leading delimiters s in if has delimiters c then rest else c ∷ s

-- The loop over `s` that adds to `numtokens`.
unfoldable pub count_from : Bytes → Bytes → ℕ
unfolding has
count_from delimiters [] = 0
count_from delimiters (c ∷ []) = if has delimiters c then 1 else 0
count_from delimiters (c ∷ e ∷ s) =
    let escaped = count_from delimiters s in
    let next = count_from delimiters (e ∷ s) in
    if has delimiters c && e == c then escaped else if has delimiters c then suc next else next

-- "while(*tmp)": what stands before the NUL that is written, and where `tmp` goes. Where the loop ends
-- at the buffer's own NUL, `tmp` leaves the buffer.
unfoldable pub cut : Bytes → Bytes → Bytes × Option Bytes
unfolding has
cut delimiters [] = ([], none)
cut delimiters (c ∷ []) = if has delimiters c then ([], some []) else (c ∷ [], none)
cut delimiters (c ∷ e ∷ s) =
    let (escaped, after) = cut delimiters s in
    let (next, behind) = cut delimiters (e ∷ s) in
    if has delimiters c
    then if e == c then (c ∷ e ∷ escaped, after) else ([], some (e ∷ s))
    else (c ∷ next, behind)

-- "while(*fix_src)": one of each two delimiters is dropped.
unfoldable pub fix : Bytes → Bytes → Bytes
unfolding has
fix delimiters [] = []
fix delimiters (c ∷ []) = c ∷ []
fix delimiters (c ∷ e ∷ s) =
    let escaped = fix delimiters s in
    let next = fix delimiters (e ∷ s) in
    if has delimiters c && e == c then e ∷ escaped else c ∷ next

-- "for (i = 0; i < numtokens; i++)", and nothing where it reads outside the buffer.
unfoldable pub tokens : Bytes → ℕ → Option Bytes → Option (List Bytes)
unfolding cut fix
tokens delimiters zero tmp = some []
tokens delimiters (suc n) none = none
tokens delimiters (suc n) (some s) =
    let (token, rest) = cut delimiters s in
    let later = tokens delimiters n rest in
    elim later [ none ↦ none | some argv ↦ some (fix delimiters token ∷ argv) ]

pub data Split : Type 0 where
  failed overrun : Split
  argv : List Bytes → Split

abbrev pub split_result : Option (List Bytes) → Split
split_result none = overrun
split_result (some args) = argv args

-- `failed` is the result -1; `argv` has the result `numtokens` and the array.
unfoldable pub util_split : Option Bytes → Option Bytes → Split
unfolding skip_leading count_from tokens
util_split none delimiters = failed
util_split (some s) none = failed
util_split (some s) (some delimiters) =
    split_result
      (tokens delimiters (suc (count_from delimiters s)) (some (skip_leading delimiters s)))

unfoldable djb_from : ℕ → Bytes → ℕ
djb_from hash [] = hash
djb_from hash (c ∷ data_bytes) = djb_from ((hash * 33 + c) % 2 ^ 32) data_bytes

-- "((hash << 5) + hash) + *pstr" on 32 bits.
unfoldable pub util_djb_hash_block : Bytes → ℕ
unfolding djb_from
util_djb_hash_block block = djb_from 5381 block
