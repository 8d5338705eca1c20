-- ===== src/Dmap/RoundTrip.antt =====
-- Blocks of src/plugins/out-daap-proto.c read back, by the DMAP format: a tag, a length in four bytes,
-- the greater ones first, and as many bytes of content.
use fireflymediaserver.Prelude.{
  ℕ, zero, suc, ◌+◌, ◌*◌, ◌/◌, ◌%◌, ◌^◌, ◌<◌, ◌≡◌, refl, ap, [], ◌∷◌, ◌++◌, Option, none, some,
  length, length-append, Bytes, arith, leb, drop, if◌then◌else◌, true,
}
use fireflymediaserver.Dmap.{
  Tag, tag_bytes, four_bytes, string_bytes, dmap_add_char, dmap_add_short, dmap_add_int,
  dmap_add_long, dmap_add_string, dmap_add_literal, dmap_add_container,
}

abbrev pub take : ℕ → Bytes → Bytes
take zero s = []
take (suc n) [] = []
take (suc n) (c ∷ s) = c ∷ take n s

-- The number that bytes stand for, the greatest first.
abbrev pub big_endian : ℕ → Bytes → ℕ
big_endian acc [] = acc
big_endian acc (c ∷ s) = big_endian (acc * 256 + c) s

-- One block: its tag, its content, and what follows.
abbrev pub split_block : Tag → ℕ → Bytes → Option (Tag × Bytes × Bytes)
split_block tag n s = if leb n (length s) then some (tag, take n s, drop n s) else none

unfoldable pub read_block : Bytes → Option (Tag × Bytes × Bytes)
read_block (a ∷ b ∷ c ∷ d ∷ e ∷ f ∷ g ∷ h ∷ s) =
    split_block (record { b0 = a; b1 = b; b2 = c; b3 = d }) (big_endian 0 (e ∷ f ∷ g ∷ h ∷ [])) s
read_block s = none

take-append : (s t : Bytes) → take (length s) (s ++ t) ≡ s
take-append [] t = refl
take-append (c ∷ s) t = ap (◌∷◌ c) (take-append s t)

drop-append : (s t : Bytes) → drop (length s) (s ++ t) ≡ t
drop-append [] t = refl
drop-append (c ∷ s) t = drop-append s t

split_block-append :
    (tag : Tag) (s t : Bytes) → split_block tag (length s) (s ++ t) ≡ some (tag, s, t)
split_block-append tag s t =
    let fits : leb (length s) (length (s ++ t)) ≡ true = ground (arith, length-append s t) in
    rw (fits, take-append s t, drop-append s t) refl

four_bytes_lem : (n : ℕ) → n < 2 ^ 32 → big_endian 0 (four_bytes n) ≡ n
four_bytes_lem n h = omega arith

-- A tag, a length, and content of this length, read back.
read_block-append :
    (tag : Tag) (s t : Bytes)
    → length s < 2 ^ 32
    → read_block (tag_bytes tag ++ (four_bytes (length s) ++ (s ++ t))) ≡ some (tag, s, t)
unfolding read_block
read_block-append tag s t h = rw (four_bytes_lem (length s) h) (split_block-append tag s t)

-- A block that a number is written to reads back as its tag and `size` bytes for the number, and the
-- count that is returned is the block's length.
abbrev pub HoldsNumber : Tag → ℕ → ℕ → Bytes → Bytes × ℕ → Type 0
HoldsNumber tag size value rest (block, count) =
    (s : Bytes) × (read_block (block ++ rest) ≡ some (tag, s, rest))
    × (big_endian 0 s ≡ value)
    × (length s ≡ size)
    × (count ≡ length block)

-- Numbers of 8, 16, 32 and 64 bits, each within its width, are read back from their blocks, which are
-- as long as the returned counts, whatever follows them.
pub dmap_add_numbers_lem :
    (tag : Tag) (c s i l : ℕ) (rest : Bytes)
    → c < 2 ^ 8
    → s < 2 ^ 16
    → i < 2 ^ 32
    → l < 2 ^ 64
    → HoldsNumber tag 1 c rest (dmap_add_char tag c)
      × HoldsNumber tag 2 s rest (dmap_add_short tag s)
      × HoldsNumber tag 4 i rest (dmap_add_int tag i)
      × HoldsNumber tag 8 l rest (dmap_add_long tag l)
unfolding dmap_add_char dmap_add_short dmap_add_int dmap_add_long
dmap_add_numbers_lem tag c s i l rest hc hs hi hl = (
  (c ∷ [], read_block-append tag (c ∷ []) rest (omega arith), omega arith, refl, refl),
  (
    _,
    read_block-append tag (s / 2 ^ 8 % 256 ∷ s % 256 ∷ []) rest (omega arith),
    omega arith,
    refl,
    refl,
  ),
  (_, read_block-append tag (four_bytes i) rest (omega arith), omega arith, refl, refl),
  (
    _,
    read_block-append tag (four_bytes (l / 2 ^ 32 % 2 ^ 32) ++ four_bytes (l % 2 ^ 32)) rest
        (omega arith),
    omega arith,
    refl,
    refl,
  ),
)

-- A string, or NULL as the empty one, and a literal, whose blocks are shorter than 2 ^ 31 bytes, are
-- read back from the blocks, which are as long as the returned counts; and a container's header makes one block of the
-- content that is written behind it.
pub dmap_add_string_lem :
    (tag : Tag) (value : Option Bytes) (chunk rest : Bytes)
    → 8 + length (string_bytes value) < 2 ^ 31
    → 8 + length chunk < 2 ^ 31
    → (read_block ((dmap_add_string tag value).0 ++ rest) ≡ some (tag, string_bytes value, rest))
      × ((dmap_add_string tag value).1 ≡ length (dmap_add_string tag value).0)
      × (read_block ((dmap_add_literal tag chunk).0 ++ rest) ≡ some (tag, chunk, rest))
      × ((dmap_add_literal tag chunk).1 ≡ length (dmap_add_literal tag chunk).0)
      × (read_block ((dmap_add_container tag (length chunk)).0 ++ (chunk ++ rest))
          ≡ some (tag, chunk, rest))
      × ((dmap_add_container tag (length chunk)).1
          ≡ length (dmap_add_container tag (length chunk)).0)
unfolding dmap_add_string dmap_add_literal dmap_add_container
dmap_add_string_lem tag value chunk rest h k = (
  read_block-append tag (string_bytes value) rest (omega arith),
  omega arith,
  read_block-append tag chunk rest (omega arith),
  omega arith,
  read_block-append tag chunk rest (omega arith),
  refl,
)
