-- ===== src/Dmap.antt =====
-- DMAP blocks: the functions `dmap_add_*` of src/plugins/out-daap-proto.c. Each gives the bytes that it
-- writes at `where`, and the count that it returns. An `int` or `short` is given by its 32 or 16 bits. The
-- lengths are of type `int`: content of 2 ^ 31 bytes or more, for which they are negative and the copy
-- runs on, is outside the model.
pub mod RoundTrip
mod Tests
use fireflymediaserver.Prelude.{
  ℕ, ◌+◌, ◌*◌, ◌/◌, ◌%◌, ◌^◌, [], ◌∷◌, ◌++◌, Option, none, some, length, Bytes,
}

-- The four bytes of a tag.
pub record Tag : Type 0 where
  pub b0 : ℕ
  pub b1 : ℕ
  pub b2 : ℕ
  pub b3 : ℕ

abbrev pub tag_bytes : Tag → Bytes
tag_bytes t = t.b0 ∷ t.b1 ∷ t.b2 ∷ t.b3 ∷ []

-- "(n >> 24) & 0xFF", "(n >> 16) & 0xFF", "(n >> 8) & 0xFF", "n & 0xFF".
abbrev pub four_bytes : ℕ → Bytes
four_bytes n = n / 2 ^ 24 % 256 ∷ n / 2 ^ 16 % 256 ∷ n / 2 ^ 8 % 256 ∷ n % 256 ∷ []

unfoldable pub dmap_add_char : Tag → ℕ → Bytes × ℕ
dmap_add_char tag value = (tag_bytes tag ++ (0 ∷ 0 ∷ 0 ∷ 1 ∷ value ∷ []), 9)

unfoldable pub dmap_add_short : Tag → ℕ → Bytes × ℕ
dmap_add_short tag value =
    (tag_bytes tag ++ (0 ∷ 0 ∷ 0 ∷ 2 ∷ value / 2 ^ 8 % 256 ∷ value % 256 ∷ []), 10)

unfoldable pub dmap_add_int : Tag → ℕ → Bytes × ℕ
dmap_add_int tag value = (tag_bytes tag ++ (0 ∷ 0 ∷ 0 ∷ 4 ∷ four_bytes value), 12)

unfoldable pub dmap_add_long : Tag → ℕ → Bytes × ℕ
dmap_add_long tag value =
    let v_hi = value / 2 ^ 32 % 2 ^ 32 in
    let v_lo = value % 2 ^ 32 in
    (tag_bytes tag ++ (0 ∷ 0 ∷ 0 ∷ 8 ∷ (four_bytes v_hi ++ four_bytes v_lo)), 16)

-- What `strlen` counts, and nothing for NULL.
abbrev pub string_bytes : Option Bytes → Bytes
string_bytes none = []
string_bytes (some s) = s

unfoldable pub dmap_add_string : Tag → Option Bytes → Bytes × ℕ
dmap_add_string tag value =
    let len = length (string_bytes value) in
    (tag_bytes tag ++ (four_bytes len ++ string_bytes value), (8 + len) % 2 ^ 32)

-- `value` is `size` bytes long.
unfoldable pub dmap_add_literal : Tag → Bytes → Bytes × ℕ
dmap_add_literal tag value =
    let size = length value in (tag_bytes tag ++ (four_bytes size ++ value), (8 + size) % 2 ^ 32)

unfoldable pub dmap_add_container : Tag → ℕ → Bytes × ℕ
dmap_add_container tag size = (tag_bytes tag ++ four_bytes size, 8)
