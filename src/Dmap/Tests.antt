-- ===== src/Dmap/Tests.antt =====
-- Blocks of src/plugins/out-daap-proto.c at concrete inputs.
use fireflymediaserver.Prelude.{◌≡◌, refl, ◌∷◌, ◌++◌, some, length, codes, arith}
use fireflymediaserver.Dmap.{
  Tag, dmap_add_char, dmap_add_short, dmap_add_int, dmap_add_long, dmap_add_string,
  dmap_add_literal, dmap_add_container,
}
use fireflymediaserver.Dmap.RoundTrip.{
  HoldsNumber, read_block, dmap_add_numbers_lem, dmap_add_string_lem,
}

abbrev minm : Tag
minm = record { b0 = b'm'; b1 = b'i'; b2 = b'n'; b3 = b'm' }

writes_name :
    (dmap_add_string minm (some (codes "ab"))).0 ≡ codes "minm" ++ (0 ∷ 0 ∷ 0 ∷ 2 ∷ codes "ab")
unfolding dmap_add_string
writes_name = refl

dmap_add_numbers_example :
    HoldsNumber minm 1 7 (codes "x") (dmap_add_char minm 7)
    × HoldsNumber minm 2 300 (codes "x") (dmap_add_short minm 300)
    × HoldsNumber minm 4 70000 (codes "x") (dmap_add_int minm 70000)
    × HoldsNumber minm 8 5000000000 (codes "x") (dmap_add_long minm 5000000000)
dmap_add_numbers_example =
    dmap_add_numbers_lem minm 7 300 70000 5000000000 (codes "x") (omega arith) (omega arith)
      (omega arith) (omega arith)

dmap_add_string_example :
    (read_block ((dmap_add_string minm (some (codes "ab"))).0 ++ codes "x")
      ≡ some (minm, codes "ab", codes "x"))
    × ((dmap_add_string minm (some (codes "ab"))).1
        ≡ length (dmap_add_string minm (some (codes "ab"))).0)
    × (read_block ((dmap_add_literal minm (codes "cd")).0 ++ codes "x")
        ≡ some (minm, codes "cd", codes "x"))
    × ((dmap_add_literal minm (codes "cd")).1 ≡ length (dmap_add_literal minm (codes "cd")).0)
    × (read_block ((dmap_add_container minm (length (codes "cd"))).0 ++ (codes "cd" ++ codes "x"))
        ≡ some (minm, codes "cd", codes "x"))
    × ((dmap_add_container minm (length (codes "cd"))).1
        ≡ length (dmap_add_container minm (length (codes "cd"))).0)
dmap_add_string_example =
    dmap_add_string_lem minm (some (codes "ab")) (codes "cd") (codes "x") (omega arith)
      (omega arith)
