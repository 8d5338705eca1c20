-- ===== src/Util/Tests.antt =====
-- Runs of util_split of src/util.c.
use fireflymediaserver.Prelude.{
  ◌≡◌, suc, ◌≤◌, ◌<◌, refl, List, [], ◌∷◌, ◌++◌, some, Bytes, codes, length,
}
use fireflymediaserver.Util.{
  has, count_from, skip_leading, util_split, argv, overrun, util_djb_hash_block, cut, fix, tokens,
}
use fireflymediaserver.Util.Inside.{util_split-inside}
use fireflymediaserver.Util.RoundTrip.{escape, joined_rest, AllStart, util_split-joined}

abbrev comma : Bytes
comma = codes ","

split_doubled :
    util_split (some (codes "a,,b,c")) (some comma) ≡ argv (codes "a,b" ∷ codes "c" ∷ [])
unfolding util_split has count_from skip_leading cut fix tokens
split_doubled = refl

split_leading : util_split (some (codes ",a")) (some comma) ≡ overrun
unfolding util_split has count_from skip_leading cut fix tokens
split_leading = refl

hash_of_block : util_djb_hash_block (codes "ab") ≡ 5863208
unfolding util_djb_hash_block
hash_of_block = refl

abbrev two_paths : List Bytes
two_paths = codes "/b,c" ∷ codes "/d" ∷ []

util_split-joined_example :
    util_split (some (escape comma (codes "/a") ++ joined_rest comma 44 two_paths)) (some comma)
    ≡ argv (codes "/a" ∷ two_paths)
unfolding AllStart has
util_split-joined_example =
    util_split-joined comma 44 (codes "/a") two_paths refl (47, codes "a", refl, refl)
      ((47, codes "b,c", refl, refl), ((47, codes "d", refl, refl), tt))

util_split-inside_example :
    (count_from comma (codes ",a") ≤ count_from comma (skip_leading comma (codes ",a"))
      → (args : List Bytes) × (util_split (some (codes ",a")) (some comma) ≡ argv args)
        × (length args ≡ suc (count_from comma (codes ",a"))))
    × (count_from comma (skip_leading comma (codes ",a")) < count_from comma (codes ",a")
        → util_split (some (codes ",a")) (some comma) ≡ overrun)
util_split-inside_example = util_split-inside (codes ",a") comma
