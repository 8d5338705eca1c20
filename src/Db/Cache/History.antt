-- ===== src/Db/Cache/History.antt =====
-- Runs of fetches and releases on the song cache of src/db.c.
use fireflymediaserver.Prelude.{
  ℕ, ◌≡◌, ◌≤◌, sym, subst, List, [], ◌∷◌, ◌++◌, Option, ◌==◌, arith, if_cases, inl, inr,
}
use fireflymediaserver.Prelude.Int.{pos, ◌-ℤ◌}
use fireflymediaserver.Db.Cache.{cache_list, Cache, db_cache_find, db_cache_fetch, db_dispose_item}
use fireflymediaserver.Db.Cache.Chain.{Links, Apart, Distinct, IsChain}
use fireflymediaserver.Db.Cache.Fetch.{
  Sound, FreshFor, Fetched, db_cache_fetch_lem, recount-IsChain,
}

-- A fetch, with fuel for the entries and a new address for a song that is loaded; a release.
pub data Step : Cache → Cache → Type 0 where
  fetch :
      {c : Cache} (fuel id : ℕ) (loaded : Option ℕ)
      → ((xs : List ℕ) → IsChain c xs → FreshFor loaded xs)
      → c.current_length ≤ fuel
      → Step c (db_cache_fetch fuel id loaded c).1
  dispose : {c : Cache} (fuel id : ℕ) → Step c (db_dispose_item fuel id c)

-- Caches that runs make of an empty one.
pub data Reachable : Cache → Type 0 where
  empty : {c : Cache} → c.next cache_list ≡ 0 → c.tail ≡ 0 → c.current_length ≡ 0 → Reachable c
  stepped : {c c' : Cache} → Reachable c → Step c c' → Reachable c'

Fetched-Sound :
    (id : ℕ) (loaded : Option ℕ) (xs : List ℕ) (c : Cache) (r : ℕ × Cache)
    → Sound c
    → Fetched id loaded xs c r
    → Sound r.1
Fetched-Sound id loaded xs c (r, c') s (inl (ys, zs, e, i, l, k, n)) = (r ∷ ys ++ zs, k, n)
Fetched-Sound id loaded xs c (r, c') s (inr (inl (l, e, v))) = (r ∷ v.kept, v.chain, v.counted)
Fetched-Sound id loaded xs c (r, c') s (inr (inr (l, e, z, same))) = subst Sound (sym same) s

dispose-Sound : (fuel id : ℕ) (c : Cache) → Sound c → Sound (db_dispose_item fuel id c)
unfolding db_dispose_item
dispose-Sound fuel id c (xs, k, n) =
    if_cases Sound (db_cache_find fuel id c == 0) (λ e. (xs, k, n))
      (λ e. (xs, recount-IsChain (db_cache_find fuel id c) (λ m. m -ℤ pos 1) c xs k, n))

Step-Sound : (c c' : Cache) → Step c c' → Sound c → Sound c'
Step-Sound c _ (fetch fuel id loaded fresh enough) (xs, k, n) =
    Fetched-Sound id loaded xs c (db_cache_fetch fuel id loaded c) (xs, k, n)
      (db_cache_fetch_lem fuel id loaded c xs k n (fresh xs k) (omega arith))
Step-Sound c _ (dispose fuel id) s = dispose-Sound fuel id c s

empty-Sound : (c : Cache) → c.next cache_list ≡ 0 → c.tail ≡ 0 → c.current_length ≡ 0 → Sound c
unfolding Links Distinct Apart
empty-Sound c n t l =
    ([], record { links = n; distinct = (((λ e. omega arith), tt), (tt, tt)); tail = t }, l)

-- After any run of fetches and releases from an empty cache, where each entry that is made has an
-- address that no entry of the chain has, the cache holds a chain: the links of its entries agree both
-- ways, no entry stands in it twice, `tail` points to the last one, and `current_length` is its length.
pub Reachable-Sound : (c : Cache) → Reachable c → Sound c
Reachable-Sound c (empty n t l) = empty-Sound c n t l
Reachable-Sound c (stepped {c = b} r s) = Step-Sound b c s (Reachable-Sound b r)
