-- ===== src/Db/Tests.antt =====
-- Runs of the clean-up of strings of src/db.c.
use fireflymediaserver.Prelude.{◌≡◌, refl, Bool, true, false, [], ◌∷◌, some, Bytes, codes}
use fireflymediaserver.Db.{db_utf8_validate_string, db_trim_string}
use fireflymediaserver.Prelude.{ℕ, ◌==◌, if◌then◌else◌, ◌+◌, arith}
use fireflymediaserver.Prelude.Int.{pos}
use fireflymediaserver.Db.Cache.{Cache, cache_list, find_from, db_cache_insert, db_cache_promote}
use fireflymediaserver.Db.Cache.{db_cache_fetch, db_cache_find, db_dispose_item}
use fireflymediaserver.Db.Cache.Fetch.{Fetched, Sound, db_cache_fetch_lem}
use fireflymediaserver.Db.Cache.History.{empty, stepped, fetch, dispose, Reachable-Sound}
use fireflymediaserver.Prelude.{none, some}
use fireflymediaserver.Db.Cache.Chain.{IsChain, Links, Apart, Distinct}
use fireflymediaserver.Db.Cache.Calls.{Inserted, db_cache_insert_lem}
use fireflymediaserver.Db.Cache.Promote.{db_cache_promote_lem}
use fireflymediaserver.Db.Clean.{AllOctets, Cleaned, db_utf8_validate_string_lem}

-- "Björk" in UTF-8, and in Latin-1.
abbrev utf8_name : Bytes
utf8_name = 66 ∷ 106 ∷ 195 ∷ 182 ∷ 114 ∷ 107 ∷ []

abbrev latin1_name : Bytes
latin1_name = 66 ∷ 106 ∷ 246 ∷ 114 ∷ 107 ∷ []

utf8_kept : db_utf8_validate_string (some utf8_name) ≡ (some utf8_name, false)
unfolding db_utf8_validate_string
utf8_kept = refl

latin1_replaced : db_utf8_validate_string (some latin1_name) ≡ (some (codes "Bj?rk"), true)
unfolding db_utf8_validate_string
latin1_replaced = refl

spaces_trimmed : db_trim_string (some (codes " a b  ")) ≡ some (codes " a b")
unfolding db_trim_string
spaces_trimmed = refl

latin1_name-AllOctets : AllOctets latin1_name
latin1_name-AllOctets =
    (omega arith, (omega arith, (omega arith, (omega arith, (omega arith, tt)))))

db_utf8_validate_string_example :
    (t : Bytes) × (changed : Bool) × (db_utf8_validate_string (some latin1_name)
      ≡ (some t, changed))
    × Cleaned 0 latin1_name (t, changed)
db_utf8_validate_string_example = db_utf8_validate_string_lem latin1_name latin1_name-AllOctets

-- Two entries at the addresses 3 and 2, the one at 2 last and not in use.
abbrev two_entries : Cache
two_entries = record {
  max_length = 2;
  current_length = 2;
  tail = 2;
  next = λ p. if p == 1 then 3 else if p == 3 then 2 else 0;
  prev = λ p. if p == 3 then 1 else if p == 2 then 3 else 0;
  id = λ p. p + 10;
  refcount = λ p. if p == 2 then pos 0 else pos 1;
}

ones : (a b : ℕ) → (a == b) ≡ false → a ≡ b → ⊥
ones a b h = ground arith

two_entries-IsChain : IsChain two_entries (3 ∷ 2 ∷ [])
unfolding Links Distinct
two_entries-IsChain = record {
  links = (refl, refl, (refl, refl, refl));
  distinct = (
    (ones 0 1 refl, (ones 0 3 refl, (ones 0 2 refl, tt))),
    ((ones 1 3 refl, (ones 1 2 refl, tt)), ((ones 3 2 refl, tt), (tt, tt))),
  );
  tail = refl;
}

db_cache_promote_example : IsChain (db_cache_promote 2 two_entries) (2 ∷ 3 ∷ [])
db_cache_promote_example = db_cache_promote_lem two_entries 2 (3 ∷ []) [] two_entries-IsChain

db_cache_insert_example : Inserted 4 (3 ∷ 2 ∷ []) two_entries (db_cache_insert 2 4 20 two_entries)
unfolding Apart
db_cache_insert_example =
    db_cache_insert_lem 2 4 20 two_entries (3 ∷ 2 ∷ []) two_entries-IsChain refl
      (ones 4 0 refl, (ones 4 1 refl, (ones 4 3 refl, (ones 4 2 refl, tt)))) (omega arith)

evicted : (db_cache_insert 2 4 20 two_entries).tail ≡ 3
unfolding db_cache_insert
evicted = refl

found : find_from 2 12 (two_entries.next cache_list) two_entries ≡ 2
unfolding find_from
found = refl

fetch_hit_found : (db_cache_fetch 2 12 none two_entries).0 ≡ 2
unfolding db_cache_fetch db_cache_find
fetch_hit_found = refl

db_cache_fetch_example :
    Fetched 20 (some 4) (3 ∷ 2 ∷ []) two_entries (db_cache_fetch 2 20 (some 4) two_entries)
unfolding Apart
db_cache_fetch_example =
    db_cache_fetch_lem 2 20 (some 4) two_entries (3 ∷ 2 ∷ []) two_entries-IsChain refl
      (ones 4 0 refl, (ones 4 1 refl, (ones 4 3 refl, (ones 4 2 refl, tt)))) (omega arith)

abbrev no_entries : Cache
no_entries = record {
  max_length = 32;
  current_length = 0;
  tail = 0;
  next = λ p. 0;
  prev = λ p. 0;
  id = λ p. 0;
  refcount = λ p. pos 0;
}

abbrev released : Cache
released = db_dispose_item 1 7 (db_cache_fetch 1 7 none no_entries).1

Reachable-Sound_example : Sound released
Reachable-Sound_example = Reachable-Sound released (
    stepped (stepped (empty refl refl refl) (fetch 1 7 none (λ xs k. tt) (omega arith)))
      (dispose 1 7))
