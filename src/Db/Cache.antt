-- ===== src/Db/Cache.antt =====
-- The song cache of src/db.c: a chain of entries with links both ways from the head `cache_list`, and
-- the pointer `tail`. NULL is 0.
pub mod Chain
pub mod Evict
pub mod Fetch
pub mod History
pub mod Calls
pub mod Insert
pub mod Promote
use fireflymediaserver.Prelude.{
  ℕ, zero, suc, ◌+◌, ◌-◌, Bool, true, false, not, ◌&&◌, List, [], ◌∷◌, Option, none, some, leb,
  ◌==◌, if◌then◌else◌, Option, none, some,
}
use fireflymediaserver.Prelude.Int.{ℤ, pos, is_zero, ◌+ℤ◌, ◌-ℤ◌}

-- The address of `db_cache_list.cache_list`.
abbrev pub cache_list : ℕ
cache_list = 1

-- The members of the entries by their addresses; `id` is `pmn->id`. The lengths are those of
-- DB_CACHE_LIST, below 2 ^ 31 - 1.
pub record Cache : Type 0 where
  pub max_length : ℕ
  pub current_length : ℕ
  pub tail : ℕ
  pub next : ℕ → ℕ
  pub prev : ℕ → ℕ
  pub id : ℕ → ℕ
  pub refcount : ℕ → ℤ

unfoldable pub assign : {A : Type 0} → ℕ → A → (ℕ → A) → ℕ → A
assign a v f b = if b == a then v else f b

-- The walk of `db_cache_find` from an entry, with `fuel` for the length of the chain.
unfoldable pub find_from : ℕ → ℕ → ℕ → Cache → ℕ
find_from zero id pentry c = 0
find_from (suc fuel) id pentry c =
    let later = find_from fuel id (c.next pentry) c in
    if pentry == 0 then 0 else if id == c.id pentry then pentry else later

-- "maybe delete last", with `fuel` for the length of the chain.
unfoldable pub evict : ℕ → Cache → Cache
unfolding assign
evict zero c = c
evict (suc fuel) c =
    let last = c.prev c.tail in
    let rest = evict fuel (record c {
      tail = last;
      next = assign last 0 c.next;
      current_length = c.current_length - 1;
    }) in
    if leb c.max_length c.current_length && is_zero (c.refcount c.tail) then rest else c

-- The new entry at the head, at the address that malloc gives.
unfoldable pub link_first : ℕ → ℕ → Cache → Cache
unfolding assign
link_first pentry id c =
    let first = c.next cache_list in
    record c {
      id = assign pentry id c.id;
      refcount = assign pentry (pos 1) c.refcount;
      next = assign cache_list pentry (assign pentry first c.next);
      prev =
          if first == 0
          then assign pentry cache_list c.prev
          else assign first pentry (assign pentry cache_list c.prev);
      tail = if first == 0 then pentry else c.tail;
    }

-- `fuel` is for the loop that deletes.
unfoldable pub db_cache_insert : ℕ → ℕ → ℕ → Cache → Cache
unfolding link_first evict
db_cache_insert fuel pentry id c =
    let c' = evict fuel (link_first pentry id c) in
    record c' { current_length = c'.current_length + 1 }

-- The entry taken out of the chain.
unfoldable pub unlink : ℕ → Cache → Cache
unfolding assign
unlink pentry c =
    let after = c.next pentry in
    let prev = if after == 0 then c.prev else assign after (c.prev pentry) c.prev in
    record c {
      tail = if pentry == c.tail then c.prev pentry else c.tail;
      prev = prev;
      next = assign (prev pentry) after c.next;
    }

-- The entry put in front of the chain.
unfoldable pub relink : ℕ → Cache → Cache
unfolding assign
relink pentry c =
    let first = c.next cache_list in
    let prev = assign pentry cache_list c.prev in
    record c {
      prev = if first == 0 then prev else assign first pentry prev;
      next = assign cache_list pentry (assign pentry first c.next);
    }

unfoldable pub db_cache_promote : ℕ → Cache → Cache
unfolding unlink relink
db_cache_promote pentry c =
    if pentry == c.next cache_list then c else relink pentry (unlink pentry c)

unfoldable pub db_cache_find : ℕ → ℕ → Cache → ℕ
unfolding find_from
db_cache_find fuel id c = find_from fuel id (c.next cache_list) c

-- The reference count of an entry, changed.
abbrev pub recount : ℕ → (ℤ → ℤ) → Cache → Cache
recount pentry f c = record c {
  refcount = λ b. if b == pentry then f (c.refcount pentry) else c.refcount b;
}

-- The entry of the song that is returned, and NULL where there is none. `loaded` is the address of the
-- entry that is made where the plugin has the song. The counts of fetches are left out.
unfoldable pub db_cache_fetch : ℕ → ℕ → Option ℕ → Cache → ℕ × Cache
db_cache_fetch fuel id loaded c =
    let pentry = db_cache_find fuel id c in
    if pentry == 0
    then elim loaded [ none ↦ (0, c) | some a ↦ (a, db_cache_insert fuel a id c) ]
    else (pentry, recount pentry (λ n. n +ℤ pos 1) (db_cache_promote pentry c))

unfoldable pub db_dispose_item : ℕ → ℕ → Cache → Cache
db_dispose_item fuel id c =
    let pentry = db_cache_find fuel id c in
    if pentry == 0 then c else recount pentry (λ n. n -ℤ pos 1) c
