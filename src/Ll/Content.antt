-- ===== src/Ll/Content.antt =====
-- What additions to and deletions from a list of src/ll.c do to the items that are found.
use fireflymediaserver.Prelude.{
  ℕ, suc, ◌≡◌, ◌⊎◌, inl, inr, refl, ap, Bool, true, false, List, [], ◌∷◌, ◌++◌, Option, none, some,
  Bytes, if◌then◌else◌, Bool-cases, ◌&&◌,
}
use fireflymediaserver.Ll.{
  success, nokey, Value, Item, Ll, null, insert_tail, has_flag, flag_headinsert, flag_nodups,
  ll_create, ll_set_flags, same_key, fetch_from, ll_fetch_item, find_place, remove_place, delete_at,
  ll_del_item, ll_add_item, insert_item,
}
use fireflymediaserver.Ll.Invariant.{insert_item_lem, Reachable, Reachable-TailOk}

-- The first place that holds something.
abbrev pub or_else : Option Item → Option Item → Option Item
or_else none later = later
or_else (some x) later = some x

pub fetch_from-append :
    (flags : ℕ) (key : Bytes) (xs : List Item) (x : Item)
    → fetch_from flags key (xs ++ (x ∷ []))
      ≡ or_else (fetch_from flags key xs) (if same_key flags x.key key then some x else none)
unfolding fetch_from
fetch_from-append flags key [] x = refl
fetch_from-append flags key (y ∷ xs) x = elim (Bool-cases (same_key flags y.key key)) [
  | inl here ↦ rw here refl
  | inr more ↦ rw (more, fetch_from-append flags key xs x) refl
]

and_false : (b : Bool) → (b && false) ≡ false
and_false true = refl
and_false false = refl

pub add_absent :
    (pl : Ll) (key : Bytes) (v : Value)
    → ll_fetch_item pl key ≡ none
    → ll_add_item pl (some key) (some v)
      ≡ (success, insert_item (record { key = key; value = v }) pl)
unfolding ll_add_item
add_absent pl key v absent = rw (absent, and_false (has_flag pl.flags flag_nodups)) refl

-- An item added to a list that has none by its key, after any run of calls that adds at the tail: the
-- addition succeeds, the new item stands behind the others, which keep their order, and a later fetch
-- by any key finds what it found before, or else the new item where the keys agree.
pub ll_add_item_lem :
    (pl : Ll) (key other : Bytes) (v : Value)
    → Reachable pl
    → has_flag pl.flags flag_headinsert ≡ false
    → ll_fetch_item pl key ≡ none
    → ((ll_add_item pl (some key) (some v)).0 ≡ success)
      × ((ll_add_item pl (some key) (some v)).1.items
          ≡ pl.items ++ (record { key = key; value = v } ∷ []))
      × (ll_fetch_item (ll_add_item pl (some key) (some v)).1 other
          ≡ or_else (ll_fetch_item pl other) (
              if same_key pl.flags key other then some (record { key = key; value = v }) else none))
unfolding ll_fetch_item
ll_add_item_lem pl key other v r f absent =
    let x : Item = record { key = key; value = v } in
    let e : ll_add_item pl (some key) (some v) ≡ (success, insert_item x pl) =
      add_absent pl key v absent in
    rw e (
      rw (insert_item_lem x pl f (Reachable-TailOk pl r))
        (refl, refl, fetch_from-append pl.flags other pl.items x))

-- `left` is `items` without the first item that agrees with the key.
abbrev pub Deleted : ℕ → Bytes → List Item → List Item → Type 0
Deleted flags key items left =
    (before : List Item) × (x : Item) × (after : List Item) × (items ≡ before ++ (x ∷ after))
    × (same_key flags x.key key ≡ true)
    × (fetch_from flags key before ≡ none)
    × (left ≡ before ++ after)

Deleted-later :
    (flags : ℕ) (key : Bytes) (y : Item) (items left : List Item)
    → same_key flags y.key key ≡ false
    → Deleted flags key items left
    → Deleted flags key (y ∷ items) (y ∷ left)
unfolding fetch_from
Deleted-later flags key y items left more (before, x, after, e, here, none_before, l) =
    (y ∷ before, x, after, ap (◌∷◌ y) e, here, rw (more, none_before) refl, ap (◌∷◌ y) l)

find_place-cases :
    (flags : ℕ) (key : Bytes) (items : List Item)
    → ((find_place flags key items ≡ none) × (fetch_from flags key items ≡ none))
      ⊎ ((k : ℕ) × (find_place flags key items ≡ some k)
          × Deleted flags key items (remove_place k items))
unfolding find_place fetch_from remove_place
find_place-cases flags key [] = inl (refl, refl)
find_place-cases flags key (x ∷ items) = elim (Bool-cases (same_key flags x.key key)) [
  | inl here ↦ inr (0, rw here refl, ([], x, items, refl, here, refl, refl))
  | inr more ↦ elim (find_place-cases flags key items) [
    | inl (p, q) ↦ inl (rw (more, p) refl, rw (more, q) refl)
    | inr (k, p, d) ↦ inr (suc k, rw (more, p) refl, Deleted-later flags key x items _ more d)
  ]
]

-- A deletion either finds no item by the key, and then returns LL_E_NOKEY and changes nothing, or
-- takes out the first item by the key, and only that one, and returns LL_E_SUCCESS.
pub ll_del_item_lem :
    (pl : Ll) (key : Bytes)
    → ((ll_del_item pl key ≡ (nokey, pl)) × (ll_fetch_item pl key ≡ none))
      ⊎ (((ll_del_item pl key).0 ≡ success)
          × Deleted pl.flags key pl.items (ll_del_item pl key).1.items)
unfolding ll_del_item delete_at ll_fetch_item
ll_del_item_lem pl key = elim (find_place-cases pl.flags key pl.items) [
  | inl (p, q) ↦ inl (rw p refl, q)
  | inr (k, p, d) ↦ inr (rw p refl, rw p d)
]

add_at_head :
    (flags : ℕ) (key : Bytes) (v : Value)
    → has_flag flags flag_headinsert ≡ true
    → (ll_add_item (ll_set_flags flags ll_create) (some key) (some v)).1
      ≡ record { flags = flags; tailptr = null; items = record { key = key; value = v } ∷ [] }
unfolding ll_add_item ll_set_flags ll_fetch_item fetch_from insert_item
add_at_head flags key v head = rw (and_false (has_flag flags flag_nodups), head) refl

-- An item put at the head of a new list leaves `tailptr` NULL: an item that is then added at the tail,
-- under other flags and a key that is not there, replaces it instead of standing behind it.
pub ll_add_item-replaces :
    (flags flags' : ℕ) (key key' : Bytes) (v v' : Value)
    → has_flag flags flag_headinsert ≡ true
    → has_flag flags' flag_headinsert ≡ false
    → same_key flags' key key' ≡ false
    → (ll_add_item
        (ll_set_flags flags' (ll_add_item (ll_set_flags flags ll_create) (some key) (some v)).1)
        (some key')
        (some v')).1.items
      ≡ record { key = key'; value = v' } ∷ []
unfolding ll_add_item ll_set_flags ll_fetch_item fetch_from insert_item insert_tail
ll_add_item-replaces flags flags' key key' v v' head tail other =
    rw (add_at_head flags key v head)
      (rw (other, and_false (has_flag flags' flag_nodups), tail) refl)
