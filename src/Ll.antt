-- ===== src/Ll.antt =====
-- The keyed lists of src/ll.c: LL, LL_ITEM and the functions that read and change one list.
pub mod Invariant
pub mod Content
mod Tests
use fireflymediaserver.Prelude.{
  ℕ, zero, suc, ◌+◌, ◌-◌, Bool, true, false, ◌&&◌, ◌||◌, not, List, [], ◌∷◌, ◌++◌, Option, none,
  some, ltb, ◌==◌, if◌then◌else◌, Bytes, bit_and, drop,
}
use fireflymediaserver.CString.{eq_nocase}

-- LL_E_SUCCESS to LL_E_BADPARAM.
pub data LlError : Type 0 where
  success malloc nokey dup badparam : LlError

abbrev pub flag_honorcase : ℕ
flag_honorcase = 1

abbrev pub flag_headinsert : ℕ
flag_headinsert = 2

abbrev pub flag_nodups : ℕ
flag_nodups = 4

abbrev pub flag_inherit : ℕ
flag_inherit = 8

abbrev pub has_flag : ℕ → ℕ → Bool
has_flag flags flag = not (bit_and flags flag == 0)

-- The union `value`, by `type`. A list is named by its address.
pub data Value : Type 0 where
  as_int as_ll : ℕ → Value
  as_string : Bytes → Value

pub record Item : Type 0 where
  pub key : Bytes
  pub value : Value

-- `tailptr`: NULL, the list's own head `itemlist`, or the item at a place.
pub data Tail : Type 0 where
  null itemlist : Tail
  item_at : ℕ → Tail

-- LL, with the chain of its items from `itemlist.next` on.
pub record Ll : Type 0 where
  pub flags : ℕ
  pub tailptr : Tail
  pub items : List Item

-- "set default flags".
abbrev pub ll_create : Ll
ll_create = record { flags = 12; tailptr = null; items = [] }

-- `strcmp(a, b) == 0`.
unfoldable pub eq_bytes : Bytes → Bytes → Bool
eq_bytes [] [] = true
eq_bytes (c ∷ s) (d ∷ t) = c == d && eq_bytes s t
eq_bytes s t = false

abbrev pub same_key : ℕ → Bytes → Bytes → Bool
unfolding eq_bytes eq_nocase
same_key flags a b = if has_flag flags flag_honorcase then eq_bytes a b else eq_nocase a b

-- The loop of `ll_fetch_item`.
unfoldable pub fetch_from : ℕ → Bytes → List Item → Option Item
unfolding same_key
fetch_from flags key [] = none
fetch_from flags key (x ∷ items) =
    let later = fetch_from flags key items in if same_key flags x.key key then some x else later

unfoldable pub ll_fetch_item : Ll → Bytes → Option Item
unfolding fetch_from
ll_fetch_item pl key = fetch_from pl.flags key pl.items

abbrev pub is_found : Option Item → Bool
is_found none = false
is_found (some x) = true

-- The items up to the place `k`, that one included.
unfoldable pub upto_place : ℕ → List Item → List Item
upto_place k [] = []
upto_place zero (x ∷ items) = x ∷ []
upto_place (suc k) (x ∷ items) = x ∷ upto_place k items

-- "pli->next = NULL", behind the item that `tailptr` points to, or at the list's head.
unfoldable pub insert_tail : Item → Tail → List Item → List Item × Tail
unfolding upto_place
insert_tail x (item_at k) items = (upto_place k items ++ (x ∷ []), item_at (suc k))
insert_tail x tail items = (x ∷ [], item_at 0)

-- An item behind the head moves every place.
abbrev pub shift : Tail → Tail
shift null = null
shift itemlist = itemlist
shift (item_at k) = item_at (suc k)

unfoldable pub insert_item : Item → Ll → Ll
unfolding insert_tail
insert_item x pl =
    if has_flag pl.flags flag_headinsert
    then record pl { items = x ∷ pl.items; tailptr = shift pl.tailptr }
    else (let (items, tail) = insert_tail x pl.tailptr pl.items in
        record pl { items = items; tailptr = tail })

-- `_ll_add_item`. A string that is NULL is no value.
unfoldable pub ll_add_item : Ll → Option Bytes → Option Value → LlError × Ll
unfolding insert_item ll_fetch_item
ll_add_item pl none value = (badparam, pl)
ll_add_item pl (some key) none =
    if has_flag pl.flags flag_nodups && is_found (ll_fetch_item pl key)
    then (dup, pl)
    else (badparam, pl)
ll_add_item pl (some key) (some v) =
    if has_flag pl.flags flag_nodups && is_found (ll_fetch_item pl key)
    then (dup, pl)
    else (success, insert_item (record { key = key; value = v }) pl)

abbrev pub string_value : Option Bytes → Option Value
string_value none = none
string_value (some s) = some (as_string s)

unfoldable pub ll_add_string : Ll → Option Bytes → Option Bytes → LlError × Ll
unfolding ll_add_item
ll_add_string pl key cval = ll_add_item pl key (string_value cval)

unfoldable pub ll_add_int : Ll → Option Bytes → ℕ → LlError × Ll
unfolding ll_add_item
ll_add_int pl key ival = ll_add_item pl key (some (as_int ival))

-- The flags of a list that was added to another.
abbrev pub inherit : LlError → Ll → Ll → Ll
inherit success pl pnew =
    if has_flag pl.flags flag_inherit then record pnew { flags = pl.flags } else pnew
inherit error pl pnew = pnew

-- The list `pnew` at `address`: the result, and both lists after it.
unfoldable pub ll_add_ll : Ll → Option Bytes → ℕ → Ll → LlError × Ll × Ll
unfolding ll_add_item
ll_add_ll pl key address pnew =
    let (error, pl') = ll_add_item pl key (some (as_ll address)) in
    (error, pl', inherit error pl' pnew)

-- The place of the first item with the key.
unfoldable pub find_place : ℕ → Bytes → List Item → Option ℕ
unfolding same_key
find_place flags key [] = none
find_place flags key (x ∷ items) =
    let later = find_place flags key items in
    if same_key flags x.key key then some 0 else elim later [ none ↦ none | some k ↦ some (suc k) ]

-- "ptail->next = phead->next".
unfoldable pub remove_place : ℕ → List Item → List Item
remove_place k [] = []
remove_place zero (x ∷ items) = items
remove_place (suc k) (x ∷ items) = x ∷ remove_place k items

-- The item in front of a place, or the list's head.
abbrev pub before_place : ℕ → Tail
before_place zero = itemlist
before_place (suc k) = item_at k

-- `tailptr` when the item at the place `k` goes.
abbrev pub without_place : ℕ → Tail → Tail
without_place k (item_at t) =
    if t == k then before_place k else if ltb k t then item_at (t - 1) else item_at t
without_place k tail = tail

unfoldable pub delete_at : Option ℕ → Ll → LlError × Ll
unfolding remove_place
delete_at none pl = (nokey, pl)
delete_at (some k) pl =
    (success, record pl { items = remove_place k pl.items; tailptr = without_place k pl.tailptr })

unfoldable pub ll_del_item : Ll → Bytes → LlError × Ll
unfolding find_place delete_at
ll_del_item pl key = delete_at (find_place pl.flags key pl.items) pl

-- `_ll_update_item` on the item at a place.
unfoldable pub update_place : ℕ → Value → List Item → List Item
update_place k v [] = []
update_place zero v (x ∷ items) = record x { value = v } ∷ items
update_place (suc k) v (x ∷ items) = x ∷ update_place k v items

unfoldable pub ll_update_item : ℕ → Value → Ll → Ll
unfolding update_place
ll_update_item k v pl = record pl { items = update_place k v pl.items }

unfoldable pub ll_set_flags : ℕ → Ll → Ll
ll_set_flags flags pl = record pl { flags = flags }

unfoldable pub ll_get_flags : Ll → ℕ
ll_get_flags pl = pl.flags

-- The item behind the one at a place, or the first one.
unfoldable pub ll_get_next : Ll → Option ℕ → List Item
ll_get_next pl none = pl.items
ll_get_next pl (some k) = drop (suc k) pl.items
