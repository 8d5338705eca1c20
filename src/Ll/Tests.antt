-- ===== src/Ll/Tests.antt =====
-- The model of src/ll.c at concrete inputs.
use fireflymediaserver.Prelude.{
  ◌≡◌, ◌⊎◌, refl, false, some, none, if◌then◌else◌, [], ◌∷◌, ◌++◌, codes,
}
use fireflymediaserver.Ll.{
  Ll, ll_create, as_int, success, nokey, ll_add_item, ll_del_item, ll_fetch_item, same_key,
  has_flag, flag_headinsert,
}
use fireflymediaserver.Ll.Invariant.{Reachable, created, stepped, add, TailOk, Reachable-TailOk}
use fireflymediaserver.Ll.Content.{or_else, Deleted, ll_add_item_lem, ll_del_item_lem}

abbrev one_item : Ll
one_item = (ll_add_item ll_create (some (codes "port")) (some (as_int 3689))).1

one_item-Reachable : Reachable one_item
one_item-Reachable = stepped created (add (some (codes "port")) (some (as_int 3689)) refl)

no_speed : ll_fetch_item one_item (codes "speed") ≡ none
unfolding ll_add_item
no_speed = refl

ignores_case :
    ll_fetch_item one_item (codes "PORT")
    ≡ some (record { key = codes "port"; value = as_int 3689 })
unfolding ll_add_item
ignores_case = refl

one_item_tail : has_flag one_item.flags flag_headinsert ≡ false
unfolding ll_add_item
one_item_tail = refl

other_keys : same_key 0 (codes "a") (codes "b") ≡ false
unfolding same_key
other_keys = refl

Reachable-TailOk_example : TailOk one_item
Reachable-TailOk_example = Reachable-TailOk one_item one_item-Reachable

ll_add_item_example :
    ((ll_add_item one_item (some (codes "speed")) (some (as_int 7))).0 ≡ success)
    × ((ll_add_item one_item (some (codes "speed")) (some (as_int 7))).1.items
        ≡ one_item.items ++ (record { key = codes "speed"; value = as_int 7 } ∷ []))
    × (ll_fetch_item
          (ll_add_item one_item (some (codes "speed")) (some (as_int 7))).1
          (codes "Speed")
        ≡ or_else (ll_fetch_item one_item (codes "Speed")) (
            if same_key one_item.flags (codes "speed") (codes "Speed")
            then some (record { key = codes "speed"; value = as_int 7 })
            else none))
ll_add_item_example =
    ll_add_item_lem one_item (codes "speed") (codes "Speed") (as_int 7) one_item-Reachable
      one_item_tail no_speed

ll_del_item_example :
    ((ll_del_item one_item (codes "Port") ≡ (nokey, one_item))
      × (ll_fetch_item one_item (codes "Port") ≡ none))
    ⊎ (((ll_del_item one_item (codes "Port")).0 ≡ success)
        × Deleted one_item.flags
            (codes "Port")
            one_item.items
            (ll_del_item one_item (codes "Port")).1.items)
ll_del_item_example = ll_del_item_lem one_item (codes "Port")
