-- ===== src/Ll/Invariant.antt =====
-- The tail pointer of a list of src/ll.c, over the runs of its operations.
use fireflymediaserver.Prelude.{
  ℕ, zero, suc, ◌+◌, ◌-◌, ◌≤◌, ◌<◌, ◌≡◌, refl, sym, ap, true, false, List, [], ◌∷◌, ◌++◌, Option,
  none, some, arith, length, subst, ltb, ◌==◌, inl, inr, Bool-cases, Option-cases, length-append,
  Bytes, if_cases, ◌&&◌,
}
use fireflymediaserver.Ll.{
  LlError, Value, Item, Tail, null, itemlist, item_at, Ll, ll_create, has_flag, flag_headinsert,
  flag_nodups, upto_place, insert_tail, insert_item, ll_add_item, find_place, remove_place,
  before_place, without_place, delete_at, ll_del_item, update_place, ll_update_item, ll_set_flags,
  is_found, ll_fetch_item, same_key,
}

-- `tailptr` points to the last item, and to none where there is no item.
abbrev pub PointsLast : Tail → ℕ → Type 0
PointsLast (item_at k) n = suc k ≡ n
PointsLast tail n = n ≡ 0

abbrev pub TailOk : Ll → Type 0
TailOk pl = PointsLast pl.tailptr (length pl.items)

-- The calls on a list, where no item is added while LL_FLAG_HEADINSERT is set.
pub data Step : Ll → Ll → Type 0 where
  add :
      {pl : Ll} (key : Option Bytes) (value : Option Value)
      → has_flag pl.flags flag_headinsert ≡ false
      → Step pl (ll_add_item pl key value).1
  delete : {pl : Ll} (key : Bytes) → Step pl (ll_del_item pl key).1
  update : {pl : Ll} (k : ℕ) (value : Value) → Step pl (ll_update_item k value pl)
  set_flags : {pl : Ll} (flags : ℕ) → Step pl (ll_set_flags flags pl)

pub data Reachable : Ll → Type 0 where
  created : Reachable ll_create
  stepped : {pl pl' : Ll} → Reachable pl → Step pl pl' → Reachable pl'

upto_place_all : (k : ℕ) (items : List Item) → suc k ≡ length items → upto_place k items ≡ items
unfolding upto_place
upto_place_all k [] h = refl
upto_place_all zero (x ∷ []) h = refl
upto_place_all zero (x ∷ y ∷ items) h = absurd (omega arith)
upto_place_all (suc k) (x ∷ items) h = ap (◌∷◌ x) (upto_place_all k items (omega arith))

nil_of_length : (items : List Item) → length items ≡ 0 → items ≡ []
nil_of_length [] h = refl
nil_of_length (x ∷ items) h = absurd (omega arith)

-- At the tail the items keep their order, with the new one behind them.
pub insert_tail_lem :
    (x : Item) (t : Tail) (items : List Item)
    → PointsLast t (length items)
    → insert_tail x t items ≡ (items ++ (x ∷ []), item_at (length items))
unfolding insert_tail
insert_tail_lem x null items h = rw (nil_of_length items h) refl
insert_tail_lem x itemlist items h = rw (nil_of_length items h) refl
insert_tail_lem x (item_at k) items h =
    rw (upto_place_all k items h) (ap (λ n. (items ++ (x ∷ []), item_at n)) h)

pub insert_item_lem :
    (x : Item) (pl : Ll)
    → has_flag pl.flags flag_headinsert ≡ false
    → TailOk pl
    → insert_item x pl
      ≡ record pl { items = pl.items ++ (x ∷ []); tailptr = item_at (length pl.items) }
unfolding insert_item
insert_item_lem x pl f h = rw f (rw (insert_tail_lem x pl.tailptr pl.items h) refl)

insert_item-TailOk :
    (x : Item) (pl : Ll)
    → has_flag pl.flags flag_headinsert ≡ false
    → TailOk pl
    → TailOk (insert_item x pl)
insert_item-TailOk x pl f h =
    rw (insert_item_lem x pl f h) (omega (arith, length-append pl.items (x ∷ [])))

add-TailOk :
    (pl : Ll) (key : Option Bytes) (value : Option Value)
    → has_flag pl.flags flag_headinsert ≡ false
    → TailOk pl
    → TailOk (ll_add_item pl key value).1
unfolding ll_add_item
add-TailOk pl none value f h = h
add-TailOk pl (some key) none f h =
    if_cases (λ (r : LlError × Ll). TailOk r.1)
      (has_flag pl.flags flag_nodups && is_found (ll_fetch_item pl key)) (λ e. h) (λ e. h)
add-TailOk pl (some key) (some v) f h =
    if_cases (λ (r : LlError × Ll). TailOk r.1)
      (has_flag pl.flags flag_nodups && is_found (ll_fetch_item pl key)) (λ e. h)
      (λ e. insert_item-TailOk _ pl f h)

some_eq : (a b : ℕ) → some a ≡ some b → a ≡ b
some_eq a b h = cc

none_ne : (k : ℕ) → none ≡ some k → ⊥
none_ne k h = cc

-- An item that is found stands inside the list.
find_place-le :
    (flags : ℕ) (key : Bytes) (items : List Item) (k : ℕ)
    → find_place flags key items ≡ some k
    → k < length items
unfolding find_place
find_place-le flags key [] k h = cc
find_place-le flags key (x ∷ items) k h = elim (Bool-cases (same_key flags x.key key)) [
  | inl here ↦ let first : some 0 ≡ some k = rw here at h in omega (arith, some_eq 0 k first)
  | inr more ↦ elim (Option-cases (find_place flags key items)) [
    | inl e ↦ absurd (none_ne k (rw (more, e) at h))
    | inr (j, e) ↦
        let later : some (suc j) ≡ some k = rw (more, e) at h in
        omega (arith, some_eq (suc j) k later, find_place-le flags key items j e)
  ]
]

length-remove_place :
    (k : ℕ) (items : List Item)
    → k < length items
    → length (remove_place k items) + 1 ≡ length items
unfolding remove_place
length-remove_place k [] h = absurd (omega arith)
length-remove_place zero (x ∷ items) h = omega arith
length-remove_place (suc k) (x ∷ items) h = omega (arith, length-remove_place k items (omega arith))

PointsLast-before_place : (k m : ℕ) → k ≡ m → PointsLast (before_place k) m
PointsLast-before_place zero m e = sym e
PointsLast-before_place (suc k) m e = e

PointsLast-without_place :
    (k : ℕ) (t : Tail) (n m : ℕ)
    → PointsLast t n
    → k < n
    → m + 1 ≡ n
    → PointsLast (without_place k t) m
PointsLast-without_place k null n m h lt e = absurd (omega arith)
PointsLast-without_place k itemlist n m h lt e = absurd (omega arith)
PointsLast-without_place k (item_at t) n m h lt e =
    if_cases (λ (r : Tail). PointsLast r m) (t == k)
      (λ y. PointsLast-before_place k m (same_place k t m (omega (arith, h, e)) y))
      (λ other.
        if_cases (λ (r : Tail). PointsLast r m) (ltb k t) (λ y. moved k t m (omega (arith, h, e)) y)
          (λ far. absurd (never k t (omega (arith, h, lt)) other far)))
  where
    same_place : (k t m : ℕ) → t ≡ m → (t == k) ≡ true → k ≡ m
    same_place k t m e y = ground arith

    moved : (k t m : ℕ) → t ≡ m → ltb k t ≡ true → suc (t - 1) ≡ m
    moved k t m e y = ground arith

    never : (k t : ℕ) → k ≤ t → (t == k) ≡ false → ltb k t ≡ false → ⊥
    never k t le other far = ground arith

delete-TailOk :
    (o : Option ℕ) (pl : Ll)
    → ((k : ℕ) → o ≡ some k → k < length pl.items)
    → TailOk pl
    → TailOk (delete_at o pl).1
unfolding delete_at
delete-TailOk none pl inside h = h
delete-TailOk (some k) pl inside h =
    PointsLast-without_place k pl.tailptr (length pl.items) (length (remove_place k pl.items)) h
      (inside k refl) (length-remove_place k pl.items (inside k refl))

length-update_place :
    (k : ℕ) (v : Value) (items : List Item) → length (update_place k v items) ≡ length items
unfolding update_place
length-update_place k v [] = refl
length-update_place zero v (x ∷ items) = refl
length-update_place (suc k) v (x ∷ items) = ap suc (length-update_place k v items)

pub Step-TailOk : (pl pl' : Ll) → Step pl pl' → TailOk pl → TailOk pl'
Step-TailOk pl pl' (add key value f) h = add-TailOk pl key value f h
Step-TailOk pl pl' (delete key) h =
    unfold ll_del_item in
    delete-TailOk (find_place pl.flags key pl.items) pl (find_place-le pl.flags key pl.items) h
Step-TailOk pl pl' (update k value) h =
    unfold ll_update_item in
    subst (PointsLast pl.tailptr) (sym (length-update_place k value pl.items)) h
Step-TailOk pl pl' (set_flags flags) h = unfold ll_set_flags in h

-- After any run of calls on a new list in which no item is added while LL_FLAG_HEADINSERT is set,
-- `tailptr` points to the last item, or to none where the list is empty.
pub Reachable-TailOk : (pl : Ll) → Reachable pl → TailOk pl
Reachable-TailOk pl created = refl
Reachable-TailOk pl (stepped {pl = before} r step) =
    Step-TailOk before pl step (Reachable-TailOk before r)
