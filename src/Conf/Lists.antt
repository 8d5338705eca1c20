-- ===== src/Conf/Lists.antt =====
-- What the calls of src/ll.c do to what a list of the configuration finds: a list with the flags that
-- ll_create sets, in which no two keys agree but for case.
pub mod Calls
use fireflymediaserver.Prelude.{
  ℕ, zero, suc, ◌≡◌, ◌⊎◌, inl, inr, refl, sym, ap, ◌∙◌, subst, Bool, true, false, ◌&&◌, List, [],
  ◌∷◌, ◌++◌, Option, none, some, ◌==◌, ==_iff, if◌then◌else◌, Bytes, Bool-cases, Option-cases,
  arith,
}
use fireflymediaserver.CString.{tolower, eq_nocase}
use fireflymediaserver.Ll.{
  success, Value, as_string, Item, Ll, fetch_from, ll_fetch_item, find_place, update_place,
  remove_place, ll_add_item, ll_update_item, delete_at, ll_del_item, insert_item, same_key,
}
use fireflymediaserver.Ll.Invariant.{TailOk, insert_item_lem, add, delete, update, Step-TailOk}
use fireflymediaserver.Ll.Content.{or_else, fetch_from-append, add_absent}
use fireflymediaserver.Conf.Set.{update_key}

pub eq_nocase-cong : (a b c : Bytes) → eq_nocase a b ≡ true → eq_nocase a c ≡ eq_nocase b c
unfolding eq_nocase
eq_nocase-cong [] [] c h = refl
eq_nocase-cong [] (y ∷ b) c h = cc
eq_nocase-cong (x ∷ a) [] c h = cc
eq_nocase-cong (x ∷ a) (y ∷ b) [] h = refl
eq_nocase-cong (x ∷ a) (y ∷ b) (z ∷ c) h =
    ground (arith, ==_iff (tolower x) (tolower y), eq_nocase-cong a b c)

pub eq_nocase-sym : (a b : Bytes) → eq_nocase a b ≡ eq_nocase b a
unfolding eq_nocase
eq_nocase-sym [] [] = refl
eq_nocase-sym [] (y ∷ b) = refl
eq_nocase-sym (x ∷ a) [] = refl
eq_nocase-sym (x ∷ a) (y ∷ b) = ground (arith, eq_nocase-sym a b)

pub eq_nocase-cong_right : (a b c : Bytes) → eq_nocase a b ≡ true → eq_nocase c a ≡ eq_nocase c b
eq_nocase-cong_right a b c h = eq_nocase-sym c a ∙ eq_nocase-cong a b c h ∙ eq_nocase-sym b c

-- Keys that agree find the same item.
pub fetch_from-cong :
    (a b : Bytes) (items : List Item)
    → eq_nocase a b ≡ true
    → fetch_from 12 a items ≡ fetch_from 12 b items
unfolding fetch_from
fetch_from-cong a b [] h = refl
fetch_from-cong a b (x ∷ items) h =
    rw (eq_nocase-cong_right a b x.key h, fetch_from-cong a b items h) refl

unfoldable pub Unique : List Item → Type 0
unfolding fetch_from
Unique [] = Unit
Unique (x ∷ items) = (fetch_from 12 x.key items ≡ none) × Unique items

pub record ListOk (pl : Ll) : Type 0 where
  pub tail : TailOk pl
  pub flags : pl.flags ≡ 12
  pub unique : Unique pl.items

-- The list finds `o` by the key, and what it found before by the keys that do not agree with it.
abbrev pub Finds : Bytes → Option Item → List Item → List Item → Type 0
Finds key o items items' =
    (other : Bytes)
    → fetch_from 12 other items' ≡ (if eq_nocase key other then o else fetch_from 12 other items)

abbrev pub item : Bytes → Value → Item
item key v = record { key = key; value = v }

-- What is in front of a change has another key.
cons-Finds :
    (key : Bytes) (o : Option Item) (x : Item) (items items' : List Item)
    → eq_nocase x.key key ≡ false
    → Finds key o items items'
    → Finds key o (x ∷ items) (x ∷ items')
unfolding fetch_from
cons-Finds key o x items items' differs f other = elim (Bool-cases (eq_nocase key other)) [
  | inl same ↦
      let e : eq_nocase x.key other ≡ false =
        sym (eq_nocase-cong_right key other x.key same) ∙ differs in
      let later : fetch_from 12 other items' ≡ o = rw same at (f other) in rw (e, same) later
  | inr apart ↦
      let later : fetch_from 12 other items' ≡ fetch_from 12 other items = rw apart at (f other) in
      rw (apart, later) refl
]

-- A list that finds something else by the key, without two keys that agree.
abbrev pub Changes : Bytes → Option Item → List Item → List Item → Type 0
Changes key o items items' = Finds key o items items' × Unique items'

cons-Changes :
    (key : Bytes) (o : Option Item) (x : Item) (items items' : List Item)
    → eq_nocase x.key key ≡ false
    → fetch_from 12 x.key items ≡ none
    → Changes key o items items'
    → Changes key o (x ∷ items) (x ∷ items')
unfolding Unique
cons-Changes key o x items items' differs alone (f, u) =
    let apart : eq_nocase key x.key ≡ false = eq_nocase-sym key x.key ∙ differs in
    let e : fetch_from 12 x.key items' ≡ fetch_from 12 x.key items = rw apart at (f x.key) in
    (cons-Finds key o x items items' differs f, (e ∙ alone, u))

differs_of_absent :
    (key : Bytes) (x : Item) (items : List Item)
    → fetch_from 12 key (x ∷ items) ≡ none
    → (eq_nocase x.key key ≡ false) × (fetch_from 12 key items ≡ none)
unfolding fetch_from
differs_of_absent key x items h = elim (Bool-cases (eq_nocase x.key key)) [
  | inl same ↦ (let e : some x ≡ none = rw same at h in cc)
  | inr apart ↦ (apart, (rw apart at h))
]

pub append-Changes :
    (key : Bytes) (v : Value) (items : List Item)
    → fetch_from 12 key items ≡ none
    → Unique items
    → Changes key (some (item key v)) items (items ++ (item key v ∷ []))
unfolding Unique fetch_from
append-Changes key v [] absent u = (λ other. refl, (refl, tt))
append-Changes key v (x ∷ items) absent (alone, u) =
    let (differs, later) = differs_of_absent key x items absent in
    cons-Changes key _ x items _ differs alone (append-Changes key v items later u)

-- The items with another value at the place of the key, and the items without that place.
abbrev pub updated_at : Option ℕ → Value → List Item → List Item
updated_at none v items = items
updated_at (some k) v items = update_place k v items

abbrev pub deleted_at : Option ℕ → List Item → List Item
deleted_at none items = items
deleted_at (some k) items = remove_place k items

abbrev pub updated : Bytes → Value → List Item → List Item
updated key v items = updated_at (find_place 12 key items) v items

abbrev pub deleted : Bytes → List Item → List Item
deleted key items = deleted_at (find_place 12 key items) items

here-Finds :
    (key : Bytes) (v : Value) (x : Item) (items : List Item)
    → eq_nocase x.key key ≡ true
    → Finds key (some (item x.key v)) (x ∷ items) (item x.key v ∷ items)
unfolding fetch_from
here-Finds key v x items same other =
    rw (eq_nocase-cong x.key key other same)
      (elim (Bool-cases (eq_nocase key other)) [ inl e ↦ rw e refl | inr e ↦ rw e refl ])

gone-Finds :
    (key : Bytes) (x : Item) (items : List Item)
    → eq_nocase x.key key ≡ true
    → fetch_from 12 x.key items ≡ none
    → Finds key none (x ∷ items) items
unfolding fetch_from
gone-Finds key x items same alone other = elim (Bool-cases (eq_nocase key other)) [
  | inl e ↦
      let a : eq_nocase x.key other ≡ true = eq_nocase-cong x.key key other same ∙ e in
      rw e (sym (fetch_from-cong x.key other items a) ∙ alone)
  | inr e ↦
      let a : eq_nocase x.key other ≡ false = eq_nocase-cong x.key key other same ∙ e in
      rw (e, a) refl
]

find_place_here :
    (key : Bytes) (y : Item) (items : List Item)
    → eq_nocase y.key key ≡ true
    → find_place 12 key (y ∷ items) ≡ some 0
unfolding find_place
find_place_here key y items same = rw same refl

abbrev behind : Option ℕ → Option ℕ
behind none = none
behind (some k) = some (suc k)

find_place_later :
    (key : Bytes) (y : Item) (items : List Item)
    → eq_nocase y.key key ≡ false
    → find_place 12 key (y ∷ items) ≡ behind (find_place 12 key items)
unfolding find_place
find_place_later key y items apart = elim (Option-cases (find_place 12 key items)) [
  | inl e ↦ rw (apart, e) refl
  | inr (k, e) ↦ rw (apart, e) refl
]

updated_here :
    (key : Bytes) (v : Value) (y : Item) (items : List Item)
    → eq_nocase y.key key ≡ true
    → updated key v (y ∷ items) ≡ item y.key v ∷ items
unfolding update_place
updated_here key v y items same = rw (updated, find_place_here key y items same) refl

updated_behind :
    (o : Option ℕ) (v : Value) (y : Item) (items : List Item)
    → updated_at (behind o) v (y ∷ items) ≡ y ∷ updated_at o v items
unfolding update_place
updated_behind none v y items = refl
updated_behind (some k) v y items = refl

updated_later :
    (key : Bytes) (v : Value) (y : Item) (items : List Item)
    → eq_nocase y.key key ≡ false
    → updated key v (y ∷ items) ≡ y ∷ updated key v items
updated_later key v y items apart =
    rw (updated, find_place_later key y items apart)
      (updated_behind (find_place 12 key items) v y items)

deleted_here :
    (key : Bytes) (y : Item) (items : List Item)
    → eq_nocase y.key key ≡ true
    → deleted key (y ∷ items) ≡ items
unfolding remove_place
deleted_here key y items same = rw (deleted, find_place_here key y items same) refl

deleted_behind :
    (o : Option ℕ) (y : Item) (items : List Item)
    → deleted_at (behind o) (y ∷ items) ≡ y ∷ deleted_at o items
unfolding remove_place
deleted_behind none y items = refl
deleted_behind (some k) y items = refl

deleted_later :
    (key : Bytes) (y : Item) (items : List Item)
    → eq_nocase y.key key ≡ false
    → deleted key (y ∷ items) ≡ y ∷ deleted key items
deleted_later key y items apart =
    rw (deleted, find_place_later key y items apart)
      (deleted_behind (find_place 12 key items) y items)

if_same : {A : Type 0} (b : Bool) (x : A) → x ≡ (if b then x else x)
if_same true x = refl
if_same false x = refl

nil-Finds : (key : Bytes) → Finds key none [] []
unfolding fetch_from
nil-Finds key other = if_same (eq_nocase key other) none

deleted_nil : (key : Bytes) → deleted key [] ≡ []
unfolding find_place
deleted_nil key = refl

some_eq : (x y : Item) → some x ≡ some y → x ≡ y
some_eq x y h = cc

found_here :
    (key : Bytes) (x y : Item) (items : List Item)
    → eq_nocase y.key key ≡ true
    → fetch_from 12 key (y ∷ items) ≡ some x
    → y ≡ x
unfolding fetch_from
found_here key x y items same h = some_eq y x (rw same at h)

found_later :
    (key : Bytes) (x y : Item) (items : List Item)
    → eq_nocase y.key key ≡ false
    → fetch_from 12 key (y ∷ items) ≡ some x
    → fetch_from 12 key items ≡ some x
unfolding fetch_from
found_later key x y items apart h = rw apart at h

not_found_in_nil : (key : Bytes) (x : Item) → fetch_from 12 key [] ≡ some x → ⊥
unfolding fetch_from
not_found_in_nil key x h = cc

pub updated-Changes :
    (key : Bytes) (v : Value) (x : Item) (items : List Item)
    → fetch_from 12 key items ≡ some x
    → Unique items
    → Changes key (some (item x.key v)) items (updated key v items)
updated-Changes key v x [] h u = absurd (not_found_in_nil key x h)
updated-Changes key v x (y ∷ items) h u = elim (Bool-cases (eq_nocase y.key key)) [
  | inl same ↦
      rw (updated_here key v y items same, ← found_here key x y items same h)
        (here-Finds key v y items same, unfold Unique in u)
  | inr apart ↦ rw (updated_later key v y items apart) (
      cons-Changes key _ y items _ apart (unfold Unique in u.0)
        (updated-Changes key v x items (found_later key x y items apart h) (unfold Unique in u.1)))
]

pub deleted-Changes :
    (key : Bytes) (items : List Item) → Unique items → Changes key none items (deleted key items)
deleted-Changes key [] u = rw (deleted_nil key) (nil-Finds key, u)
deleted-Changes key (y ∷ items) u = elim (Bool-cases (eq_nocase y.key key)) [
  | inl same ↦
      rw (deleted_here key y items same)
        (gone-Finds key y items same (unfold Unique in u.0), unfold Unique in u.1)
  | inr apart ↦ rw (deleted_later key y items apart) (
      cons-Changes key none y items _ apart (unfold Unique in u.0)
        (deleted-Changes key items (unfold Unique in u.1)))
]
