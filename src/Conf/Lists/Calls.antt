-- ===== src/Conf/Lists/Calls.antt =====
-- The calls of src/conf.c on one list of its tree: ll_add_item, ll_update_item and ll_del_item.
use fireflymediaserver.Prelude.{
  ℕ, ◌≡◌, refl, sym, ap, ◌∙◌, subst, [], ◌∷◌, ◌++◌, Option, none, some, Bytes, Option-cases, inl,
  inr, suc, length, length-append, arith, if◌then◌else◌,
}
use fireflymediaserver.CString.{eq_nocase}
use fireflymediaserver.Ll.{
  success, Value, Item, Ll, fetch_from, ll_fetch_item, find_place, ll_add_item, ll_update_item,
  delete_at, ll_del_item, ll_create,
}
use fireflymediaserver.Ll.Invariant.{TailOk, insert_item_lem, delete, update, Step-TailOk}
use fireflymediaserver.Ll.Content.{add_absent}
use fireflymediaserver.Conf.Set.{update_key, update_found}
use fireflymediaserver.Conf.Lists.{
  Unique, ListOk, Finds, item, updated, updated_at, deleted, append-Changes, updated-Changes,
  deleted-Changes,
}

-- A sound list that finds `o` by the key, and else what the other list finds.
pub record Becomes (key : Bytes) (o : Option Item) (pl pl' : Ll) : Type 0 where
  pub ok : ListOk pl'
  pub finds : Finds key o pl.items pl'.items

pub create-ListOk : ListOk ll_create
unfolding Unique
create-ListOk = record { tail = refl; flags = refl; unique = tt }

absent_from :
    (pl : Ll) (key : Bytes) (o : Option Item)
    → pl.flags ≡ 12
    → ll_fetch_item pl key ≡ o
    → fetch_from 12 key pl.items ≡ o
unfolding ll_fetch_item
absent_from pl key o f h = rw f at h

pub add-Becomes :
    (pl : Ll) (key : Bytes) (v : Value)
    → ListOk pl
    → ll_fetch_item pl key ≡ none
    → ((ll_add_item pl (some key) (some v)).0 ≡ success)
      × Becomes key (some (item key v)) pl (ll_add_item pl (some key) (some v)).1
add-Becomes pl key v ok absent =
    let (f, u) =
      append-Changes key v pl.items (absent_from pl key none ok.flags absent) ok.unique in
    let tail : suc (length pl.items) ≡ length (pl.items ++ (item key v ∷ [])) =
      omega (arith, length-append pl.items (item key v ∷ [])) in
    rw (add_absent pl key v absent) (
      rw (insert_item_lem (item key v) pl (rw ok.flags refl) ok.tail)
        (refl, record { ok = record { tail = tail; flags = ok.flags; unique = u }; finds = f }))

update_items :
    (o : Option ℕ) (v : Value) (pl : Ll) → (update_found o v pl).items ≡ updated_at o v pl.items
unfolding ll_update_item
update_items none v pl = refl
update_items (some k) v pl = refl

update_kept :
    (o : Option ℕ) (v : Value) (pl : Ll)
    → TailOk pl
    → TailOk (update_found o v pl) × ((update_found o v pl).flags ≡ pl.flags)
update_kept none v pl t = (t, refl)
update_kept (some k) v pl t = (Step-TailOk pl _ (update k v) t, unfold ll_update_item in refl)

pub update-Becomes :
    (pl : Ll) (key : Bytes) (v : Value) (x : Item)
    → ListOk pl
    → ll_fetch_item pl key ≡ some x
    → Becomes key (some (item x.key v)) pl (update_key key v pl)
unfolding update_key
update-Becomes pl key v x ok found =
    let (f, u) =
      updated-Changes key v x pl.items (absent_from pl key (some x) ok.flags found) ok.unique in
    let e : (update_key key v pl).items ≡ updated key v pl.items =
      update_items (find_place pl.flags key pl.items) v pl
      ∙ ap (λ n. updated_at (find_place n key pl.items) v pl.items) ok.flags in
    let (tail, flags) = update_kept (find_place pl.flags key pl.items) v pl ok.tail in
    record {
      ok = record { tail = tail; flags = flags ∙ ok.flags; unique = subst Unique (sym e) u };
      finds = subst (Finds key (some (item x.key v)) pl.items) (sym e) f;
    }

delete_items :
    (key : Bytes) (pl : Ll) → pl.flags ≡ 12 → (ll_del_item pl key).1.items ≡ deleted key pl.items
unfolding ll_del_item delete_at
delete_items key pl f = rw f (elim (Option-cases (find_place 12 key pl.items)) [
  | inl e ↦ rw e refl
  | inr (k, e) ↦ rw e refl
])

delete_flags : (key : Bytes) (pl : Ll) → (ll_del_item pl key).1.flags ≡ pl.flags
unfolding ll_del_item delete_at
delete_flags key pl = elim (Option-cases (find_place pl.flags key pl.items)) [
  | inl e ↦ rw e refl
  | inr (k, e) ↦ rw e refl
]

pub delete-Becomes :
    (pl : Ll) (key : Bytes) → ListOk pl → Becomes key none pl (ll_del_item pl key).1
delete-Becomes pl key ok =
    let (f, u) = deleted-Changes key pl.items ok.unique in
    let e : (ll_del_item pl key).1.items ≡ deleted key pl.items = delete_items key pl ok.flags in
    record {
      ok = record {
        tail = Step-TailOk pl _ (delete key) ok.tail;
        flags = delete_flags key pl ∙ ok.flags;
        unique = subst Unique (sym e) u;
      };
      finds = subst (Finds key none pl.items) (sym e) f;
    }

-- What a sound list finds afterwards.
pub Becomes-fetch :
    (key other : Bytes) (o : Option Item) (pl pl' : Ll)
    → ListOk pl
    → Becomes key o pl pl'
    → ll_fetch_item pl' other ≡ (if eq_nocase key other then o else ll_fetch_item pl other)
unfolding ll_fetch_item
Becomes-fetch key other o pl pl' ok b = rw (ok.flags, b.ok.flags) (b.finds other)
