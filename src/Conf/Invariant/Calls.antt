-- ===== src/Conf/Invariant/Calls.antt =====
-- What the parts of conf_set_string of src/conf.c set in a tree that has its shape.
use fireflymediaserver.Prelude.{
  ℕ, ◌≡◌, refl, sym, ap, ◌∙◌, subst, Bool, true, false, ◌&&◌, List, [], Option, none, some,
  if◌then◌else◌, Bytes, codes, arith, Bool-cases, Option-cases, inl, inr,
}
use fireflymediaserver.CString.{eq_nocase}
use fireflymediaserver.Ll.{
  LlError, Value, as_int, as_ll, as_string, Item, Ll, ll_create, ll_fetch_item, fetch_from,
  ll_add_item, ll_add_string, ll_add_ll, inherit,
}
use fireflymediaserver.Util.{argv, util_split}
use fireflymediaserver.Util.{Split}
use fireflymediaserver.SmartParser.State
use fireflymediaserver.SmartParser.State.{Outcome, done}
use fireflymediaserver.Conf.{ConfError, success, conf_get_keyinfo, ConfType}
use fireflymediaserver.Conf.Tree.{Conf, absent, at, holds, fetch_at}
use fireflymediaserver.Conf.Set.{
  put, alloc, is_multi, element_type, value_list, add_value, add_key, replace_value, delete_key,
  store_value,
}
use fireflymediaserver.Conf.Lists.{item}
use fireflymediaserver.Conf.Lists.Calls.{Becomes, add-Becomes, update-Becomes, delete-Becomes}
use fireflymediaserver.Conf.Invariant.{section_of, has_values, Fits, WellFormed, section_of-cong}
use fireflymediaserver.Conf.Invariant.Put.{
  Setting, text, several, setting, view, EntryOk, put-WellFormed, put-view, Holds-cases,
}
use fireflymediaserver.Conf.Invariant.Alloc.{alloc_old, alloc_new, alloc-WellFormed, alloc-view}
use fireflymediaserver.Conf.Invariant.Section.{
  with_section, section-WellFormed, section_at, section-view,
}
use fireflymediaserver.Conf.Invariant.Values.{
  string_items, NewSetting, Sets, value_list_lem, inherit-ListOk,
}

-- A string under a key of a section.
put_string :
    (conf : Conf) (s key value : Bytes) (a : ℕ) (x : Item) (pl : Ll)
    → WellFormed conf
    → section_of conf s ≡ at a
    → has_values s key ≡ false
    → x.value ≡ as_string value
    → Becomes key (some x) (conf.lists a) pl
    → Sets conf s key (some (text value)) (done (success, put a pl conf))
put_string conf s key value a x pl wf h m e b =
    let entry : EntryOk conf s key (some x) =
      subst (λ n. Fits n x.value conf.fresh (section_of conf)) (sym m) (value, e) in
    (
      put a pl conf,
      refl,
      put-WellFormed conf s a key (some x) pl wf h b entry,
      λ s' k.
          put-view conf s a key (some x) pl wf h b entry s' k
          ∙ ap
              (λ v.
                if eq_nocase s s' && eq_nocase key k
                then some (setting conf.lists v)
                else view conf s' k)
              e,
    )

new_setting :
    (conf : Conf) (new : Ll) (v : Value) (items : List Item)
    → v ≡ as_ll conf.fresh
    → new.items ≡ items
    → setting (alloc new conf).lists v ≡ several items
new_setting conf new v items e n = rw e (rw (alloc_new new conf) (ap several n))

-- A new list of values under a key of a section.
put_list :
    (conf : Conf) (s key : Bytes) (a : ℕ) (x : Item) (pl new : Ll) (items : List Item)
    → WellFormed conf
    → section_of conf s ≡ at a
    → has_values s key ≡ true
    → x.value ≡ as_ll conf.fresh
    → Becomes key (some x) (conf.lists a) pl
    → new.items ≡ items
    → Sets conf s key (some (several items)) (done (success, put a pl (alloc new conf)))
put_list conf s key a x pl new items wf h m e b n =
    let wf' : WellFormed (alloc new conf) = alloc-WellFormed new conf wf in
    let h' : section_of (alloc new conf) s ≡ at a = unfold alloc put in h in
    let b' : Becomes key (some x) ((alloc new conf).lists a) pl =
      subst (λ l. Becomes key (some x) l pl) (sym (alloc_old new conf a (wf.placed s a h).0)) b in
    let fits : Fits true x.value (alloc new conf).fresh (section_of (alloc new conf)) = (
      conf.fresh,
      e,
      (unfold alloc in omega arith),
      λ s' i.
          (let inside = wf.placed s' conf.fresh (unfold alloc put in i) in omega (arith, inside.0)),
    ) in
    let entry : EntryOk (alloc new conf) s key (some x) =
      subst (λ n. Fits n x.value (alloc new conf).fresh (section_of (alloc new conf))) (sym m)
        fits in
    (
      put a pl (alloc new conf),
      refl,
      put-WellFormed (alloc new conf) s a key (some x) pl wf' h' b' entry,
      λ s' k.
          put-view (alloc new conf) s a key (some x) pl wf' h' b' entry s' k
          ∙ ap
              (λ v.
                if eq_nocase s s' && eq_nocase key k then some v else view (alloc new conf) s' k)
              (new_setting conf new x.value items e n)
          ∙ ap (λ w. if eq_nocase s s' && eq_nocase key k then some (several items) else w)
              (alloc-view new conf wf s' k),
    )

list_made :
    (key value : Bytes) (error : LlError) (pl : Ll) (args : List Bytes)
    → pl.flags ≡ 12
    → util_split (some value) (some (codes ",")) ≡ argv args
    → (new : Ll) × (value_list key value (inherit error pl ll_create) ≡ done new)
      × (new.items ≡ string_items key args)
list_made key value error pl args f e =
    let (ok, empty) = inherit-ListOk error pl f in
    value_list_lem key value args (inherit error pl ll_create) e empty ok.tail

-- A value under a key that the section has not.
add_value-Sets :
    (conf : Conf) (s key value : Bytes) (a : ℕ) (new : Setting)
    → WellFormed conf
    → section_of conf s ≡ at a
    → ll_fetch_item (conf.lists a) key ≡ none
    → NewSetting (has_values s key) key value new
    → Sets conf s key
        (some new)
        (add_value (element_type (conf_get_keyinfo s key)) a key value conf)
unfolding add_value ll_add_ll ll_add_string
add_value-Sets conf s key value a new wf h none_there means =
    let (inside, ok) = wf.placed s a h in
    elim (Bool-cases (has_values s key)) [
      | inl m ↦
          let (args, e, n) : NewSetting true key value new = rw m at means in
          let (added, b) = add-Becomes (conf.lists a) key (as_ll conf.fresh) ok none_there in
          let (error, pl) = ll_add_item (conf.lists a) (some key) (some (as_ll conf.fresh)) in
          let (l, made, items) = list_made key value error pl args b.ok.flags e in
          rw (m, n, made) (put_list conf s key a _ _ l (string_items key args) wf h m refl b items)
      | inr m ↦
          let n : new ≡ text value = rw m at means in
          let (added, b) = add-Becomes (conf.lists a) key (as_string value) ok none_there in
          rw (m, n, added) (put_string conf s key value a _ _ wf h m refl b)
    ]

-- Another value under a key that the section has.
replace_value-Sets :
    (conf : Conf) (s key value : Bytes) (a : ℕ) (x : Item) (new : Setting)
    → WellFormed conf
    → section_of conf s ≡ at a
    → ll_fetch_item (conf.lists a) key ≡ some x
    → NewSetting (has_values s key) key value new
    → Sets conf s key
        (some new)
        (replace_value (element_type (conf_get_keyinfo s key)) a key value x conf)
unfolding replace_value
replace_value-Sets conf s key value a x new wf h there means =
    let (inside, ok) = wf.placed s a h in
    let fits : Fits (has_values s key) x.value conf.fresh (section_of conf) =
      wf.fits s a key x h there in
    elim (Bool-cases (has_values s key)) [
      | inl m ↦
          let (args, e, n) : NewSetting true key value new = rw m at means in
          let (c, holds_list, below, none_at) : Fits true x.value conf.fresh (section_of conf) =
            rw m at fits in
          let (l, made, items) = value_list_lem key value args ll_create e refl refl in
          rw (m, n, holds_list, made)
            (put_list conf s key a _ _ l (string_items key args) wf h m refl
              (update-Becomes (conf.lists a) key (as_ll conf.fresh) x ok there) items)
      | inr m ↦
          let n : new ≡ text value = rw m at means in
          rw (m, n)
            (put_string conf s key value a _ _ wf h m refl
              (update-Becomes (conf.lists a) key (as_string value) x ok there))
    ]

both_same : {A : Type 0} (b : Bool) (x : A) → x ≡ (if b then x else x)
both_same true x = refl
both_same false x = refl

-- In a section that is not there, nothing is set.
nothing_to_delete :
    (conf : Conf) (s key : Bytes)
    → WellFormed conf
    → section_of conf s ≡ absent
    → (s' k : Bytes)
    → view conf s' k ≡ (if eq_nocase s s' && eq_nocase key k then none else view conf s' k)
nothing_to_delete conf s key wf h s' k = elim (Bool-cases (eq_nocase s s')) [
  | inl e ↦
      let gone : section_of conf s' ≡ absent = sym (section_of-cong conf s s' wf.main_ok e) ∙ h in
      rw (e, gone) (both_same (eq_nocase key k) none)
  | inr e ↦ rw e refl
]

pub delete_key-Sets :
    (conf : Conf) (s key : Bytes) → WellFormed conf → Sets conf s key none (delete_key s key conf)
unfolding delete_key
delete_key-Sets conf s key wf = elim (Holds-cases (section_of conf s)) [
  | inl (inl e) ↦ rw (delete_key, e) (conf, refl, wf, nothing_to_delete conf s key wf e)
  | inl (inr e) ↦ absurd (wf.typed s e)
  | inr (a, e) ↦
      let (inside, ok) = wf.placed s a e in
      let b = delete-Becomes (conf.lists a) key ok in
      rw (delete_key, e)
        (
          put a _ conf,
          refl,
          put-WellFormed conf s a key none _ wf e b tt,
          put-view conf s a key none _ wf e b tt,
        )
]

item_not_absent : (v : Value) → holds (some (item [] v)) ≡ absent → ⊥
item_not_absent (as_int n) h = cc
item_not_absent (as_ll n) h = cc
item_not_absent (as_string t) h = cc

holds_of_fetch : (o : Option Item) → holds o ≡ absent → o ≡ none
holds_of_fetch none h = refl
holds_of_fetch (some x) h = absurd (item_not_absent x.value h)

empty_fetch : (pl : Ll) (k : Bytes) → pl.items ≡ [] → ll_fetch_item pl k ≡ none
unfolding ll_fetch_item fetch_from
empty_fetch pl k e = rw e refl

-- What is set with a new section is set in the tree without it.
Sets-after :
    (conf conf' : Conf) (s key : Bytes) (o : Option Setting) (r : Outcome (ConfError × Conf))
    → ((s' k : Bytes) → view conf' s' k ≡ view conf s' k)
    → Sets conf' s key o r
    → Sets conf s key o r
Sets-after conf conf' s key o r same (c, e, wf, v) = (
  c,
  e,
  wf,
  λ s' k. v s' k ∙ ap (λ w. if eq_nocase s s' && eq_nocase key k then o else w) (same s' k),
)

-- A value under a key that is not there, in a section that may be new.
add_key-Sets :
    (conf : Conf) (s key value : Bytes) (new : Setting)
    → WellFormed conf
    → fetch_at conf.lists key (section_of conf s) ≡ none
    → NewSetting (has_values s key) key value new
    → Sets conf s key (some new) (add_key (element_type (conf_get_keyinfo s key)) s key value conf)
unfolding add_key ll_add_ll
add_key-Sets conf s key value new wf none_there means = elim (Holds-cases (section_of conf s)) [
  | inl (inl e) ↦
      let (added, b) =
        add-Becomes conf.main s (as_ll conf.fresh) wf.main_ok
          (holds_of_fetch (ll_fetch_item conf.main s) e) in
      let (error, main) = ll_add_item conf.main (some s) (some (as_ll conf.fresh)) in
      let (new_ok, empty) = inherit-ListOk error main b.ok.flags in
      let list = inherit error main ll_create in
      let none_in : (k : Bytes) → ll_fetch_item list k ≡ none = λ k. empty_fetch list k empty in
      rw (add_key, e)
        (rw added (
          Sets-after conf (with_section list main conf) s key (some new) _
            (section-view list main conf s wf e new_ok none_in b)
            (add_value-Sets (with_section list main conf) s key value conf.fresh new
              (section-WellFormed list main conf s wf e new_ok none_in b)
              (section_at list main conf s wf e new_ok none_in b)
              (ap (λ l. ll_fetch_item l key) (alloc_new list conf) ∙ none_in key) means)))
  | inl (inr e) ↦ absurd (wf.typed s e)
  | inr (a, e) ↦
      rw (add_key, e) (add_value-Sets conf s key value a new wf e (rw e at none_there) means)
]

pub store_value-Sets :
    (conf : Conf) (s key value : Bytes) (new : Setting)
    → WellFormed conf
    → NewSetting (has_values s key) key value new
    → Sets conf s key
        (some new)
        (store_value (element_type (conf_get_keyinfo s key)) s key value conf)
unfolding store_value
store_value-Sets conf s key value new wf means = elim (Holds-cases (section_of conf s)) [
  | inl (inl e) ↦ rw (store_value, e) (add_key-Sets conf s key value new wf (rw e refl) means)
  | inl (inr e) ↦ absurd (wf.typed s e)
  | inr (a, e) ↦ elim (Option-cases (ll_fetch_item (conf.lists a) key)) [
    | inl i ↦ rw (store_value, e, i) (add_key-Sets conf s key value new wf (rw e i) means)
    | inr (x, i) ↦ rw (store_value, e, i) (replace_value-Sets conf s key value a x new wf e i means)
  ]
]

-- Where the value cannot be split, the call reads outside the copy that util_split makes.
add_value-overrun :
    (conf : Conf) (type : ConfType) (key value : Bytes) (a : ℕ)
    → is_multi type ≡ true
    → util_split (some value) (some (codes ",")) ≡ Split.overrun
    → add_value type a key value conf ≡ State.overrun
unfolding add_value value_list
add_value-overrun conf type key value a m e = rw (m, e) refl

add_key-overrun :
    (conf : Conf) (type : ConfType) (s key value : Bytes)
    → WellFormed conf
    → is_multi type ≡ true
    → util_split (some value) (some (codes ",")) ≡ Split.overrun
    → add_key type s key value conf ≡ State.overrun
unfolding add_key ll_add_ll
add_key-overrun conf type s key value wf m e = elim (Holds-cases (section_of conf s)) [
  | inl (inl i) ↦
      let (added, b) =
        add-Becomes conf.main s (as_ll conf.fresh) wf.main_ok
          (holds_of_fetch (ll_fetch_item conf.main s) i) in
      let (error, main, new) = ll_add_ll conf.main (some s) conf.fresh ll_create in
      rw (add_key, i)
        (rw added (add_value-overrun (with_section new main conf) type key value conf.fresh m e))
  | inl (inr i) ↦ absurd (wf.typed s i)
  | inr (a, i) ↦ rw (add_key, i) (add_value-overrun conf type key value a m e)
]

pub store_value-overrun :
    (conf : Conf) (s key value : Bytes)
    → WellFormed conf
    → has_values s key ≡ true
    → util_split (some value) (some (codes ",")) ≡ Split.overrun
    → store_value (element_type (conf_get_keyinfo s key)) s key value conf ≡ State.overrun
unfolding store_value replace_value value_list
store_value-overrun conf s key value wf m e = elim (Holds-cases (section_of conf s)) [
  | inl (inl i) ↦ rw (store_value, i) (add_key-overrun conf _ s key value wf m e)
  | inl (inr i) ↦ absurd (wf.typed s i)
  | inr (a, i) ↦ elim (Option-cases (ll_fetch_item (conf.lists a) key)) [
    | inl j ↦ rw (store_value, i, j) (add_key-overrun conf _ s key value wf m e)
    | inr (x, j) ↦
        let (c, holds_list, below, none_at) : Fits true x.value conf.fresh (section_of conf) =
          rw m at (wf.fits s a key x i j) in
        rw (store_value, i, j) (rw (replace_value, m, holds_list, e) refl)
  ]
]
