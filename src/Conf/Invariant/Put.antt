-- ===== src/Conf/Invariant/Put.antt =====
-- Another value in one section of the tree of src/conf.c: the tree keeps its shape, and what is set
-- elsewhere stays.
use fireflymediaserver.Prelude.{
  ℕ, ◌<◌, ◌≡◌, refl, sym, ap, ◌∙◌, subst, Bool, true, false, ◌&&◌, List, Option, none, some, ◌==◌,
  ==_iff, if◌then◌else◌, Bytes, arith, Bool-cases, Option-cases, ◌⊎◌, inl, inr,
}
use fireflymediaserver.CString.{eq_nocase}
use fireflymediaserver.Ll.{Value, as_int, as_ll, as_string, Item, Ll, ll_fetch_item}
use fireflymediaserver.Conf.Tree.{Conf, Holds, absent, wrong, at, fetch_at}
use fireflymediaserver.Conf.Set.{put}
use fireflymediaserver.Conf.Lists.{ListOk}
use fireflymediaserver.Conf.Lists.Calls.{Becomes, Becomes-fetch}
use fireflymediaserver.Conf.Invariant.{
  section_of, has_values, Fits, WellFormed, at_eq, has_values-cong, section_of-cong,
}

-- What is set: a string, a number, or a list of values.
pub data Setting : Type 0 where
  text : Bytes → Setting
  number : ℕ → Setting
  several : List Item → Setting

abbrev pub setting : (ℕ → Ll) → Value → Setting
setting lists (as_int n) = number n
setting lists (as_ll a) = several (lists a).items
setting lists (as_string s) = text s

abbrev pub shown : (ℕ → Ll) → Option Item → Option Setting
shown lists none = none
shown lists (some x) = some (setting lists x.value)

-- The map that the tree stands for.
abbrev pub view : Conf → Bytes → Bytes → Option Setting
view conf s k = shown conf.lists (fetch_at conf.lists k (section_of conf s))

-- A new entry for the key, or none.
abbrev pub EntryOk : Conf → Bytes → Bytes → Option Item → Type 0
EntryOk conf s k none = Unit
EntryOk conf s k (some x) = Fits (has_values s k) x.value conf.fresh (section_of conf)

put_same : (a b : ℕ) (pl : Ll) (conf : Conf) → b ≡ a → (put a pl conf).lists b ≡ pl
unfolding put
put_same a b pl conf h = ground arith

put_other : (a b : ℕ) (pl : Ll) (conf : Conf) → (b ≡ a → ⊥) → (put a pl conf).lists b ≡ conf.lists b
unfolding put
put_other a b pl conf h = ground arith

-- A value that fits shows the same where a section's list is another one.
shown_put :
    (conf : Conf) (s : Bytes) (a : ℕ) (pl : Ll) (m : Bool) (v : Value)
    → section_of conf s ≡ at a
    → Fits m v conf.fresh (section_of conf)
    → setting (put a pl conf).lists v ≡ setting conf.lists v
shown_put conf s a pl true v h (b, e, inside, none_at) =
    rw e (ap (λ l. several l.items) (put_other a b pl conf (λ same. none_at s (rw same h))))
shown_put conf s a pl false v h (t, e) = rw e refl

pub put-section :
    (a : ℕ) (pl : Ll) (conf : Conf) (s : Bytes) → section_of (put a pl conf) s ≡ section_of conf s
unfolding put
put-section a pl conf s = refl

-- What an entry that is found in a section was: the new one under the key, or an old one.
found_after :
    (conf : Conf) (a : ℕ) (pl : Ll) (key k : Bytes) (o : Option Item)
    → ListOk (conf.lists a)
    → Becomes key o (conf.lists a) pl
    → ll_fetch_item ((put a pl conf).lists a) k
      ≡ (if eq_nocase key k then o else ll_fetch_item (conf.lists a) k)
found_after conf a pl key k o ok b =
    rw (put_same a a pl conf refl) (Becomes-fetch key k o (conf.lists a) pl ok b)

address_cases : (a b : ℕ) → (a ≡ b) ⊎ (a ≡ b → ⊥)
address_cases a b = elim (Bool-cases (a == b)) [
  | inl e ↦ inl ((==_iff a b).0 e)
  | inr e ↦ inr (λ h. (ground arith))
]

-- An entry that is found in the changed section.
entry_after :
    (conf : Conf) (s s' : Bytes) (a : ℕ) (key k : Bytes) (o : Option Item) (x : Item)
    → WellFormed conf
    → section_of conf s ≡ at a
    → section_of conf s' ≡ at a
    → EntryOk conf s key o
    → (if eq_nocase key k then o else ll_fetch_item (conf.lists a) k) ≡ some x
    → Fits (has_values s' k) x.value conf.fresh (section_of conf)
entry_after conf s s' a key k o x wf h h' entry found = elim (Bool-cases (eq_nocase key k)) [
  | inl e ↦
      let new : o ≡ some x = rw e at found in
      let fits : Fits (has_values s key) x.value conf.fresh (section_of conf) =
        subst (EntryOk conf s key) new entry in
      subst (λ m. Fits m x.value conf.fresh (section_of conf))
        (has_values-cong s s' key k (wf.apart s s' a h h') e) fits
  | inr e ↦
      let old : ll_fetch_item (conf.lists a) k ≡ some x = rw e at found in wf.fits s' a k x h' old
]

put-Fits :
    (conf : Conf) (s : Bytes) (a : ℕ) (key : Bytes) (o : Option Item) (pl : Ll)
    → WellFormed conf
    → section_of conf s ≡ at a
    → Becomes key o (conf.lists a) pl
    → EntryOk conf s key o
    → (s' : Bytes) (a' : ℕ) (k : Bytes) (x : Item) → section_of conf s' ≡ at a'
    → ll_fetch_item ((put a pl conf).lists a') k ≡ some x
    → Fits (has_values s' k) x.value conf.fresh (section_of conf)
put-Fits conf s a key o pl wf h b entry s' a' k x h' found = elim (address_cases a' a) [
  | inl e ↦
      let here : section_of conf s' ≡ at a = h' ∙ ap at e in
      let same : (put a pl conf).lists a' ≡ (put a pl conf).lists a = ap (put a pl conf).lists e in
      let (inside, ok) = wf.placed s a h in
      entry_after conf s s' a key k o x wf h here entry
        (sym (found_after conf a pl key k o ok b) ∙ ap (λ l. ll_fetch_item l k) (sym same) ∙ found)
  | inr e ↦
      wf.fits s' a' k x h' (ap (λ l. ll_fetch_item l k) (sym (put_other a a' pl conf e)) ∙ found)
]

put-placed :
    (conf : Conf) (s : Bytes) (a : ℕ) (key : Bytes) (o : Option Item) (pl : Ll)
    → WellFormed conf
    → Becomes key o (conf.lists a) pl
    → (s' : Bytes) (a' : ℕ) → section_of conf s' ≡ at a'
    → (a' < conf.fresh) × ListOk ((put a pl conf).lists a')
put-placed conf s a key o pl wf b s' a' h' =
    let (inside, ok) = wf.placed s' a' h' in
    elim (address_cases a' a) [
      | inl e ↦ (inside, subst ListOk (sym (put_same a a' pl conf e)) b.ok)
      | inr e ↦ (inside, subst ListOk (sym (put_other a a' pl conf e)) ok)
    ]

pub put-WellFormed :
    (conf : Conf) (s : Bytes) (a : ℕ) (key : Bytes) (o : Option Item) (pl : Ll)
    → WellFormed conf
    → section_of conf s ≡ at a
    → Becomes key o (conf.lists a) pl
    → EntryOk conf s key o
    → WellFormed (put a pl conf)
unfolding put
put-WellFormed conf s a key o pl wf h b entry = record {
  main_ok = wf.main_ok;
  typed = wf.typed;
  placed = put-placed conf s a key o pl wf b;
  apart = wf.apart;
  fits = put-Fits conf s a key o pl wf h b entry;
}

entry_shown :
    (conf : Conf) (s key : Bytes) (a : ℕ) (o : Option Item) (pl : Ll)
    → section_of conf s ≡ at a
    → EntryOk conf s key o
    → shown (put a pl conf).lists o ≡ shown conf.lists o
entry_shown conf s key a none pl h entry = refl
entry_shown conf s key a (some x) pl h entry =
    ap some (shown_put conf s a pl (has_values s key) x.value h entry)

old_shown :
    (conf : Conf) (s s' k : Bytes) (a a' : ℕ) (pl : Ll)
    → WellFormed conf
    → section_of conf s ≡ at a
    → section_of conf s' ≡ at a'
    → shown (put a pl conf).lists (ll_fetch_item (conf.lists a') k)
      ≡ shown conf.lists (ll_fetch_item (conf.lists a') k)
old_shown conf s s' k a a' pl wf h h' = elim (Option-cases (ll_fetch_item (conf.lists a') k)) [
  | inl e ↦ rw e refl
  | inr (x, e) ↦
      rw e (ap some (shown_put conf s a pl (has_values s' k) x.value h (wf.fits s' a' k x h' e)))
]

pub Holds-cases : (h : Holds) → ((h ≡ absent) ⊎ (h ≡ wrong)) ⊎ ((a : ℕ) × (h ≡ at a))
Holds-cases absent = inl (inl refl)
Holds-cases wrong = inl (inr refl)
Holds-cases (at a) = inr (a, refl)

absent_ne : (a : ℕ) → absent ≡ at a → ⊥
absent_ne a h = cc

wrong_ne : (a : ℕ) → wrong ≡ at a → ⊥
wrong_ne a h = cc

-- Another section does not agree with one that is there.
other_section :
    (conf : Conf) (s s' : Bytes) (a : ℕ)
    → WellFormed conf
    → section_of conf s ≡ at a
    → (section_of conf s' ≡ at a → ⊥)
    → eq_nocase s s' ≡ false
other_section conf s s' a wf h other = elim (Bool-cases (eq_nocase s s')) [
  | inl e ↦ absurd (other (sym (section_of-cong conf s s' wf.main_ok e) ∙ h))
  | inr e ↦ e
]

-- What is set in the tree with another list for a section.
view-put :
    (conf : Conf) (a : ℕ) (pl : Ll) (s' k : Bytes)
    → view (put a pl conf) s' k
      ≡ shown (put a pl conf).lists (fetch_at (put a pl conf).lists k (section_of conf s'))
unfolding put
view-put conf a pl s' k = refl

changed_shown :
    (conf : Conf) (s : Bytes) (a : ℕ) (key k : Bytes) (o : Option Item) (pl : Ll)
    → WellFormed conf
    → section_of conf s ≡ at a
    → Becomes key o (conf.lists a) pl
    → EntryOk conf s key o
    → shown (put a pl conf).lists (ll_fetch_item ((put a pl conf).lists a) k) ≡ (
        if eq_nocase key k
        then shown conf.lists o
        else shown conf.lists (ll_fetch_item (conf.lists a) k))
changed_shown conf s a key k o pl wf h b entry =
    let (inside, ok) = wf.placed s a h in
    rw (found_after conf a pl key k o ok b) (elim (Bool-cases (eq_nocase key k)) [
      | inl e ↦ rw e (entry_shown conf s key a o pl h entry)
      | inr e ↦ rw e (old_shown conf s s k a a pl wf h h)
    ])

pub put-view :
    (conf : Conf) (s : Bytes) (a : ℕ) (key : Bytes) (o : Option Item) (pl : Ll)
    → WellFormed conf
    → section_of conf s ≡ at a
    → Becomes key o (conf.lists a) pl
    → EntryOk conf s key o
    → (s' k : Bytes)
    → view (put a pl conf) s' k
      ≡ (if eq_nocase s s' && eq_nocase key k then shown conf.lists o else view conf s' k)
put-view conf s a key o pl wf h b entry s' k = elim (Holds-cases (section_of conf s')) [
  | inl (inl e) ↦
      let apart : eq_nocase s s' ≡ false =
        other_section conf s s' a wf h (λ i. absent_ne a (sym e ∙ i)) in
      view-put conf a pl s' k ∙ rw (e, apart) refl
  | inl (inr e) ↦
      let apart : eq_nocase s s' ≡ false =
        other_section conf s s' a wf h (λ i. wrong_ne a (sym e ∙ i)) in
      view-put conf a pl s' k ∙ rw (e, apart) refl
  | inr (a', e) ↦ view-put conf a pl s' k ∙ elim (address_cases a' a) [
    | inl same ↦
        let here : section_of conf s' ≡ at a = e ∙ ap at same in
        rw (here, wf.apart s s' a h here) (changed_shown conf s a key k o pl wf h b entry)
    | inr differs ↦
        let apart : eq_nocase s s' ≡ false =
          other_section conf s s' a wf h (λ i. differs (at_eq a' a (sym e ∙ i))) in
        rw (e, apart) (rw (put_other a a' pl conf differs) (old_shown conf s s' k a a' pl wf h e))
  ]
]
