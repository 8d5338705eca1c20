-- ===== src/Conf/Invariant/Section.antt =====
-- A new section in the tree of src/conf.c, with an empty list at a new address.
use fireflymediaserver.Prelude.{
  ℕ, suc, ◌<◌, ◌≡◌, refl, sym, ap, ◌∙◌, subst, Bool, true, false, none, some, Bytes, arith,
  Bool-cases, ◌⊎◌, inl, inr,
}
use fireflymediaserver.CString.{eq_nocase}
use fireflymediaserver.Ll.{Value, as_ll, Item, Ll, ll_fetch_item}
use fireflymediaserver.Conf.Tree.{Conf, absent, wrong, at, holds}
use fireflymediaserver.Conf.Set.{alloc}
use fireflymediaserver.Conf.Lists.{ListOk, item, eq_nocase-cong}
use fireflymediaserver.Conf.Lists.Calls.{Becomes, Becomes-fetch}
use fireflymediaserver.Conf.Invariant.{
  section_of, has_values, Fits, WellFormed, at_eq, eq_nocase_refl, section_of-cong,
}
use fireflymediaserver.Conf.Invariant.Put.{view}
use fireflymediaserver.Conf.Invariant.Alloc.{alloc_new, alloc-placed, old_entry, shown-alloc}

wrong_ne : (a : ℕ) → at a ≡ wrong → ⊥
wrong_ne a h = cc

absent_ne : (a : ℕ) → absent ≡ at a → ⊥
absent_ne a h = cc

none_ne : (x : Item) → none ≡ some x → ⊥
none_ne x h = cc

true_ne : true ≡ false → ⊥
true_ne h = cc

-- The tree with the list `new` for the section `s` in the list of sections `main`.
abbrev pub with_section : Ll → Ll → Conf → Conf
with_section new main conf = record (alloc new conf) { main = main }

abbrev Sections : Conf → Ll → Bytes → Bytes → Type 0
Sections conf main s s' =
    ((eq_nocase s s' ≡ true) × (holds (ll_fetch_item main s') ≡ at conf.fresh))
    ⊎ ((eq_nocase s s' ≡ false) × (holds (ll_fetch_item main s') ≡ section_of conf s'))

Fits-Sections :
    (conf : Conf) (main : Ll) (s : Bytes) (m : Bool) (v : Value)
    → ((s' : Bytes) → Sections conf main s s')
    → ((s' : Bytes) (a : ℕ) → section_of conf s' ≡ at a → a < conf.fresh)
    → Fits m v conf.fresh (section_of conf)
    → Fits m v (suc conf.fresh) (λ s'. holds (ll_fetch_item main s'))
Fits-Sections conf main s false v cases inside (t, e) = (t, e)
Fits-Sections conf main s true v cases inside (b, e, below, none_at) = (
  b,
  e,
  omega arith,
  λ s' h. elim (cases s') [
    | inl (i, new) ↦ (let same : conf.fresh ≡ b = at_eq conf.fresh b (sym new ∙ h) in omega arith)
    | inr (i, old) ↦ none_at s' (sym old ∙ h)
  ],
)

module _ (new main : Ll) (conf : Conf) (s : Bytes) (wf : WellFormed conf)
    (fresh_section : section_of conf s ≡ absent) (new_ok : ListOk new)
    (empty : (k : Bytes) → ll_fetch_item new k ≡ none)
    (b : Becomes s (some (item s (as_ll conf.fresh))) conf.main main) where
  Sections-cases : (s' : Bytes) → Sections conf main s s'
  Sections-cases s' =
      let e = Becomes-fetch s s' _ conf.main main wf.main_ok b in
      elim (Bool-cases (eq_nocase s s')) [
        | inl i ↦ inl (i, rw (e, i) refl)
        | inr i ↦ inr (i, rw (e, i) refl)
      ]

  section-placed :
      (s' : Bytes) (a : ℕ)
      → holds (ll_fetch_item main s') ≡ at a
      → (a < suc conf.fresh) × ListOk ((alloc new conf).lists a)
  section-placed s' a h = elim (Sections-cases s') [
    | inl (i, e) ↦
        let same : conf.fresh ≡ a = at_eq conf.fresh a (sym e ∙ h) in
        (
          omega arith,
          subst (λ n. ListOk ((alloc new conf).lists n)) same (rw (alloc_new new conf) new_ok),
        )
    | inr (i, e) ↦ alloc-placed new conf wf s' a (sym e ∙ h)
  ]

  section-apart :
      (s1 s2 : Bytes) (a : ℕ)
      → holds (ll_fetch_item main s1) ≡ at a
      → holds (ll_fetch_item main s2) ≡ at a
      → eq_nocase s1 s2 ≡ true
  section-apart s1 s2 a h1 h2 = elim (Sections-cases s1) [
    | inl (i1, e1) ↦
        let same : conf.fresh ≡ a = at_eq conf.fresh a (sym e1 ∙ h1) in
        elim (Sections-cases s2) [
          | inl (i2, e2) ↦ sym (eq_nocase-cong s s1 s2 i1) ∙ i2
          | inr (i2, e2) ↦
              (let inside = wf.placed s2 a (sym e2 ∙ h2) in absurd (omega (arith, inside.0)))
        ]
    | inr (i1, e1) ↦
        (let inside = wf.placed s1 a (sym e1 ∙ h1) in
          elim (Sections-cases s2) [
            | inl (i2, e2) ↦
                let same : conf.fresh ≡ a = at_eq conf.fresh a (sym e2 ∙ h2) in
                absurd (omega (arith, inside.0))
            | inr (i2, e2) ↦ wf.apart s1 s2 a (sym e1 ∙ h1) (sym e2 ∙ h2)
          ])
  ]

  section-Fits :
      (s' : Bytes) (a : ℕ) (k : Bytes) (x : Item)
      → holds (ll_fetch_item main s') ≡ at a
      → ll_fetch_item ((alloc new conf).lists a) k ≡ some x
      → Fits (has_values s' k) x.value (suc conf.fresh) (λ s''. holds (ll_fetch_item main s''))
  section-Fits s' a k x h found = elim (Sections-cases s') [
    | inl (i, e) ↦
        let same : conf.fresh ≡ a = at_eq conf.fresh a (sym e ∙ h) in
        let list : (alloc new conf).lists a ≡ new =
          ap (alloc new conf).lists (sym same) ∙ alloc_new new conf in
        absurd (none_ne x (sym (empty k) ∙ ap (λ l. ll_fetch_item l k) (sym list) ∙ found))
    | inr (i, e) ↦
        Fits-Sections conf main s (has_values s' k) x.value Sections-cases
          (λ s'' a' h'. (wf.placed s'' a' h').0)
          (wf.fits s' a k x (sym e ∙ h) (sym (old_entry new conf wf s' a k (sym e ∙ h)) ∙ found))
  ]

  section-typed : (s' : Bytes) → holds (ll_fetch_item main s') ≡ wrong → ⊥
  section-typed s' h = elim (Sections-cases s') [
    | inl (i, e) ↦ wrong_ne conf.fresh (sym e ∙ h)
    | inr (i, e) ↦ wf.typed s' (sym e ∙ h)
  ]

  pub section-WellFormed : WellFormed (with_section new main conf)
  unfolding alloc
  section-WellFormed = record {
    main_ok = b.ok;
    typed = section-typed;
    placed = section-placed;
    apart = section-apart;
    fits = section-Fits;
  }

  pub section_at : section_of (with_section new main conf) s ≡ at conf.fresh
  section_at = elim (Sections-cases s) [
    | inl (i, e) ↦ e
    | inr (i, e) ↦ absurd (true_ne (sym (eq_nocase_refl s) ∙ i))
  ]

  pub section-view : (s' k : Bytes) → view (with_section new main conf) s' k ≡ view conf s' k
  section-view s' k = elim (Sections-cases s') [
    | inl (i, e) ↦
        let old : section_of conf s' ≡ absent =
          sym (section_of-cong conf s s' wf.main_ok i) ∙ fresh_section in
        rw (e, old) (rw (alloc_new new conf, empty k) refl)
    | inr (i, e) ↦ rw e (shown-alloc new conf wf s' k)
  ]
