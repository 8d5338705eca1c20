-- ===== src/Conf/Invariant/Alloc.antt =====
-- A new list in the tree of src/conf.c: one that nothing in the tree names yet, and one for a new
-- section. The tree keeps its shape, and what is set stays.
use fireflymediaserver.Prelude.{
  ℕ, suc, ◌<◌, ◌≡◌, refl, sym, ap, ◌∙◌, subst, Bool, true, false, some, Bytes, arith, Option-cases,
  inl, inr,
}
use fireflymediaserver.Ll.{Value, Item, Ll, ll_fetch_item}
use fireflymediaserver.Conf.Tree.{Conf, Holds, at, fetch_at}
use fireflymediaserver.Conf.Set.{put, alloc}
use fireflymediaserver.Conf.Lists.{ListOk}
use fireflymediaserver.Conf.Invariant.{section_of, has_values, Fits, WellFormed}
use fireflymediaserver.Conf.Invariant.Put.{several, setting, shown, view, Holds-cases}

pub alloc_old :
    (pl : Ll) (conf : Conf) (b : ℕ) → b < conf.fresh → (alloc pl conf).lists b ≡ conf.lists b
unfolding alloc put
alloc_old pl conf b h = ground arith

pub alloc_new : (pl : Ll) (conf : Conf) → (alloc pl conf).lists conf.fresh ≡ pl
unfolding alloc put
alloc_new pl conf = ground arith

Fits-more :
    (m : Bool) (v : Value) (n : ℕ) (sections : Bytes → Holds)
    → Fits m v n sections
    → Fits m v (suc n) sections
Fits-more true v n sections (b, e, inside, none_at) = (b, e, omega arith, none_at)
Fits-more false v n sections (t, e) = (t, e)

-- A value that fits shows the same.
old_setting :
    (pl : Ll) (conf : Conf) (m : Bool) (v : Value) (sections : Bytes → Holds)
    → Fits m v conf.fresh sections
    → setting (alloc pl conf).lists v ≡ setting conf.lists v
old_setting pl conf true v sections (b, e, inside, none_at) =
    rw e (ap (λ l. several l.items) (alloc_old pl conf b inside))
old_setting pl conf false v sections (t, e) = rw e refl

module _ (pl : Ll) (conf : Conf) (wf : WellFormed conf) where
  pub alloc-placed :
      (s : Bytes) (a : ℕ)
      → section_of conf s ≡ at a
      → (a < suc conf.fresh) × ListOk ((alloc pl conf).lists a)
  alloc-placed s a h =
      let (inside, ok) = wf.placed s a h in
      (omega arith, subst ListOk (sym (alloc_old pl conf a inside)) ok)

  pub old_entry :
      (s : Bytes) (a : ℕ) (k : Bytes)
      → section_of conf s ≡ at a
      → ll_fetch_item ((alloc pl conf).lists a) k ≡ ll_fetch_item (conf.lists a) k
  old_entry s a k h = ap (λ l. ll_fetch_item l k) (alloc_old pl conf a (wf.placed s a h).0)

  alloc-Fits :
      (s : Bytes) (a : ℕ) (k : Bytes) (x : Item)
      → section_of conf s ≡ at a
      → ll_fetch_item ((alloc pl conf).lists a) k ≡ some x
      → Fits (has_values s k) x.value (suc conf.fresh) (section_of conf)
  alloc-Fits s a k x h found =
      Fits-more (has_values s k) x.value conf.fresh (section_of conf)
        (wf.fits s a k x h (sym (old_entry s a k h) ∙ found))

  pub alloc-WellFormed : WellFormed (alloc pl conf)
  unfolding alloc put
  alloc-WellFormed = record {
    main_ok = wf.main_ok;
    typed = wf.typed;
    placed = alloc-placed;
    apart = wf.apart;
    fits = alloc-Fits;
  }

  shown_old :
      (s : Bytes) (a : ℕ) (k : Bytes)
      → section_of conf s ≡ at a
      → shown (alloc pl conf).lists (ll_fetch_item ((alloc pl conf).lists a) k)
        ≡ shown conf.lists (ll_fetch_item (conf.lists a) k)
  shown_old s a k h = rw (old_entry s a k h) (elim (Option-cases (ll_fetch_item (conf.lists a) k)) [
    | inl e ↦ rw e refl
    | inr (x, e) ↦ rw e (
        ap some
          (old_setting pl conf (has_values s k) x.value (section_of conf) (wf.fits s a k x h e)))
  ])

  -- What the lists show under a section, whatever the sections are.
  pub shown-alloc :
      (s k : Bytes)
      → shown (alloc pl conf).lists (fetch_at (alloc pl conf).lists k (section_of conf s))
        ≡ view conf s k
  shown-alloc s k = elim (Holds-cases (section_of conf s)) [
    | inl (inl e) ↦ rw e refl
    | inl (inr e) ↦ rw e refl
    | inr (a, e) ↦ rw e (shown_old s a k e)
  ]

  pub alloc-view : (s k : Bytes) → view (alloc pl conf) s k ≡ view conf s k
  unfolding alloc put
  alloc-view s k = shown-alloc s k
