-- ===== src/Db/Cache/Calls.antt =====
-- Whole calls on the song cache of src/db.c.
use fireflymediaserver.Prelude.{
  ℕ, suc, ◌+◌, ◌≡◌, ◌≤◌, refl, sym, ap, ◌∙◌, subst, Bool, false, ◌&&◌, List, [], ◌∷◌, ◌++◌, ◌==◌,
  leb, arith, length, Bool-cases, ◌⊎◌, inl, inr,
}
use fireflymediaserver.Prelude.Int.{ℤ, pos, is_zero}
use fireflymediaserver.Db.Cache.{cache_list, Cache, assign, link_first, evict, db_cache_insert}
use fireflymediaserver.Db.Cache.Chain.{last_of, Apart, IsChain, Apart-append}
use fireflymediaserver.Db.Cache.Insert.{link_first-IsChain}
use fireflymediaserver.Db.Cache.Evict.{AllFree, Evicted, evict-Evicted}

-- An entry that a call has put first is in use.
new_used : (a : ℕ) (f : ℕ → ℤ) → is_zero (assign a (pos 1) f a) ≡ false
unfolding assign
new_used a f = elim (Bool-cases (a == a)) [ inl e ↦ rw e refl | inr e ↦ absurd (ground arith) ]

old_count : (a b : ℕ) (f : ℕ → ℤ) → (a ≡ b → ⊥) → assign a (pos 1) f b ≡ f b
unfolding assign
old_count a b f h = ground arith

AllFree-old :
    (a : ℕ) (f : ℕ → ℤ) (zs : List ℕ) → Apart a zs → AllFree (assign a (pos 1) f) zs → AllFree f zs
unfolding AllFree Apart
AllFree-old a f [] u v = tt
AllFree-old a f (z ∷ zs) (h, later) (e, free) =
    (sym (ap is_zero (old_count a z f h)) ∙ e, AllFree-old a f zs later free)

over_or_used : (max n : ℕ) (b : Bool) → (leb max n && b) ≡ false → (suc n ≤ max) ⊎ (b ≡ false)
over_or_used max n b h = elim (Bool-cases (leb max n)) [
  | inl e ↦ inr (rw e at h)
  | inr e ↦ inl (ground arith)
]

-- What a call leaves of the entries `xs` and the new one: the new one first, then the front of the
-- others, in their order. What is gone was not in use, and went while the cache was full: where anything
-- is gone, what is left fills the cache. And the chain is not longer than `max_length`, but where its
-- last entry is in use.
pub record Inserted (a : ℕ) (xs : List ℕ) (c c' : Cache) : Type 0 where
  pub kept : List ℕ
  pub gone : List ℕ
  pub parts : xs ≡ kept ++ gone
  pub chain : IsChain c' (a ∷ kept)
  pub counted : c'.current_length ≡ length (a ∷ kept)
  pub free : AllFree c.refcount gone
  pub full : (gone ≡ []) ⊎ (c.max_length ≤ length (a ∷ kept))
  pub bounded :
      (length (a ∷ kept) ≤ c.max_length) ⊎ (is_zero (c'.refcount (last_of a kept)) ≡ false)

linked_refcount :
    (a id : ℕ) (c : Cache) → (link_first a id c).refcount ≡ assign a (pos 1) c.refcount
unfolding link_first
linked_refcount a id c = refl

linked_lengths :
    (a id : ℕ) (c : Cache)
    → ((link_first a id c).current_length ≡ c.current_length)
      × ((link_first a id c).max_length ≡ c.max_length)
unfolding link_first
linked_lengths a id c = (refl, refl)

others : (a : ℕ) (xs : List ℕ) → Apart a (0 ∷ cache_list ∷ xs) → Apart a xs
unfolding Apart
others a xs h = h.1.1

Evicted-Inserted :
    (a id fuel : ℕ) (c c' : Cache) (xs : List ℕ)
    → Apart a xs
    → Evicted a xs (link_first a id c) c'
    → Inserted a xs c (record c' { current_length = c'.current_length + 1 })
Evicted-Inserted a id fuel c c' xs apart v =
    let (in_kept, in_gone) = Apart-append a v.kept v.gone (subst (Apart a) v.parts apart) in
    let (same_length, same_max) = linked_lengths a id c in
    let max : c'.max_length ≡ c.max_length = v.max_length ∙ same_max in
    let stops : (leb c.max_length (length v.kept) && is_zero (c'.refcount c'.tail)) ≡ false =
      rw (v.counted, max) at v.stops in
    record {
      kept = v.kept;
      gone = v.gone;
      parts = v.parts;
      chain = record { links = v.chain.links; distinct = v.chain.distinct; tail = v.chain.tail };
      counted = (let n : c'.current_length ≡ length v.kept = v.counted in omega arith);
      free =
          AllFree-old a c.refcount v.gone in_gone
            (subst (λ f. AllFree f v.gone) (linked_refcount a id c) v.free);
      full = subst (λ m. (v.gone ≡ []) ⊎ (m ≤ suc (length v.kept))) same_max v.full;
      bounded =
          over_or_used c.max_length (length v.kept) (is_zero (c'.refcount (last_of a v.kept)))
            (rw v.chain.tail at stops);
    }

-- On a chain whose length is counted, and with fuel for its length, the new entry becomes the first,
-- and entries are taken off the end, one after the other, while the cache is full and the last one is
-- not in use: none where it is not full, and where some are, `max_length` entries at least are left,
-- and no more than that, but where the last of them is in use.
pub db_cache_insert_lem :
    (fuel a id : ℕ) (c : Cache) (xs : List ℕ)
    → IsChain c xs
    → c.current_length ≡ length xs
    → Apart a (0 ∷ cache_list ∷ xs)
    → length xs ≤ fuel
    → Inserted a xs c (db_cache_insert fuel a id c)
unfolding db_cache_insert
db_cache_insert_lem fuel a id c xs k n apart enough =
    let (same_length, same_max) = linked_lengths a id c in
    Evicted-Inserted a id fuel c (evict fuel (link_first a id c)) xs (others a xs apart) (
      evict-Evicted fuel a xs (link_first a id c) (link_first-IsChain a id c xs apart k)
        (same_length ∙ n) (ap (λ f. is_zero (f a)) (linked_refcount a id c) ∙ new_used a c.refcount)
        enough)
