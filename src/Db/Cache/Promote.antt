-- ===== src/Db/Cache/Promote.antt =====
-- What db_cache_promote of src/db.c does to the chain of the song cache.
use fireflymediaserver.Prelude.{
  ℕ, ◌≡◌, refl, sym, ap, ◌∙◌, true, false, List, [], ◌∷◌, ◌++◌, ◌==◌, arith, append-nil,
}
use fireflymediaserver.Db.Cache.{cache_list, Cache, assign, unlink, relink, db_cache_promote}
use fireflymediaserver.Db.Cache.Chain.{
  Links, last_of, Apart, Distinct, IsChain, assign_same, assign_other, Apart-append,
  Distinct-middle, Links-next, Links-prev, Links-first,
}
use fireflymediaserver.Db.Cache.Insert.{
  first_entry, from_head, not_null, Distinct-cons, Distinct-tail, beyond_head, not_last,
}

-- The entry behind, or NULL.
abbrev head_of : List ℕ → ℕ
head_of [] = 0
head_of (w ∷ ws) = w

-- "pentry->next->prev = pentry->prev", where there is an entry behind.
abbrev unlinked : List ℕ → ℕ → (ℕ → ℕ) → ℕ → ℕ
unlinked [] q prev = prev
unlinked (w ∷ ws) q prev = assign w q prev

unlinked_other : (zs : List ℕ) (q y : ℕ) (prev : ℕ → ℕ) → Apart y zs → unlinked zs q prev y ≡ prev y
unfolding Apart
unlinked_other [] q y prev u = refl
unlinked_other (w ∷ ws) q y prev (h, u) = assign_other w q y prev h

Distinct-next : (p : ℕ) (xs : List ℕ) → Distinct (p ∷ xs) → Apart p xs × Distinct xs
unfolding Distinct
Distinct-next p xs d = d

Apart-next : (a x : ℕ) (xs : List ℕ) → Apart a (x ∷ xs) → (a ≡ x → ⊥) × Apart a xs
unfolding Apart
Apart-next a x xs h = h

-- The links around an entry in the chain.
around :
    (next prev : ℕ → ℕ) (p0 p : ℕ) (ys zs : List ℕ)
    → Links next prev p0 (ys ++ (p ∷ zs))
    → (prev p ≡ last_of p0 ys) × (next p ≡ head_of zs)
unfolding Links
around next prev p0 p [] [] (n, q, l) = (q, l)
around next prev p0 p [] (w ∷ ws) (n, q, l) = (q, l.0)
around next prev p0 p (y ∷ ys) zs (n, q, l) = around next prev y p ys zs l

-- The chain without the entry.
Links-removed :
    (next prev : ℕ → ℕ) (p0 p : ℕ) (ys zs : List ℕ)
    → Distinct (p0 ∷ ys ++ (p ∷ zs))
    → Links next prev p0 (ys ++ (p ∷ zs))
    → Links
        (assign (last_of p0 ys) (head_of zs) next)
        (unlinked zs (last_of p0 ys) prev)
        p0
        (ys ++ zs)
unfolding Links
Links-removed next prev p0 p [] [] d (n, q, l) = assign_same p0 0 next
Links-removed next prev p0 p [] (w ∷ ws) d (n, q, (m, r, l)) =
    let (apart, d') = Distinct-next p0 (p ∷ w ∷ ws) d in
    let (differs, from_p0) = Apart-next p0 p (w ∷ ws) apart in
    let (from_p, d'') = Distinct-next p (w ∷ ws) d' in
    let (from_w, d''') = Distinct-next w ws d'' in
    (
      assign_same p0 w next,
      assign_same w p0 prev,
      Links-next p0 w next (assign w p0 prev) w ws from_p0
          (Links-prev w p0 next prev w ws from_w l),
    )
Links-removed next prev p0 p (y ∷ ys) zs d (n, q, l) =
    let (apart, d') = Distinct-next p0 (y ∷ ys ++ (p ∷ zs)) d in
    let (from_y, d'') = Distinct-next y (ys ++ (p ∷ zs)) d' in
    let (in_front, behind) = Apart-append p0 (y ∷ ys) (p ∷ zs) apart in
    let y_behind = (Apart-append y ys (p ∷ zs) from_y).1 in
    (
      assign_other (last_of y ys) (head_of zs) p0 next (not_last p0 y ys in_front) ∙ n,
      unlinked_other zs (last_of y ys) y prev (Apart-next y p zs y_behind).1 ∙ q,
      Links-removed next prev y p ys zs d' l,
    )

last_of-append : (x p : ℕ) (ys zs : List ℕ) → last_of x (ys ++ (p ∷ zs)) ≡ last_of p zs
last_of-append x p [] zs = refl
last_of-append x p (y ∷ ys) zs = last_of-append y p ys zs

removed-Distinct :
    (f p : ℕ) (ys zs : List ℕ)
    → Distinct (0 ∷ cache_list ∷ f ∷ ys ++ (p ∷ zs))
    → Apart p (0 ∷ cache_list ∷ f ∷ ys ++ zs) × Distinct (0 ∷ cache_list ∷ f ∷ ys ++ zs)
removed-Distinct f p ys zs d = Distinct-middle (0 ∷ cache_list ∷ f ∷ ys) zs p d

behind-Distinct :
    (f p : ℕ) (ys zs : List ℕ) → Distinct (0 ∷ cache_list ∷ f ∷ ys ++ (p ∷ zs)) → Apart p zs
behind-Distinct f p ys zs d =
    (Apart-append p (0 ∷ cache_list ∷ f ∷ ys) zs (removed-Distinct f p ys zs d).0).1

Distinct-head : (xs : List ℕ) → Distinct (0 ∷ cache_list ∷ xs) → Distinct (cache_list ∷ xs)
unfolding Distinct
Distinct-head xs d = d.1

null_behind :
    (f p w : ℕ) (ys ws : List ℕ)
    → Distinct (0 ∷ cache_list ∷ f ∷ ys ++ (p ∷ w ∷ ws))
    → (w == 0) ≡ false
null_behind f p w ys ws d =
    let (null, rest) = Distinct-next 0 (cache_list ∷ f ∷ ys ++ (p ∷ w ∷ ws)) d in
    let from_null = (Apart-append 0 (cache_list ∷ f ∷ ys) (p ∷ w ∷ ws) null).1 in
    let differs = (Apart-next 0 w ws (Apart-next 0 p (w ∷ ws) from_null).1).0 in
    ground (arith, differs)

last-Apart : (p w : ℕ) (ws : List ℕ) → Apart p (w ∷ ws) → (p == last_of w ws) ≡ false
last-Apart p w ws h = let differs = not_last p w ws h in ground (arith, differs)

unlink-IsChain :
    (c : Cache) (f p : ℕ) (ys zs : List ℕ)
    → IsChain c (f ∷ ys ++ (p ∷ zs))
    → IsChain (unlink p c) (f ∷ ys ++ zs)
unfolding unlink
unlink-IsChain c f p ys [] k =
    let (before, behind) = around c.next c.prev cache_list p (f ∷ ys) [] k.links in
    let tail : c.tail ≡ p = k.tail ∙ last_of-append f p ys [] in
    let same : (p == p) ≡ true = ground arith in
    record {
      links =
          rw (behind, before)
            (Links-removed c.next c.prev cache_list p (f ∷ ys) [] (Distinct-head _ k.distinct)
              k.links);
      distinct = (removed-Distinct f p ys [] k.distinct).1;
      tail = rw (tail, same, before, append-nil ys) refl;
    }
unlink-IsChain c f p ys (w ∷ ws) k =
    let (before, behind) = around c.next c.prev cache_list p (f ∷ ys) (w ∷ ws) k.links in
    let tail : c.tail ≡ last_of w ws = k.tail ∙ last_of-append f p ys (w ∷ ws) in
    let (differs, apart) = Apart-next p w ws (behind-Distinct f p ys (w ∷ ws) k.distinct) in
    record {
      links =
          rw
            (
              behind,
              null_behind f p w ys ws k.distinct,
              assign_other w (c.prev p) p c.prev differs,
              before,
            )
            (Links-removed c.next c.prev cache_list p (f ∷ ys) (w ∷ ws) (Distinct-head _ k.distinct)
              k.links);
      distinct = (removed-Distinct f p ys (w ∷ ws) k.distinct).1;
      tail =
          rw (tail, last-Apart p w ws (behind-Distinct f p ys (w ∷ ws) k.distinct))
            (sym (last_of-append f w ys ws));
    }

relink-IsChain :
    (c : Cache) (p x : ℕ) (xs : List ℕ)
    → Apart p (0 ∷ cache_list ∷ x ∷ xs)
    → IsChain c (x ∷ xs)
    → IsChain (relink p c) (p ∷ x ∷ xs)
unfolding relink
relink-IsChain c p x xs apart k =
    let first : c.next cache_list ≡ x = first_entry c.next c.prev cache_list x xs k.links in
    let (head, d) = from_head (x ∷ xs) k.distinct in
    record {
      links =
          rw (first, not_null x xs k.distinct)
            (Links-first c.next c.prev cache_list p x xs (beyond_head p (x ∷ xs) apart) head
              (Distinct-tail x xs d) k.links);
      distinct = Distinct-cons p (x ∷ xs) apart k.distinct;
      tail = k.tail;
    }

differs_first :
    (f p : ℕ) (ys zs : List ℕ) → Distinct (0 ∷ cache_list ∷ f ∷ ys ++ (p ∷ zs)) → (p == f) ≡ false
unfolding Apart
differs_first f p ys zs d =
    let apart : (p ≡ f) → ⊥ = (removed-Distinct f p ys zs d).0.1.1.0 in ground (arith, apart)

-- An entry that is promoted is the first, and the others keep their order, whatever place it had.
pub db_cache_promote_lem :
    (c : Cache) (p : ℕ) (ys zs : List ℕ)
    → IsChain c (ys ++ (p ∷ zs))
    → IsChain (db_cache_promote p c) (p ∷ ys ++ zs)
unfolding db_cache_promote
db_cache_promote_lem c p [] zs k =
    let first : c.next cache_list ≡ p = first_entry c.next c.prev cache_list p zs k.links in
    let same : (p == p) ≡ true = ground arith in rw (db_cache_promote, first, same) k
db_cache_promote_lem c p (f ∷ ys) zs k =
    let first : c.next cache_list ≡ f =
      first_entry c.next c.prev cache_list f (ys ++ (p ∷ zs)) k.links in
    let test : (p == c.next cache_list) ≡ false =
      ap (λ n. p == n) first ∙ differs_first f p ys zs k.distinct in
    rw (db_cache_promote, test)
      (relink-IsChain (unlink p c) p f (ys ++ zs) (removed-Distinct f p ys zs k.distinct).0
        (unlink-IsChain c f p ys zs k))
