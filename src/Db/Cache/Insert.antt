-- ===== src/Db/Cache/Insert.antt =====
-- What db_cache_insert of src/db.c does to the chain of the song cache.
use fireflymediaserver.Prelude.{ℕ, ◌≡◌, refl, sym, ◌∙◌, false, List, [], ◌∷◌, ◌++◌, ◌==◌, arith}
use fireflymediaserver.Db.Cache.{cache_list, Cache, assign, link_first}
use fireflymediaserver.Db.Cache.Chain.{
  Links, last_of, Apart, Distinct, IsChain, assign_same, assign_other, Apart-append, Links-first,
}

no_entry : (next prev : ℕ → ℕ) (p : ℕ) → Links next prev p [] → next p ≡ 0
unfolding Links
no_entry next prev p l = l

pub first_entry :
    (next prev : ℕ → ℕ) (p x : ℕ) (xs : List ℕ) → Links next prev p (x ∷ xs) → next p ≡ x
unfolding Links
first_entry next prev p x xs l = l.0

-- The head and the entries of a chain.
pub from_head : (xs : List ℕ) → Distinct (0 ∷ cache_list ∷ xs) → Apart cache_list xs × Distinct xs
unfolding Distinct
from_head xs d = d.1

pub not_null : (x : ℕ) (xs : List ℕ) → Distinct (0 ∷ cache_list ∷ x ∷ xs) → (x == 0) ≡ false
unfolding Distinct Apart
not_null x xs ((head, (null, rest)), d) = ground arith

pub Distinct-cons :
    (a : ℕ) (xs : List ℕ)
    → Apart a (0 ∷ cache_list ∷ xs)
    → Distinct (0 ∷ cache_list ∷ xs)
    → Distinct (0 ∷ cache_list ∷ a ∷ xs)
unfolding Distinct Apart
Distinct-cons a xs (null, (head, apart)) ((n, zs), (h, d)) =
    ((n, ((λ e. null (sym e)), zs)), (((λ e. head (sym e)), h), (apart, d)))

pub beyond_head : (a : ℕ) (xs : List ℕ) → Apart a (0 ∷ cache_list ∷ xs) → Apart a (cache_list ∷ xs)
unfolding Apart
beyond_head a xs h = h.1

one_link :
    (next prev : ℕ → ℕ) (head a : ℕ)
    → Apart a (head ∷ [])
    → Links (assign head a (assign a 0 next)) (assign a head prev) head (a ∷ [])
unfolding Links Apart
one_link next prev head a (not_head, u) = (
  assign_same head a (assign a 0 next),
  assign_same a head prev,
  (assign_other head a a (assign a 0 next) not_head ∙ assign_same a 0 next),
)

pub Distinct-tail : (x : ℕ) (xs : List ℕ) → Distinct (x ∷ xs) → Apart x xs
unfolding Distinct
Distinct-tail x xs d = d.0

pub link_first-IsChain :
    (a id : ℕ) (c : Cache) (xs : List ℕ)
    → Apart a (0 ∷ cache_list ∷ xs)
    → IsChain c xs
    → IsChain (link_first a id c) (a ∷ xs)
unfolding link_first
link_first-IsChain a id c [] apart k =
    let first : c.next cache_list ≡ 0 = no_entry c.next c.prev cache_list k.links in
    record {
      links = rw first (one_link c.next c.prev cache_list a (beyond_head a [] apart));
      distinct = Distinct-cons a [] apart k.distinct;
      tail = rw first refl;
    }
link_first-IsChain a id c (x ∷ xs) apart k =
    let first : c.next cache_list ≡ x = first_entry c.next c.prev cache_list x xs k.links in
    let (head, d) = from_head (x ∷ xs) k.distinct in
    record {
      links =
          rw (first, not_null x xs k.distinct)
            (Links-first c.next c.prev cache_list a x xs (beyond_head a (x ∷ xs) apart) head
              (Distinct-tail x xs d) k.links);
      distinct = Distinct-cons a (x ∷ xs) apart k.distinct;
      tail = rw (first, not_null x xs k.distinct) k.tail;
    }

pub not_last : (p y : ℕ) (ys : List ℕ) → Apart p (y ∷ ys) → p ≡ last_of y ys → ⊥
unfolding Apart
not_last p y [] (h, u) e = h e
not_last p y (y' ∷ ys) (h, later) e = not_last p y' ys later e

-- A chain without its last entry.
pub Links-last :
    (next prev : ℕ → ℕ) (p z : ℕ) (ys : List ℕ)
    → Distinct (p ∷ ys ++ (z ∷ []))
    → Links next prev p (ys ++ (z ∷ []))
    → (prev z ≡ last_of p ys) × Links (assign (last_of p ys) 0 next) prev p ys
unfolding Links Distinct
Links-last next prev p z [] d (n, q, l) = (q, assign_same p 0 next)
Links-last next prev p z (y ∷ ys) (a, d) (n, q, l) =
    let (e, rest) = Links-last next prev y z ys d l in
    (
      e,
      (
        (assign_other (last_of y ys) 0 p next
              (λ i. not_last p y ys (Apart-append p (y ∷ ys) (z ∷ []) a).0 i)
            ∙ n),
        q,
        rest,
      ),
    )
