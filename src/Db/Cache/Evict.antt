-- ===== src/Db/Cache/Evict.antt =====
-- The loop of db_cache_insert of src/db.c that deletes entries from the tail of the chain.
use fireflymediaserver.Prelude.{
  ℕ, zero, suc, ◌-◌, ◌≡◌, ◌≤◌, refl, sym, ap, ◌∙◌, subst, Bool, true, false, ◌&&◌, List, [], ◌∷◌,
  ◌++◌, leb, arith, length, length-append, append_assoc, append-nil, Bool-cases, ◌⊎◌, inl, inr,
}
use fireflymediaserver.Prelude.Int.{ℤ, is_zero}
use fireflymediaserver.Db.Cache.{cache_list, Cache, assign, evict}
use fireflymediaserver.Db.Cache.Chain.{last_of, Distinct, IsChain, Distinct-front}
use fireflymediaserver.Db.Cache.Insert.{Links-last}

unfoldable pub AllFree : (ℕ → ℤ) → List ℕ → Type 0
AllFree refcount [] = Unit
AllFree refcount (z ∷ zs) = (is_zero (refcount z) ≡ true) × AllFree refcount zs

AllFree-snoc :
    (refcount : ℕ → ℤ) (zs : List ℕ) (z : ℕ)
    → AllFree refcount zs
    → is_zero (refcount z) ≡ true
    → AllFree refcount (zs ++ (z ∷ []))
unfolding AllFree
AllFree-snoc refcount [] z u h = (h, tt)
AllFree-snoc refcount (y ∷ zs) z (e, free) h = (e, AllFree-snoc refcount zs z free h)

-- The loop's condition.
abbrev pub goes_on : Cache → Bool
goes_on c = leb c.max_length c.current_length && is_zero (c.refcount c.tail)

-- What is left of `first ∷ xs`: its front, with its length counted, where the rest was not in use, and
-- the entry behind what is left went while the count with it had reached `max_length`.
pub record Evicted (first : ℕ) (xs : List ℕ) (c c' : Cache) : Type 0 where
  pub kept : List ℕ
  pub gone : List ℕ
  pub parts : xs ≡ kept ++ gone
  pub chain : IsChain c' (first ∷ kept)
  pub counted : c'.current_length ≡ length kept
  pub free : AllFree c.refcount gone
  pub full : (gone ≡ []) ⊎ (c.max_length ≤ suc (length kept))
  pub stops : goes_on c' ≡ false
  pub refcount : c'.refcount ≡ c.refcount
  pub max_length : c'.max_length ≡ c.max_length

snoc_cases : (xs : List ℕ) → (xs ≡ []) ⊎ ((ys : List ℕ) × (z : ℕ) × (xs ≡ ys ++ (z ∷ [])))
snoc_cases [] = inl refl
snoc_cases (x ∷ xs) = elim (snoc_cases xs) [
  | inl e ↦ inr ([], x, ap (◌∷◌ x) e)
  | inr (ys, z, e) ↦ inr (x ∷ ys, z, ap (◌∷◌ x) e)
]

and_parts : (a b : Bool) → (a && b) ≡ true → (a ≡ true) × (b ≡ true)
and_parts true true h = (refl, refl)
and_parts true false h = cc
and_parts false b h = cc

last_of-snoc : (x z : ℕ) (ys : List ℕ) → last_of x (ys ++ (z ∷ [])) ≡ z
last_of-snoc x z [] = refl
last_of-snoc x z (y ∷ ys) = last_of-snoc y z ys

-- The chain without its last entry, as a round of the loop leaves it.
abbrev shorter : Cache → Cache
shorter c = record c {
  tail = c.prev c.tail;
  next = assign (c.prev c.tail) 0 c.next;
  current_length = c.current_length - 1;
}

Distinct-chain : (xs : List ℕ) → Distinct (0 ∷ cache_list ∷ xs) → Distinct (cache_list ∷ xs)
unfolding Distinct
Distinct-chain xs d = d.1

shorter-IsChain :
    (first z : ℕ) (ys : List ℕ) (c : Cache)
    → IsChain c (first ∷ ys ++ (z ∷ []))
    → IsChain (shorter c) (first ∷ ys)
shorter-IsChain first z ys c k =
    let tail : c.tail ≡ z = k.tail ∙ last_of-snoc first z ys in
    let (e, l) =
      Links-last c.next c.prev cache_list z (first ∷ ys) (Distinct-chain _ k.distinct) k.links in
    record {
      links = rw (tail, e) l;
      distinct = Distinct-front (0 ∷ cache_list ∷ first ∷ ys) (z ∷ []) k.distinct;
      tail = rw (tail, e) refl;
    }

stopped :
    (first : ℕ) (xs : List ℕ) (c : Cache)
    → IsChain c (first ∷ xs)
    → c.current_length ≡ length xs
    → goes_on c ≡ false
    → Evicted first xs c c
unfolding AllFree
stopped first xs c k n h = record {
  kept = xs;
  gone = [];
  parts = sym (append-nil xs);
  chain = k;
  counted = n;
  free = tt;
  full = inl refl;
  stops = h;
  refcount = refl;
  max_length = refl;
}

-- Where nothing more goes, the count was that of what is left and one.
more_full :
    (ys kept gone : List ℕ) (n max : ℕ)
    → ys ≡ kept ++ gone
    → n ≡ suc (length ys)
    → leb max n ≡ true
    → (gone ≡ []) ⊎ (max ≤ suc (length kept))
    → max ≤ suc (length kept)
more_full ys kept gone n max e size h (inl none) =
    let same : length ys ≡ length kept =
      ap length (e ∙ ap (λ l. kept ++ l) none ∙ append-nil kept) in
    ground arith
more_full ys kept gone n max e size h (inr le) = le

more-Evicted :
    (first z : ℕ) (ys : List ℕ) (c c' : Cache)
    → is_zero (c.refcount z) ≡ true
    → c.current_length ≡ suc (length ys)
    → leb c.max_length c.current_length ≡ true
    → Evicted first ys (shorter c) c'
    → Evicted first (ys ++ (z ∷ [])) c c'
more-Evicted first z ys c c' free size over v = record {
  kept = v.kept;
  gone = v.gone ++ (z ∷ []);
  parts = ap (λ l. l ++ (z ∷ [])) v.parts ∙ append_assoc v.kept v.gone (z ∷ []);
  chain = v.chain;
  counted = v.counted;
  free = AllFree-snoc c.refcount v.gone z v.free free;
  full = inr (more_full ys v.kept v.gone c.current_length c.max_length v.parts size over v.full);
  stops = v.stops;
  refcount = v.refcount;
  max_length = v.max_length;
}

and_false : (b : Bool) → (b && false) ≡ false
and_false true = refl
and_false false = refl

true_ne : true ≡ false → ⊥
true_ne h = cc

pinned :
    (first : ℕ) (c : Cache)
    → c.tail ≡ first
    → is_zero (c.refcount first) ≡ false
    → goes_on c ≡ false
pinned first c t used = rw t (rw used (and_false (leb c.max_length c.current_length)))

length-snoc : (ys : List ℕ) (z : ℕ) → length (ys ++ (z ∷ [])) ≡ suc (length ys)
length-snoc ys z = omega (arith, length-append ys (z ∷ []))

free_last :
    (first z : ℕ) (ys : List ℕ) (c : Cache)
    → IsChain c (first ∷ ys ++ (z ∷ []))
    → goes_on c ≡ true
    → is_zero (c.refcount z) ≡ true
free_last first z ys c k h =
    let tail : c.tail ≡ z = k.tail ∙ last_of-snoc first z ys in
    ap (λ t. is_zero (c.refcount t)) (sym tail)
    ∙ (and_parts (leb c.max_length c.current_length) (is_zero (c.refcount c.tail)) h).1

-- Fuel for the entries behind the first is enough, where that one is in use.
pub evict-Evicted :
    (fuel first : ℕ) (xs : List ℕ) (c : Cache)
    → IsChain c (first ∷ xs)
    → c.current_length ≡ length xs
    → is_zero (c.refcount first) ≡ false
    → length xs ≤ fuel
    → Evicted first xs c (evict fuel c)
unfolding evict
evict-Evicted zero first [] c k n used enough = stopped first [] c k n (pinned first c k.tail used)
evict-Evicted zero first (x ∷ xs) c k n used enough = absurd (omega arith)
evict-Evicted (suc fuel) first xs c k n used enough = elim (Bool-cases (goes_on c)) [
  | inr e ↦ rw e (stopped first xs c k n e)
  | inl e ↦ elim (snoc_cases xs) [
    | inl i ↦
        let tail : c.tail ≡ first = k.tail ∙ ap (last_of first) i in
        absurd (true_ne (sym e ∙ pinned first c tail used))
    | inr (ys, z, i) ↦
        let k' : IsChain c (first ∷ ys ++ (z ∷ [])) = subst (λ l. IsChain c (first ∷ l)) i k in
        let size : length xs ≡ suc (length ys) = ap length i ∙ length-snoc ys z in
        let left : c.current_length - 1 ≡ length ys = omega arith in
        let later : Evicted first ys (shorter c) (evict fuel (shorter c)) =
          evict-Evicted fuel first ys (shorter c) (shorter-IsChain first z ys c k') left used
            (omega arith) in
        rw e (
          subst (λ l. Evicted first l c (evict fuel (shorter c))) (sym i)
            (more-Evicted first z ys c _ (free_last first z ys c k' e) (n ∙ size)
              (and_parts (leb c.max_length c.current_length) (is_zero (c.refcount c.tail)) e).0
              later))
  ]
]
