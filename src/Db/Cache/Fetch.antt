-- ===== src/Db/Cache/Fetch.antt =====
-- Fetches of songs through the cache of src/db.c, and runs of them.
use fireflymediaserver.Prelude.{
  ℕ, zero, suc, ◌≡◌, ◌≤◌, refl, sym, ap, ◌∙◌, subst, false, List, [], ◌∷◌, ◌++◌, Option, none, some,
  ◌==◌, ==_iff, if◌then◌else◌, arith, length, if_cases, ◌⊎◌, inl, inr,
}
use fireflymediaserver.Prelude.Int.{ℤ, pos, ◌+ℤ◌}
use fireflymediaserver.Db.Cache.{
  cache_list, Cache, find_from, db_cache_find, recount, db_cache_promote, db_cache_fetch,
}
use fireflymediaserver.Db.Cache.Chain.{Links, Apart, Distinct, IsChain}
use fireflymediaserver.Db.Cache.Calls.{Inserted, db_cache_insert_lem}
use fireflymediaserver.Db.Cache.Promote.{db_cache_promote_lem}

-- No entry of the chain has the id.
unfoldable pub Lacks : (ℕ → ℕ) → ℕ → List ℕ → Type 0
Lacks ids id [] = Unit
Lacks ids id (x ∷ xs) = ((id == ids x) ≡ false) × Lacks ids id xs

-- The walk finds the first entry with the id, or NULL.
abbrev pub Finds : (ℕ → ℕ) → ℕ → List ℕ → ℕ → Type 0
Finds ids id xs r =
    ((r ≡ 0) × Lacks ids id xs)
    ⊎ ((ys : List ℕ) × (zs : List ℕ) × (xs ≡ ys ++ (r ∷ zs)) × (ids r ≡ id) × Lacks ids id ys)

unfoldable NonNull : List ℕ → Type 0
NonNull [] = Unit
NonNull (x ∷ xs) = ((x == 0) ≡ false) × NonNull xs

later-Finds :
    (ids : ℕ → ℕ) (id x r : ℕ) (xs : List ℕ)
    → (id == ids x) ≡ false
    → Finds ids id xs r
    → Finds ids id (x ∷ xs) r
unfolding Lacks
later-Finds ids id x r xs h (inl (e, l)) = inl (e, (h, l))
later-Finds ids id x r xs h (inr (ys, zs, e, i, l)) = inr (x ∷ ys, zs, ap (◌∷◌ x) e, i, (h, l))

walk :
    (fuel id x : ℕ) (c : Cache)
    → (x == 0) ≡ false
    → find_from (suc fuel) id x c ≡ (if id == c.id x then x else find_from fuel id (c.next x) c)
unfolding find_from
walk fuel id x c nx = rw nx refl

find_from-Finds :
    (fuel id p : ℕ) (xs : List ℕ) (c : Cache)
    → length xs ≤ fuel
    → NonNull xs
    → Links c.next c.prev p xs
    → Finds c.id id xs (find_from fuel id (c.next p) c)
unfolding Links NonNull Lacks
find_from-Finds zero id p [] c h n l = unfold find_from in inl (refl, tt)
find_from-Finds (suc fuel) id p [] c h n l = unfold find_from in rw l (inl (refl, tt))
find_from-Finds zero id p (x ∷ xs) c h n l = absurd (omega arith)
find_from-Finds (suc fuel) id p (x ∷ xs) c h (nx, ns) (e, q, l) =
    let later : Finds c.id id xs (find_from fuel id (c.next x) c) =
      find_from-Finds fuel id x xs c (omega arith) ns l in
    let step : find_from (suc fuel) id (c.next p) c
        ≡ (if id == c.id x then x else find_from fuel id (c.next x) c) =
      ap (λ n. find_from (suc fuel) id n c) e ∙ walk fuel id x c nx in
    rw step (
      if_cases (Finds c.id id (x ∷ xs)) (id == c.id x)
        (λ i. inr ([], xs, refl, sym ((==_iff id (c.id x)).0 i), tt))
        (λ i. later-Finds c.id id x _ xs i later))

NonNull-chain : (xs : List ℕ) → Apart 0 xs → NonNull xs
unfolding Apart NonNull
NonNull-chain [] u = tt
NonNull-chain (x ∷ xs) (h, later) = ((ground (arith, h)), NonNull-chain xs later)

null-Apart : (xs : List ℕ) → Distinct (0 ∷ cache_list ∷ xs) → Apart 0 xs
unfolding Distinct Apart
null-Apart xs d = d.0.1

find-Finds :
    (fuel id : ℕ) (c : Cache) (xs : List ℕ)
    → IsChain c xs
    → length xs ≤ fuel
    → Finds c.id id xs (db_cache_find fuel id c)
unfolding db_cache_find
find-Finds fuel id c xs k h =
    find_from-Finds fuel id cache_list xs c h (NonNull-chain xs (null-Apart xs k.distinct)) k.links

-- The cache holds a chain, whose length is counted.
abbrev pub Sound : Cache → Type 0
Sound c = (xs : List ℕ) × IsChain c xs × (c.current_length ≡ length xs)

pub recount-IsChain :
    (p : ℕ) (f : ℤ → ℤ) (c : Cache) (xs : List ℕ) → IsChain c xs → IsChain (recount p f c) xs
recount-IsChain p f c xs k = record { links = k.links; distinct = k.distinct; tail = k.tail }

-- An address that malloc may give for the entry of a song that is loaded.
abbrev pub FreshFor : Option ℕ → List ℕ → Type 0
FreshFor none xs = Unit
FreshFor (some a) xs = Apart a (0 ∷ cache_list ∷ xs)

promote_length : (p : ℕ) (c : Cache) → (db_cache_promote p c).current_length ≡ c.current_length
unfolding db_cache_promote
promote_length p c =
    if_cases (λ (c' : Cache). c'.current_length ≡ c.current_length) (p == c.next cache_list)
      (λ e. refl) (λ e. refl)

length-moved : (p : ℕ) (ys zs : List ℕ) → length (ys ++ (p ∷ zs)) ≡ length (p ∷ ys ++ zs)
length-moved p [] zs = refl
length-moved p (y ∷ ys) zs = ap suc (length-moved p ys zs)

-- What a fetch gives for the chain `xs`: the first entry with the id, moved to the front with the others
-- in their order; or, where there is none, the one that was loaded, at the front of what is kept; or
-- NULL and the cache as it was.
abbrev pub Fetched : ℕ → Option ℕ → List ℕ → Cache → ℕ × Cache → Type 0
Fetched id loaded xs c (r, c') =
    ((ys : List ℕ) × (zs : List ℕ) × (xs ≡ ys ++ (r ∷ zs))
      × (c.id r ≡ id)
      × Lacks c.id id ys
      × IsChain c' (r ∷ ys ++ zs)
      × (c'.current_length ≡ length (r ∷ ys ++ zs)))
    ⊎ ((Lacks c.id id xs × (loaded ≡ some r) × Inserted r xs c c')
        ⊎ (Lacks c.id id xs × (loaded ≡ none) × (r ≡ 0) × (c' ≡ c)))

not_null_inside : (ys zs : List ℕ) (r : ℕ) → NonNull (ys ++ (r ∷ zs)) → (r == 0) ≡ false
unfolding NonNull
not_null_inside [] zs r h = h.0
not_null_inside (y ∷ ys) zs r h = not_null_inside ys zs r h.1

fetch_miss :
    (fuel id : ℕ) (loaded : Option ℕ) (c : Cache) (xs : List ℕ)
    → IsChain c xs
    → c.current_length ≡ length xs
    → FreshFor loaded xs
    → length xs ≤ fuel
    → db_cache_find fuel id c ≡ 0
    → Lacks c.id id xs
    → Fetched id loaded xs c (db_cache_fetch fuel id loaded c)
unfolding db_cache_fetch
fetch_miss fuel id none c xs k n fresh h e lacks =
    rw (db_cache_fetch, e) (inr (inr (lacks, refl, refl, refl)))
fetch_miss fuel id (some a) c xs k n fresh h e lacks =
    rw (db_cache_fetch, e) (inr (inl (lacks, refl, db_cache_insert_lem fuel a id c xs k n fresh h)))

fetch_hit :
    (fuel id : ℕ) (loaded : Option ℕ) (c : Cache) (xs ys zs : List ℕ)
    → IsChain c xs
    → c.current_length ≡ length xs
    → xs ≡ ys ++ (db_cache_find fuel id c ∷ zs)
    → c.id (db_cache_find fuel id c) ≡ id
    → Lacks c.id id ys
    → Fetched id loaded xs c (db_cache_fetch fuel id loaded c)
unfolding db_cache_fetch
fetch_hit fuel id loaded c xs ys zs k n e i l =
    let r : ℕ = db_cache_find fuel id c in
    let inside : NonNull (ys ++ (r ∷ zs)) =
      subst NonNull e (NonNull-chain xs (null-Apart xs k.distinct)) in
    rw (db_cache_fetch, not_null_inside ys zs r inside)
      (inl (
        ys,
        zs,
        e,
        i,
        l,
        recount-IsChain r (λ n. n +ℤ pos 1) (db_cache_promote r c) (r ∷ ys ++ zs)
            (db_cache_promote_lem c r ys zs (subst (IsChain c) e k)),
        promote_length r c ∙ n ∙ ap length e ∙ length-moved r ys zs,
      ))

-- With fuel for the chain, and an address for a new entry that no entry has: a fetch finds the first
-- entry with the id and moves it to the front, the others keeping their order; or, where no entry has
-- the id, it puts the entry of the song that was loaded in front, as db_cache_insert does, or returns
-- NULL and leaves the cache as it was where none was loaded.
pub db_cache_fetch_lem :
    (fuel id : ℕ) (loaded : Option ℕ) (c : Cache) (xs : List ℕ)
    → IsChain c xs
    → c.current_length ≡ length xs
    → FreshFor loaded xs
    → length xs ≤ fuel
    → Fetched id loaded xs c (db_cache_fetch fuel id loaded c)
db_cache_fetch_lem fuel id loaded c xs k n fresh h = elim (find-Finds fuel id c xs k h) [
  | inl (e, lacks) ↦ fetch_miss fuel id loaded c xs k n fresh h e lacks
  | inr (ys, zs, e, i, l) ↦ fetch_hit fuel id loaded c xs ys zs k n e i l
]
