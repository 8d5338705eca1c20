-- ===== src/Db/Cache/Chain.antt =====
-- Chains of entries with links both ways, as the song cache of src/db.c has them.
use fireflymediaserver.Prelude.{ℕ, ◌≡◌, sym, ◌∙◌, List, [], ◌∷◌, ◌++◌, arith}
use fireflymediaserver.Db.Cache.{cache_list, Cache, assign}

-- The chain of the entries behind `p`, down to NULL.
unfoldable pub Links : (ℕ → ℕ) → (ℕ → ℕ) → ℕ → List ℕ → Type 0
Links next prev p [] = next p ≡ 0
Links next prev p (x ∷ xs) = (next p ≡ x) × (prev x ≡ p) × Links next prev x xs

abbrev pub last_of : ℕ → List ℕ → ℕ
last_of p [] = p
last_of p (x ∷ xs) = last_of x xs

unfoldable pub Apart : ℕ → List ℕ → Type 0
Apart a [] = Unit
Apart a (x ∷ xs) = (a ≡ x → ⊥) × Apart a xs

unfoldable pub Distinct : List ℕ → Type 0
unfolding Apart
Distinct [] = Unit
Distinct (x ∷ xs) = Apart x xs × Distinct xs

abbrev pub tail_of : List ℕ → ℕ
tail_of [] = 0
tail_of (x ∷ xs) = last_of x xs

-- The cache holds the entries in this order.
pub record IsChain (c : Cache) (xs : List ℕ) : Type 0 where
  pub links : Links c.next c.prev cache_list xs
  pub distinct : Distinct (0 ∷ cache_list ∷ xs)
  pub tail : c.tail ≡ tail_of xs

pub assign_same : (a v : ℕ) (f : ℕ → ℕ) → assign a v f a ≡ v
unfolding assign
assign_same a v f = ground arith

pub assign_other : (a v b : ℕ) (f : ℕ → ℕ) → (b ≡ a → ⊥) → assign a v f b ≡ f b
unfolding assign
assign_other a v b f h = ground arith

pub Apart-append : (a : ℕ) (xs ys : List ℕ) → Apart a (xs ++ ys) → Apart a xs × Apart a ys
unfolding Apart
Apart-append a [] ys h = (tt, h)
Apart-append a (x ∷ xs) ys (h, later) = let (l, r) = Apart-append a xs ys later in ((h, l), r)

pub append-Apart : (a : ℕ) (xs ys : List ℕ) → Apart a xs → Apart a ys → Apart a (xs ++ ys)
unfolding Apart
append-Apart a [] ys h i = i
append-Apart a (x ∷ xs) ys (h, later) i = (h, append-Apart a xs ys later i)

-- An entry taken out of a chain is apart from the rest.
pub Distinct-middle :
    (xs ys : List ℕ) (p : ℕ) → Distinct (xs ++ (p ∷ ys)) → Apart p (xs ++ ys) × Distinct (xs ++ ys)
unfolding Distinct
Distinct-middle [] ys p d = d
Distinct-middle (x ∷ xs) ys p (a, d) =
    let (apart, rest) = Distinct-middle xs ys p d in
    let (front, (differs, behind)) = Apart-append x xs (p ∷ ys) a in
    ((λ e. differs (sym e), apart), (append-Apart x xs ys front behind, rest))

pub Distinct-front : (xs ys : List ℕ) → Distinct (xs ++ ys) → Distinct xs
unfolding Distinct
Distinct-front [] ys d = tt
Distinct-front (x ∷ xs) ys (a, d) = ((Apart-append x xs ys a).0, Distinct-front xs ys d)

-- A link that is set elsewhere leaves a chain as it was.
pub Links-next :
    (a v : ℕ) (next prev : ℕ → ℕ) (p : ℕ) (xs : List ℕ)
    → Apart a (p ∷ xs)
    → Links next prev p xs
    → Links (assign a v next) prev p xs
unfolding Links Apart
Links-next a v next prev p [] (h, u) l = assign_other a v p next (λ e. h (sym e)) ∙ l
Links-next a v next prev p (x ∷ xs) (h, later) (n, q, l) =
    (assign_other a v p next (λ e. h (sym e)) ∙ n, q, Links-next a v next prev x xs later l)

pub Links-prev :
    (a v : ℕ) (next prev : ℕ → ℕ) (p : ℕ) (xs : List ℕ)
    → Apart a xs
    → Links next prev p xs
    → Links next (assign a v prev) p xs
unfolding Links Apart
Links-prev a v next prev p [] u l = l
Links-prev a v next prev p (x ∷ xs) (h, later) (n, q, l) =
    (n, assign_other a v x prev (λ e. h (sym e)) ∙ q, Links-prev a v next prev x xs later l)

-- A new entry in front of a chain that is not empty.
pub Links-first :
    (next prev : ℕ → ℕ) (head a x : ℕ) (xs : List ℕ)
    → Apart a (head ∷ x ∷ xs)
    → Apart head (x ∷ xs)
    → Apart x xs
    → Links next prev head (x ∷ xs)
    → Links (assign head a (assign a x next)) (assign x a (assign a head prev)) head (a ∷ x ∷ xs)
unfolding Links Apart
Links-first next prev head a x xs (not_head, (not_x, apart)) from_head from_x (n, q, l) = (
  assign_same head a (assign a x next),
  (assign_other x a a (assign a head prev) not_x ∙ assign_same a head prev),
  (
    assign_other head a a (assign a x next) not_head ∙ assign_same a x next,
    assign_same x a (assign a head prev),
    Links-next head a (assign a x next) _ x xs from_head (
        Links-next a x next _ x xs (not_x, apart)
          (Links-prev x a next _ x xs from_x (Links-prev a head next prev x xs apart l))),
  ),
)
