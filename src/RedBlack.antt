-- ===== src/RedBlack.antt =====
-- What src/playlists.c and src/db.c rely on of libredblack (src/redblack.c, another project's code): a
-- tree of `uint32_t` keys that are compared by number.
pub mod Lists
use fireflymediaserver.Prelude.{
  ℕ, ◌<◌, ◌≡◌, Bool, true, false, not, ◌&&◌, ◌||◌, List, [], ◌∷◌, Option, none, some, ◌==◌, length,
}

abbrev pub contains : ℕ → List ℕ → Bool
contains k [] = false
contains k (x ∷ xs) = x == k || contains k xs

-- `rblist` is the run of `rbreadlist` after `rbopenlist`. The key of RB_LUFIRST stands first there.
pub record RedBlack : Type 1 where
  pub Tree : Type 0
  pub rbinit : Tree
  pub rbfind : ℕ → Tree → Bool
  pub rbsearch : ℕ → Tree → Tree
  pub rbdelete : ℕ → Tree → Option Tree
  pub rblist : Tree → List ℕ
  -- A new tree is empty.
  pub list-init : rblist rbinit ≡ []
  -- A key is found when it is among the listed ones.
  pub find-list : (k : ℕ) (t : Tree) → rbfind k t ≡ contains k (rblist t)
  -- `rbsearch` puts the key in where it is not found.
  pub find-search : (j k : ℕ) (t : Tree) → rbfind j (rbsearch k t) ≡ (k == j || rbfind j t)
  -- `rbdelete` returns NULL where the key is not found, and else takes it out.
  pub delete_none : (k : ℕ) (t : Tree) → rbdelete k t ≡ none → rbfind k t ≡ false
  pub delete_some : (k : ℕ) (t t' : Tree) → rbdelete k t ≡ some t' → rbfind k t ≡ true
  pub find-delete :
      (j k : ℕ) (t t' : Tree) → rbdelete k t ≡ some t' → rbfind j t' ≡ (not (k == j) && rbfind j t)
  pub length-delete :
      (k : ℕ) (t t' : Tree) → rbdelete k t ≡ some t' → length (rblist t') < length (rblist t)
