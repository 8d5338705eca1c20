-- ===== src/Playlists/Find.antt =====
-- Changes of the list of playlists, seen through `pl_find`, of src/playlists.c.
use fireflymediaserver.Prelude.{
  ℕ, suc, length, ◌≡◌, refl, Bool, false, ◌||◌, List, [], ◌∷◌, none, some, ◌==◌, ==_iff,
  if◌then◌else◌, arith,
}
use fireflymediaserver.Playlists.{Playlist, pl_find, with_found}

module _ {Tree : Type 0} where
  -- A playlist that is found has the id.
  pub id_of_find :
      (id : ℕ) (list : List (Playlist Tree)) (p : Playlist Tree)
      → pl_find id list ≡ some p
      → p.id ≡ id
  unfolding pl_find
  id_of_find id [] p h = cc
  id_of_find id (q ∷ list) p h = ground (arith, ==_iff q.id id, id_of_find id list p)

  -- A change of a playlist that keeps its id is seen at this id only.
  pub find-with_found :
      (j id : ℕ) (f : Playlist Tree → Playlist Tree) (list : List (Playlist Tree))
      (p : Playlist Tree)
      → pl_find id list ≡ some p
      → (f p).id ≡ id
      → pl_find j (with_found id f list) ≡ (if j == id then some (f p) else pl_find j list)
  unfolding pl_find with_found
  find-with_found j id f [] p h keep = cc
  find-with_found j id f (q ∷ list) p h keep =
      ground (arith, ==_iff q.id id, ==_iff q.id j, find-with_found j id f list p)

  -- The list has a playlist of this id.
  abbrev pub has_id : ℕ → List (Playlist Tree) → Bool
  has_id j [] = false
  has_id j (p ∷ list) = p.id == j || has_id j list

  pub find_has_id :
      (j : ℕ) (list : List (Playlist Tree)) → has_id j list ≡ false → pl_find j list ≡ none
  unfolding pl_find
  find_has_id j [] h = refl
  find_has_id j (p ∷ list) h = ground (arith, find_has_id j list)

  pub length_of_find :
      (j : ℕ) (list : List (Playlist Tree)) (p : Playlist Tree)
      → pl_find j list ≡ some p
      → (n : ℕ) × (length list ≡ suc n)
  unfolding pl_find
  length_of_find j [] p h = cc
  length_of_find j (q ∷ list) p h = (length list, refl)
