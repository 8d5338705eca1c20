-- ===== src/Playlists/Content.antt =====
-- What the playlists hold, seen through `pl_contains_item`, after a song is added, deleted or forgotten.
use fireflymediaserver.Prelude.{
  ℕ, ◌≡◌, inl, inr, refl, Bool, false, not, ◌&&◌, List, [], ◌∷◌, Option, none, some, ◌==◌, ==_iff,
  arith, Option-cases,
}
use fireflymediaserver.RedBlack.{RedBlack}
use fireflymediaserver.Playlists.{
  Playlist, Playlists, pl_find, drop_item, pl_contains_item, pl_delete_playlist_item,
}
use fireflymediaserver.Playlists.Find.{has_id, find-with_found, id_of_find}
use fireflymediaserver.Playlists.Advise.{advise_del_one, advise_del_all}

module _ (rb : RedBlack) where
  open rb use {Tree, rbfind, rbdelete, find-search, delete_none, find-delete}

  found_in : ℕ → Option (Playlist Tree) → Bool
  found_in k none = false
  found_in k (some p) = rbfind k p.prb

  -- A song that is deleted from a playlist is gone there, and all else stays.
  pub contains-delete :
      (j k id song : ℕ) (s : Playlists Tree)
      → pl_contains_item rb j k (pl_delete_playlist_item rb id song s).1
        ≡ (not (j == id && song == k) && pl_contains_item rb j k s)
  unfolding pl_contains_item pl_delete_playlist_item
  contains-delete j k id song s = elim (Option-cases (pl_find id s.list)) [
    | inl h ↦ ground (arith, h, ==_iff j id)
    | inr (p, h) ↦ elim (Option-cases (rbdelete song p.prb)) [
      | inl hd ↦ ground (arith, h, hd, delete_none song p.prb hd, ==_iff j id, ==_iff song k)
      | inr (t, hd) ↦ ground (
        arith,
        h,
        hd,
        find-with_found j id (drop_item rb t) s.list p h (id_of_find id s.list p h),
        ==_iff j id,
        ==_iff song k,
        find-delete k song p.prb t hd,
      )
    ]
  ]

  pub contains-advise_del_one :
      (j k song id : ℕ) (s : Playlists Tree)
      → pl_contains_item rb j k (advise_del_one rb song id s)
        ≡ (not (j == id && song == k) && pl_contains_item rb j k s)
  unfolding advise_del_one
  contains-advise_del_one j k song id s =
      ground (arith, ==_iff j id, ==_iff song k, contains-delete j k id song s)

  -- The walk over some playlists takes the song out of each of them.
  pub contains-advise_del_all :
      (j k song : ℕ) (list : List (Playlist Tree)) (s : Playlists Tree)
      → pl_contains_item rb j k (advise_del_all rb song list s)
        ≡ (not (has_id j list && song == k) && pl_contains_item rb j k s)
  unfolding advise_del_all
  contains-advise_del_all j k song [] s = refl
  contains-advise_del_all j k song (p ∷ list) s = ground (
    arith,
    ==_iff j p.id,
    ==_iff p.id j,
    contains-advise_del_one j k song p.id s,
    contains-advise_del_all j k song list (advise_del_one rb song p.id s),
  )
