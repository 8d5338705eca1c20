-- ===== src/Playlists/Advise.antt =====
-- What src/playlists.c does when the database tells of a song: `pl_advise_add` and `pl_advise_del`.
-- Both walk the list; the calls that they make change only trees and counts, so the ids, types and
-- queries that the walk reads are those at its start.
use fireflymediaserver.Prelude.{ℕ, Bool, not, ◌&&◌, List, [], ◌∷◌, ◌==◌, if◌then◌else◌}
use fireflymediaserver.RedBlack.{RedBlack}
use fireflymediaserver.SmartParser.State.{Outcome, done, ◌>>=◌}
use fireflymediaserver.SmartParser.Media.{FieldValue}
use fireflymediaserver.Playlists.{
  Fetch, is_dynamic, Playlist, Playlists, matches, pl_contains_item, pl_add_playlist_item,
  pl_delete_playlist_item,
}

module _ (rb : RedBlack) where
  open rb use {Tree}

  -- One round of `pl_advise_add`: the three conditions in their order.
  unfoldable pub advise_one :
      Fetch
      → ℕ
      → (ℕ → FieldValue)
      → Bool
      → Playlist Tree
      → Playlists Tree
      → Outcome (Playlists Tree)
  unfolding matches pl_add_playlist_item pl_delete_playlist_item
  advise_one fetch song pmn is_edit ppl s =
      if not (ppl.id == 0) && not is_edit
      then done (pl_add_playlist_item rb fetch 1 song s).1
      else if is_dynamic ppl.type
      then (do
        chosen ← matches ppl.pt pmn
        if not is_edit && chosen
            then done (pl_add_playlist_item rb fetch ppl.id song s).1
            else if is_edit && not chosen
            then done (pl_delete_playlist_item rb ppl.id song s).1
            else done s)
      else done s

  unfoldable pub advise_all :
      Fetch
      → ℕ
      → (ℕ → FieldValue)
      → Bool
      → List (Playlist Tree)
      → Playlists Tree
      → Outcome (Playlists Tree)
  unfolding advise_one
  advise_all fetch song pmn is_edit [] s = done s
  advise_all fetch song pmn is_edit (ppl ∷ list) s = do
    s' ← advise_one fetch song pmn is_edit ppl s
    advise_all fetch song pmn is_edit list s'

  unfoldable pub pl_advise_add :
      Fetch → ℕ → (ℕ → FieldValue) → Playlists Tree → Outcome (Playlists Tree)
  unfolding pl_contains_item advise_all
  pl_advise_add fetch song pmn s = advise_all fetch song pmn (pl_contains_item rb 1 song s) s.list s

  unfoldable pub advise_del_one : ℕ → ℕ → Playlists Tree → Playlists Tree
  unfolding pl_contains_item pl_delete_playlist_item
  advise_del_one song id s =
      if pl_contains_item rb id song s then (pl_delete_playlist_item rb id song s).1 else s

  unfoldable pub advise_del_all : ℕ → List (Playlist Tree) → Playlists Tree → Playlists Tree
  unfolding advise_del_one
  advise_del_all song [] s = s
  advise_del_all song (ppl ∷ list) s = advise_del_all song list (advise_del_one song ppl.id s)

  unfoldable pub pl_advise_del : ℕ → Playlists Tree → Playlists Tree
  unfolding advise_del_all
  pl_advise_del song s = advise_del_all song s.list s
