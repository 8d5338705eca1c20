-- ===== src/Playlists.antt =====
-- The playlists of src/playlists.c: the list `pl_list` with the next id, and the calls that change it.
-- The locks are left out, as the file has them commented out.
pub mod Calls
pub mod Advise
pub mod Find
pub mod Content
pub mod NewSong
pub mod Smart
pub mod Ids
pub mod Edit
mod Tests
use fireflymediaserver.Prelude.{
  ℕ, zero, suc, ◌+◌, ◌-◌, ◌%◌, ◌^◌, Bool, true, false, not, ◌&&◌, ◌||◌, List, [], ◌∷◌, ◌++◌, Option,
  none, some, ◌==◌, if◌then◌else◌, length, Bytes, bit_and,
}
use fireflymediaserver.CString.{eq_nocase}
use fireflymediaserver.RedBlack.{RedBlack}
use fireflymediaserver.SmartParser.Token.{playlist}
use fireflymediaserver.SmartParser.State.{Outcome, done, bad_read, ◌>>=◌, Env, ParseState, sp_init}
use fireflymediaserver.SmartParser.Media.{FieldValue}
use fireflymediaserver.SmartParser.Parse.Expr.{sp_parse}
use fireflymediaserver.SmartParser.Match.{sp_matches_native}

-- PL_E_SUCCESS and the other codes, with the places of `pl_error_list`.
pub data PlError : Type 0 where
  success noclause nopath noname malloc query namedup dberror notfound : PlError
  staticonly badsongid rbtree badplid invalid : PlError

abbrev pub pl_dynamic : ℕ
pl_dynamic = 0x20

abbrev pub pl_staticfile : ℕ
pl_staticfile = 0x12

abbrev pub pl_staticxml : ℕ
pl_staticxml = 0x13

abbrev pub pl_hidden : ℕ
pl_hidden = 0x40

abbrev pub is_dynamic : ℕ → Bool
is_dynamic type = not (bit_and type pl_dynamic == 0)

abbrev pub is_file : ℕ → Bool
is_file type = type == pl_staticfile || type == pl_staticxml

-- `db_fetch_item_nolock`: the record of a song id.
abbrev pub Fetch : Type 0
Fetch = ℕ → Option (ℕ → FieldValue)

-- PLAYLIST with its PLAYLIST_NATIVE. `db_timestamp` is left out.
pub record Playlist (Tree : Type 0) : Type 0 where
  pub id : ℕ
  pub title : Bytes
  pub type : ℕ
  pub items : ℕ
  pub query : Option Bytes
  pub path : Option Bytes
  pub idx : ℕ
  pub pt : Option ParseState
  pub prb : Tree

-- `pl_id`, and the playlists from `pl_list.next` on.
pub record Playlists (Tree : Type 0) : Type 0 where
  pub next_id : ℕ
  pub list : List (Playlist Tree)

-- `sp_matches_native(ppl->pt, pmn)`.
unfoldable pub matches : Option ParseState → (ℕ → FieldValue) → Outcome Bool
unfolding sp_matches_native
matches none song = bad_read
matches (some pt) song = sp_matches_native pt song

module _ {Tree : Type 0} where
  unfoldable pub pl_find : ℕ → List (Playlist Tree) → Option (Playlist Tree)
  pl_find id [] = none
  pl_find id (p ∷ list) = if p.id == id then some p else pl_find id list

  -- A change to the playlist that `pl_find` gives.
  unfoldable pub with_found :
      ℕ → (Playlist Tree → Playlist Tree) → List (Playlist Tree) → List (Playlist Tree)
  with_found id f [] = []
  with_found id f (p ∷ list) = if p.id == id then f p ∷ list else p ∷ with_found id f list

  abbrev pub change : ℕ → (Playlist Tree → Playlist Tree) → Playlists Tree → Playlists Tree
  change id f s = record s { list = with_found id f s.list }

  -- "ppl_prev->next = ppl->next".
  unfoldable pub without : ℕ → List (Playlist Tree) → List (Playlist Tree)
  without id [] = []
  without id (p ∷ list) = if p.id == id then list else p ∷ without id list

  -- The walk that looks for a title.
  unfoldable pub has_title : Bytes → List (Playlist Tree) → Bool
  unfolding eq_nocase
  has_title name [] = false
  has_title name (p ∷ list) = eq_nocase name p.title || has_title name list

module _ (rb : RedBlack) where
  open rb use {Tree, rbinit, rbfind, rbsearch, rbdelete, rblist}

  unfoldable pub pl_contains_item : ℕ → ℕ → Playlists Tree → Bool
  unfolding pl_find
  pl_contains_item pl_id song_id s = elim (pl_find pl_id s.list) [
    | none ↦ false
    | some p ↦ rbfind song_id p.prb
  ]

  -- `rbsearch`, and one more item whether or not the song was there.
  abbrev pub put_item : ℕ → Playlist Tree → Playlist Tree
  put_item songid p = record p { prb = rbsearch songid p.prb; items = (p.items + 1) % 2 ^ 32 }

  unfoldable pub pl_add_playlist_item_nolock : Fetch → Playlist Tree → ℕ → PlError × Playlist Tree
  pl_add_playlist_item_nolock fetch ppl songid = elim (fetch songid) [
    | none ↦ (badsongid, ppl)
    | some pmn ↦ (success, put_item songid ppl)
  ]

  unfoldable pub pl_add_playlist_item : Fetch → ℕ → ℕ → Playlists Tree → PlError × Playlists Tree
  unfolding pl_find with_found pl_add_playlist_item_nolock
  pl_add_playlist_item fetch playlistid songid s = elim (pl_find playlistid s.list) [
    | none ↦ (notfound, s)
    | some ppl ↦
        let (result, ppl') = pl_add_playlist_item_nolock fetch ppl songid in
        (result, change playlistid (λ p. ppl') s)
  ]

  abbrev pub drop_item : Tree → Playlist Tree → Playlist Tree
  drop_item t p = record p { prb = t; items = (p.items + 2 ^ 32 - 1) % 2 ^ 32 }

  unfoldable pub pl_delete_playlist_item : ℕ → ℕ → Playlists Tree → PlError × Playlists Tree
  unfolding pl_find with_found
  pl_delete_playlist_item playlistid songid s = elim (pl_find playlistid s.list) [
    | none ↦ (notfound, s)
    | some ppl ↦ elim (rbdelete songid ppl.prb) [
      | none ↦ (badsongid, s)
      | some t ↦ (success, change playlistid (drop_item t) s)
    ]
  ]

  -- The loop of `pl_purge`: the first key is looked up and deleted until there is none. A round
  -- deletes a key, so the number of keys is fuel enough.
  unfoldable pub purge_tree : ℕ → Tree → Tree
  purge_tree zero t = t
  purge_tree (suc fuel) t = elim (rblist t) [
    | [] ↦ t
    | k ∷ keys ↦ elim (rbdelete k t) [ none ↦ purge_tree fuel t | some t' ↦ purge_tree fuel t' ]
  ]

  unfoldable pub pl_purge : Playlist Tree → Playlist Tree
  unfolding purge_tree
  pl_purge p = record p { prb = purge_tree (length (rblist p.prb)) p.prb; items = 0 }

  -- The loop of `pl_update_smart` over the songs of the library, for the playlist `id`.
  unfoldable pub update_songs :
      Fetch → ℕ → Option ParseState → List ℕ → Playlists Tree → Outcome (PlError × Playlists Tree)
  unfolding matches pl_add_playlist_item
  update_songs fetch id pt [] s = done (success, s)
  update_songs fetch id pt (song_id ∷ songs) s =
      let added = pl_add_playlist_item fetch id song_id s in
      let rest = update_songs fetch id pt songs in
      elim (fetch song_id) [
        | none ↦ done (dberror, s)
        | some pmn ↦ do
          chosen ← matches pt pmn
          if chosen
              then elim added.0 [ success ↦ rest added.1 | error ↦ done (error, added.1) ]
              else rest s
      ]
