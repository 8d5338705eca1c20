-- ===== src/Playlists/Calls.antt =====
-- The calls on whole playlists of src/playlists.c: `pl_update_smart`, `pl_add_playlist`,
-- `pl_edit_playlist`, `pl_delete_playlist` and `pl_get_playlist_count`. A playlist that was found, or
-- appended, is named by its id. `pl_save`, which writes a file, is left out.
use fireflymediaserver.Prelude.{
  ℕ, suc, bit_and, ◌+◌, ◌%◌, ◌^◌, Bool, true, false, ◌&&◌, [], ◌∷◌, ◌++◌, List, Option, none, some,
  ◌==◌, if◌then◌else◌, Bytes,
}
use fireflymediaserver.RedBlack.{RedBlack}
use fireflymediaserver.SmartParser.Token.{playlist}
use fireflymediaserver.SmartParser.State.{Outcome, done, ◌>>=◌, Env, ParseState, sp_init}
use fireflymediaserver.SmartParser.Parse.Expr.{sp_parse}
use fireflymediaserver.Playlists.{
  PlError, success, noclause, nopath, noname, query, namedup, dberror, notfound, badplid, pl_hidden,
  is_dynamic, is_file, Fetch, Playlist, Playlists, pl_find, with_found, change, without, has_title,
  pl_purge, update_songs,
}

-- The new playlist of `pl_add_playlist`, with all else zeroed.
abbrev pub new_playlist :
    {Tree : Type 0}
    → ℕ
    → Bytes
    → ℕ
    → Option Bytes
    → Option Bytes
    → ℕ
    → Option ParseState
    → Tree
    → Playlist Tree
new_playlist id name type q path index pt t = record {
  id = id;
  title = name;
  type = type;
  items = 0;
  query = if is_dynamic type then q else none;
  path = if is_file type then path else none;
  idx = if is_file type then index else 0;
  pt = pt;
  prb = t;
}

abbrev pub is_null : Option Bytes → Bool
is_null none = true
is_null (some b) = false

-- "if(type & PL_DYNAMIC)": the parsed query, or NULL for a query that does not parse.
unfoldable pub parse_query : Env → ℕ → Option Bytes → Outcome (Bool × Option ParseState)
unfolding sp_parse
parse_query env type none = done (true, none)
parse_query env type (some q) =
    if is_dynamic type
    then (do (ok, pt) ← sp_parse env q playlist sp_init; done (ok, some pt))
    else done (true, none)

module _ (rb : RedBlack) where
  open rb use {Tree, rbinit, rblist}

  -- For a playlist that is no smart one, nothing.
  unfoldable pub pl_update_smart : Fetch → ℕ → Playlists Tree → Outcome (PlError × Playlists Tree)
  unfolding pl_find with_found pl_purge update_songs
  pl_update_smart fetch id s = elim (pl_find id s.list) [
    | none ↦ done (success, s)
    | some ppl ↦
        let purged = change id (pl_purge rb) s in
        let songs : List ℕ = elim (pl_find 1 purged.list) [
          | none ↦ []
          | some library ↦ rblist library.prb
        ] in
        if is_dynamic ppl.type
        then update_songs rb fetch id ppl.pt songs purged
        else done (success, s)
  ]

  -- "pcurrent->next = NULL", after an update that failed: the new playlist stands last.
  unfoldable pub keep_or_undo : ℕ → PlError × Playlists Tree → PlError × Option ℕ × Playlists Tree
  unfolding without
  keep_or_undo id (success, s) = (success, some id, s)
  keep_or_undo id (error, s) = (dberror, some id, record s { list = without id s.list })

  -- The part of `pl_add_playlist` behind the checks: the list with the new playlist at its end.
  unfoldable pub append_playlist :
      Fetch
      → Bytes
      → ℕ
      → Option Bytes
      → Option Bytes
      → ℕ
      → Option ParseState
      → Playlists Tree
      → Outcome (PlError × Option ℕ × Playlists Tree)
  unfolding pl_update_smart keep_or_undo
  append_playlist fetch name type q path index pt s =
      let id = s.next_id % 2 ^ 32 in
      let s' : Playlists Tree = record {
        next_id = (s.next_id + 1) % 2 ^ 64;
        list = s.list ++ (new_playlist id name type q path index pt rbinit ∷ []);
      } in
      if is_dynamic type
      then (do r ← pl_update_smart fetch id s'; done (keep_or_undo id r))
      else done (success, some id, s')

  -- The end of `pl_load`, at start-up: a playlist that was read from a file, with the id that the file
  -- gives, is put last. `pl_id` is not touched.
  unfoldable pub append_loaded : Playlist Tree → Playlists Tree → Playlists Tree
  append_loaded ppl s = record s { list = s.list ++ (ppl ∷ []) }

  -- The part behind the query: no two playlists get the same title (PL_NO_DUPS).
  unfoldable pub add_parsed :
      Fetch
      → Bytes
      → ℕ
      → Option Bytes
      → Option Bytes
      → ℕ
      → Playlists Tree
      → Bool × Option ParseState
      → Outcome (PlError × Option ℕ × Playlists Tree)
  unfolding has_title append_playlist
  add_parsed fetch name type q path index s (ok, pt) =
      if ok
      then if has_title name s.list
        then done (namedup, none, s)
        else append_playlist fetch name type q path index pt s
      else done (query, none, s)

  -- `*id` is written where the result has one.
  unfoldable pub pl_add_playlist :
      Env
      → Fetch
      → Option Bytes
      → ℕ
      → Option Bytes
      → Option Bytes
      → ℕ
      → Playlists Tree
      → Outcome (PlError × Option ℕ × Playlists Tree)
  unfolding parse_query add_parsed
  pl_add_playlist env fetch none type q path index s = done (noname, none, s)
  pl_add_playlist env fetch (some []) type q path index s = done (noname, none, s)
  pl_add_playlist env fetch (some (c ∷ name)) type q path index s =
      if is_dynamic type && is_null q
      then done (noclause, none, s)
      else if is_file type && is_null path
      then done (nopath, none, s)
      else (do
        parsed ← parse_query env type q
        add_parsed fetch (c ∷ name) type q path index s parsed)

  -- "now update name if necessary".
  abbrev pub rename : ℕ → Option Bytes → Playlists Tree → Playlists Tree
  rename id none s = s
  rename id (some name) s = change id (λ p. record p { title = name }) s

  -- A new query, parsed: it replaces the old one, and the playlist is filled again.
  unfoldable pub replace_query :
      Fetch
      → ℕ
      → Option Bytes
      → Bool × ParseState
      → Playlists Tree
      → Outcome (PlError × Playlists Tree)
  unfolding pl_update_smart
  replace_query fetch id name (false, pt) s = done (query, s)
  replace_query fetch id name (true, pt) s = do
    (error, s') ← pl_update_smart fetch id (change id (λ p. record p { pt = some pt }) s)
    elim error [ success ↦ done (success, rename id name s') | other ↦ done (other, s') ]

  unfoldable pub edit_found :
      Env
      → Fetch
      → Option (Playlist Tree)
      → ℕ
      → Option Bytes
      → Option Bytes
      → Playlists Tree
      → Outcome (PlError × Playlists Tree)
  unfolding sp_parse replace_query
  edit_found env fetch none id name q s = done (notfound, s)
  edit_found env fetch (some ppl) id name none s = done (success, rename id name s)
  edit_found env fetch (some ppl) id name (some q) s =
      if is_dynamic ppl.type
      then (do r ← sp_parse env q playlist sp_init; replace_query fetch id name r s)
      else done (success, rename id name s)

  unfoldable pub pl_edit_playlist :
      Env
      → Fetch
      → ℕ
      → Option Bytes
      → Option Bytes
      → Playlists Tree
      → Outcome (PlError × Playlists Tree)
  unfolding pl_find edit_found
  pl_edit_playlist env fetch id none none s = done (success, s)
  pl_edit_playlist env fetch id name q s =
      if id == 1 then done (badplid, s) else edit_found env fetch (pl_find id s.list) id name q s

  unfoldable pub pl_delete_playlist : ℕ → Playlists Tree → PlError × Playlists Tree
  unfolding pl_find without
  pl_delete_playlist playlistid s = elim (pl_find playlistid s.list) [
    | none ↦ (notfound, s)
    | some ppl ↦ (success, record s { list = without playlistid s.list })
  ]

  unfoldable shown : List (Playlist Tree) → ℕ
  shown [] = 0
  shown (p ∷ list) = if bit_and p.type pl_hidden == 0 then suc (shown list) else shown list

  -- The playlists that are not hidden.
  unfoldable pub pl_get_playlist_count : Playlists Tree → ℕ
  unfolding shown
  pl_get_playlist_count s = shown s.list
