-- ===== src/Playlists/Ids.antt =====
-- The ids of the playlists of src/playlists.c: lists of playlists whose ids are distinct.
pub mod Same
pub mod Reachable
pub mod Undo
use fireflymediaserver.Prelude.{
  ℕ, zero, suc, ◌+◌, ◌%◌, ◌^◌, ◌≤◌, ◌<◌, ◌≡◌, ◌≢◌, ◌⊎◌, inl, inr, refl, sym, ◌∙◌, ap, Bool, true,
  false, not, ◌&&◌, ◌||◌, List, [], ◌∷◌, ◌++◌, Option, none, some, ◌==◌, ==_iff, ltb, if◌then◌else◌,
  arith, Bool-cases, Option-cases, subst, length, Bytes,
}
use fireflymediaserver.RedBlack.{RedBlack, contains}
use fireflymediaserver.SmartParser.State.{Outcome, done, done_bind, ◌>>=◌, ParseState, Env}
use fireflymediaserver.SmartParser.Media.{FieldValue}
use fireflymediaserver.SmartParser.Token.{playlist}
use fireflymediaserver.SmartParser.State.{sp_init}
use fireflymediaserver.SmartParser.Parse.Expr.{sp_parse}
use fireflymediaserver.Playlists.{
  PlError, success, Fetch, Playlist, Playlists, matches, is_dynamic, pl_find, with_found, without,
  change, put_item, drop_item, pl_contains_item, pl_add_playlist_item, pl_add_playlist_item_nolock,
  pl_delete_playlist_item, purge_tree, pl_purge, update_songs, has_title,
}
use fireflymediaserver.Playlists.Find.{id_of_find}
use fireflymediaserver.Playlists.Calls.{
  new_playlist, pl_update_smart, append_playlist, add_parsed, keep_or_undo, pl_add_playlist,
  pl_edit_playlist, edit_found, replace_query, parse_query, rename, pl_delete_playlist,
}
use fireflymediaserver.Playlists.Advise.{
  advise_one, advise_all, pl_advise_add, advise_del_one, advise_del_all, pl_advise_del,
}

abbrev pub distinct_below : ℕ → List ℕ → Bool
distinct_below n [] = true
distinct_below n (x ∷ xs) = not (contains x xs) && ltb x n && distinct_below n xs

abbrev pub distinct : List ℕ → Bool
distinct [] = true
distinct (x ∷ xs) = not (contains x xs) && distinct xs

module _ {Tree : Type 0} where
  abbrev pub ids : List (Playlist Tree) → List ℕ
  ids [] = []
  ids (p ∷ list) = p.id ∷ ids list

  -- The ids are distinct, and below the next one.
  abbrev pub IdsOk : Playlists Tree → Type 0
  IdsOk s = distinct_below s.next_id (ids s.list) ≡ true

  abbrev pub SameIds : Playlists Tree → Playlists Tree → Type 0
  SameIds s s' = (ids s'.list ≡ ids s.list) × (s'.next_id ≡ s.next_id)

  pub same_trans : (s s' s'' : Playlists Tree) → SameIds s s' → SameIds s' s'' → SameIds s s''
  same_trans s s' s'' (a, b) (c, d) = (c ∙ a, d ∙ b)

  pub same-IdsOk : (s s' : Playlists Tree) → SameIds s s' → IdsOk s → IdsOk s'
  same-IdsOk s s' (a, b) h = rw (a, b) h

  pub ids-with_found :
      (id : ℕ) (f : Playlist Tree → Playlist Tree) (list : List (Playlist Tree))
      → ((p : Playlist Tree) → p.id ≡ id → (f p).id ≡ id)
      → ids (with_found id f list) ≡ ids list
  unfolding with_found
  ids-with_found id f [] keep = refl
  ids-with_found id f (p ∷ list) keep =
      ground (arith, ==_iff p.id id, keep p, ids-with_found id f list keep)

  pub change-same :
      (id : ℕ) (f : Playlist Tree → Playlist Tree) (s : Playlists Tree)
      → ((p : Playlist Tree) → p.id ≡ id → (f p).id ≡ id)
      → SameIds s (change id f s)
  change-same id f s keep = (ids-with_found id f s.list keep, refl)

  pub find_no_id :
      (id : ℕ) (list : List (Playlist Tree))
      → contains id (ids list) ≡ false
      → pl_find id list ≡ none
  unfolding pl_find
  find_no_id id [] h = refl
  find_no_id id (p ∷ list) h = ground (arith, find_no_id id list)

  pub contains-ids-without :
      (j id : ℕ) (list : List (Playlist Tree))
      → contains j (ids list) ≡ false
      → contains j (ids (without id list)) ≡ false
  unfolding without
  contains-ids-without j id [] h = h
  contains-ids-without j id (p ∷ list) h = ground (arith, contains-ids-without j id list)

  pub ids-without :
      (n id : ℕ) (list : List (Playlist Tree))
      → distinct_below n (ids list) ≡ true
      → distinct_below n (ids (without id list)) ≡ true
  unfolding without
  ids-without n id [] h = refl
  ids-without n id (p ∷ list) h =
      ground (arith, ids-without n id list, contains-ids-without p.id id list)

  pub contains-ids-append :
      (j : ℕ) (p : Playlist Tree) (list : List (Playlist Tree))
      → contains j (ids (list ++ (p ∷ []))) ≡ (contains j (ids list) || p.id == j)
  contains-ids-append j p [] = ground arith
  contains-ids-append j p (q ∷ list) = ground (arith, contains-ids-append j p list)

  pub ids-append-below :
      (n : ℕ) (p : Playlist Tree) (list : List (Playlist Tree))
      → p.id < n
      → contains p.id (ids list) ≡ false
      → distinct_below n (ids list) ≡ true
      → distinct_below n (ids (list ++ (p ∷ []))) ≡ true
  ids-append-below n p [] lt e h = ground arith
  ids-append-below n p (q ∷ list) lt e h =
      ground
        (arith, ==_iff p.id q.id, ids-append-below n p list lt, contains-ids-append q.id p list)

  pub ids-append :
      (n : ℕ) (p : Playlist Tree) (list : List (Playlist Tree))
      → p.id ≡ n
      → distinct_below n (ids list) ≡ true
      → distinct_below (n + 1) (ids (list ++ (p ∷ []))) ≡ true
  ids-append n p [] e h = ground arith
  ids-append n p (q ∷ list) e h =
      ground (arith, ==_iff p.id q.id, ids-append n p list e, contains-ids-append q.id p list)
