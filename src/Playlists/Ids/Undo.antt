-- ===== src/Playlists/Ids/Undo.antt =====
-- What `pl_add_playlist` of src/playlists.c leaves where it fails.
use fireflymediaserver.Prelude.{
  ℕ, ◌+◌, ◌%◌, ◌^◌, ◌<◌, ◌≡◌, ◌≢◌, inl, inr, refl, ◌∙◌, Bool, false, List, [], ◌∷◌, ◌++◌, Option,
  none, some, ==_iff, arith, Option-cases, Bytes,
}
use fireflymediaserver.RedBlack.{RedBlack, contains}
use fireflymediaserver.SmartParser.State.{Outcome, done, done_bind, ◌>>=◌, ParseState, Env}
use fireflymediaserver.Playlists.{
  PlError, success, Fetch, Playlist, Playlists, is_dynamic, pl_find, with_found, without, change,
  put_item, pl_add_playlist_item, pl_add_playlist_item_nolock, pl_purge, update_songs,
}
use fireflymediaserver.Playlists.Find.{id_of_find}
use fireflymediaserver.Playlists.Calls.{
  new_playlist, pl_update_smart, append_playlist, add_parsed, keep_or_undo, pl_add_playlist,
  parse_query,
}
use fireflymediaserver.Playlists.Ids.{ids}
use fireflymediaserver.Prelude.{if_gives}

module _ {Tree : Type 0} where
  pub without-with_found :
      (id : ℕ) (f : Playlist Tree → Playlist Tree) (list : List (Playlist Tree))
      → ((p : Playlist Tree) → p.id ≡ id → (f p).id ≡ id)
      → without id (with_found id f list) ≡ without id list
  unfolding without with_found
  without-with_found id f [] keep = refl
  without-with_found id f (p ∷ list) keep =
      ground (arith, ==_iff p.id id, ==_iff (f p).id id, keep p, without-with_found id f list keep)

  without-append :
      (p : Playlist Tree) (list : List (Playlist Tree))
      → contains p.id (ids list) ≡ false
      → without p.id (list ++ (p ∷ [])) ≡ list
  unfolding without
  without-append p [] h = ground (arith, ==_iff p.id p.id)
  without-append p (q ∷ list) h = ground (arith, ==_iff q.id p.id, without-append p list)

module _ (rb : RedBlack) where
  open rb use {Tree, rbinit, rbfind, rbdelete, rblist}

  -- All but the playlist `id` stay as they are.
  abbrev pub SameOthers : ℕ → Playlists Tree → Playlists Tree → Type 0
  SameOthers id s s' = without id s'.list ≡ without id s.list

  add_item-others :
      (fetch : Fetch) (id song : ℕ) (s : Playlists Tree)
      → SameOthers id s (pl_add_playlist_item rb fetch id song s).1
  unfolding pl_add_playlist_item pl_add_playlist_item_nolock
  add_item-others fetch id song s = elim (Option-cases (pl_find id s.list)) [
    | inl h ↦ rw (pl_add_playlist_item, h) refl
    | inr (p, h) ↦ elim (Option-cases (fetch song)) [
      | inl f ↦
          rw (pl_add_playlist_item, h, pl_add_playlist_item_nolock, f)
            (without-with_found id (λ q. p) s.list (λ q e. id_of_find id s.list p h))
      | inr (m, f) ↦
          rw (pl_add_playlist_item, h, pl_add_playlist_item_nolock, f)
            (without-with_found id (λ q. put_item rb song p) s.list
              (λ q e. id_of_find id s.list p h))
    ]
  ]

  update_songs-others :
      (fetch : Fetch) (id : ℕ) (pt : Option ParseState) (songs : List ℕ) (s s' : Playlists Tree)
      (e : PlError)
      → update_songs rb fetch id pt songs s ≡ done (e, s')
      → SameOthers id s s'
  unfolding update_songs
  update_songs-others fetch id pt [] s s' e h = ground arith
  update_songs-others fetch id pt (x ∷ songs) s s' e h = ground (
    arith,
    add_item-others fetch id x s,
    update_songs-others fetch id pt songs s s' e,
    update_songs-others fetch id pt songs (pl_add_playlist_item rb fetch id x s).1 s' e,
  )

  pub update_smart-others :
      (fetch : Fetch) (id : ℕ) (s s' : Playlists Tree) (e : PlError)
      → pl_update_smart rb fetch id s ≡ done (e, s')
      → SameOthers id s s'
  unfolding pl_update_smart
  update_smart-others fetch id s s' e h = elim (Option-cases (pl_find id s.list)) [
    | inl f ↦ ground (arith, f)
    | inr (p, f) ↦
        let songs : List ℕ = elim (pl_find 1 (change id (pl_purge rb) s).list) [
          | none ↦ []
          | some library ↦ rblist library.prb
        ] in
        ground (
          arith,
          f,
          without-with_found id (pl_purge rb) s.list (λ q k. k),
          update_songs-others fetch id p.pt songs (change id (pl_purge rb) s) s' e,
        )
  ]

  undo_lem :
      (id : ℕ) (r : PlError × Playlists Tree) (s' : Playlists Tree) (e : PlError) (i : Option ℕ)
      → done (keep_or_undo rb id r) ≡ done (e, i, s')
      → e ≢ success
      → s'.list ≡ without id r.1.list
  unfolding keep_or_undo
  undo_lem id (success, s) s' e i h fails = absurd (fails (ground arith))
  undo_lem id (error, s) s' e i h fails = ground arith

  append_fails :
      (fetch : Fetch) (name : Bytes) (type : ℕ) (q path : Option Bytes) (index : ℕ)
      (pt : Option ParseState) (s s' : Playlists Tree) (e : PlError) (i : Option ℕ)
      → s.next_id < 2 ^ 32
      → append_playlist rb fetch name type q path index pt s ≡ done (e, i, s')
      → e ≢ success
      → contains s.next_id (ids s.list) ≡ false
      → s'.list ≡ s.list
  unfolding append_playlist
  append_fails fetch name type q path index pt s s' e i lt h fails ok =
      let id = s.next_id % 2 ^ 32 in
      let p = new_playlist id name type q path index pt rbinit in
      let s1 : Playlists Tree = record {
        next_id = (s.next_id + 1) % 2 ^ 64;
        list = s.list ++ (p ∷ []);
      } in
      let small : id ≡ s.next_id = omega arith in
      let back : without id s1.list ≡ s.list = without-append p s.list (rw small ok) in
      let undo : PlError × Playlists Tree → Outcome (PlError × Option ℕ × Playlists Tree) =
        λ r. done (keep_or_undo rb id r) in
      if_gives (is_dynamic type) (pl_update_smart rb fetch id s1 >>= undo)
        (done (success, some id, s1)) (done (e, i, s')) h
        (λ k.
          let ((e', t), run, eq) = done_bind (pl_update_smart rb fetch id s1) undo (e, i, s') k in
          undo_lem id (e', t) s' e i eq fails ∙ update_smart-others fetch id s1 t e' run ∙ back)
        (λ k. absurd (fails (ground arith)))

  add_parsed_fails :
      (fetch : Fetch) (name : Bytes) (type : ℕ) (q path : Option Bytes) (index : ℕ)
      (r : Bool × Option ParseState) (s s' : Playlists Tree) (e : PlError) (i : Option ℕ)
      → s.next_id < 2 ^ 32
      → add_parsed rb fetch name type q path index s r ≡ done (e, i, s')
      → e ≢ success
      → contains s.next_id (ids s.list) ≡ false
      → s'.list ≡ s.list
  unfolding add_parsed
  add_parsed_fails fetch name type q path index (b, pt) s s' e i lt h fails ok =
      ground (arith, append_fails fetch name type q path index pt s s' e i)

  -- Where no playlist has the next id, as where none with this id was loaded from a file, and this id is
  -- below 2 ^ 32, `pl_add_playlist` that returns an error, also one of filling the new smart playlist, leaves the
  -- list of playlists as it was.
  pub pl_add_playlist-fails :
      (env : Env) (fetch : Fetch) (name : Option Bytes) (type : ℕ) (q path : Option Bytes)
      (index : ℕ) (s s' : Playlists Tree) (e : PlError) (i : Option ℕ)
      → contains s.next_id (ids s.list) ≡ false
      → s.next_id < 2 ^ 32
      → pl_add_playlist rb env fetch name type q path index s ≡ done (e, i, s')
      → e ≢ success
      → s'.list ≡ s.list
  unfolding pl_add_playlist
  pl_add_playlist-fails env fetch none type q path index s s' e i r lt h fails = ground arith
  pl_add_playlist-fails env fetch (some []) type q path index s s' e i r lt h fails = ground arith
  pl_add_playlist-fails env fetch (some (c ∷ name)) type q path index s s' e i r lt h fails =
      let parsed : Bool × Option ParseState → Outcome (PlError × Option ℕ × Playlists Tree) =
        add_parsed rb fetch (c ∷ name) type q path index s in
      let last : (parse_query env type q >>= parsed) ≡ done (e, i, s') → s'.list ≡ s.list = λ k.
        let (o, run, eq) = done_bind (parse_query env type q) parsed (e, i, s') k in
        add_parsed_fails fetch (c ∷ name) type q path index o s s' e i lt eq fails r in
      ground arith
