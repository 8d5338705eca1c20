-- ===== src/Playlists/Ids/Same.antt =====
-- The calls of src/playlists.c that keep the ids of the playlists as they are, where they return.
use fireflymediaserver.Prelude.{
  ℕ, ◌≡◌, inl, inr, refl, Bool, true, false, List, [], ◌∷◌, Option, none, some, arith, Option-cases,
  Bytes,
}
use fireflymediaserver.RedBlack.{RedBlack}
use fireflymediaserver.SmartParser.State.{Outcome, done, done_bind, ◌>>=◌, ParseState, Env}
use fireflymediaserver.SmartParser.Media.{FieldValue}
use fireflymediaserver.SmartParser.Token.{playlist}
use fireflymediaserver.SmartParser.State.{sp_init}
use fireflymediaserver.SmartParser.Parse.Expr.{sp_parse}
use fireflymediaserver.Playlists.{
  PlError, success, Fetch, Playlist, Playlists, is_dynamic, pl_find, change, put_item, drop_item,
  pl_add_playlist_item, pl_add_playlist_item_nolock, pl_delete_playlist_item, pl_purge,
  update_songs,
}
use fireflymediaserver.Playlists.Find.{id_of_find}
use fireflymediaserver.Playlists.Calls.{
  pl_update_smart, pl_edit_playlist, edit_found, replace_query, rename,
}
use fireflymediaserver.Playlists.Advise.{advise_one, advise_all, advise_del_one, advise_del_all}
use fireflymediaserver.Playlists.Ids.{SameIds, same_trans, change-same}
use fireflymediaserver.Prelude.{if_gives}

module _ (rb : RedBlack) where
  open rb use {Tree, rbinit, rbfind, rbdelete, rblist}

  pub add_item-same :
      (fetch : Fetch) (id song : ℕ) (s : Playlists Tree)
      → SameIds s (pl_add_playlist_item rb fetch id song s).1
  unfolding pl_add_playlist_item pl_add_playlist_item_nolock
  add_item-same fetch id song s = elim (Option-cases (pl_find id s.list)) [
    | inl h ↦ rw (pl_add_playlist_item, h) (refl, refl)
    | inr (p, h) ↦ elim (Option-cases (fetch song)) [
      | inl f ↦
          rw (pl_add_playlist_item, h, pl_add_playlist_item_nolock, f)
            (change-same id (λ q. p) s (λ q e. id_of_find id s.list p h))
      | inr (m, f) ↦
          rw (pl_add_playlist_item, h, pl_add_playlist_item_nolock, f)
            (change-same id (λ q. put_item rb song p) s (λ q e. id_of_find id s.list p h))
    ]
  ]

  pub delete_item-same :
      (id song : ℕ) (s : Playlists Tree) → SameIds s (pl_delete_playlist_item rb id song s).1
  unfolding pl_delete_playlist_item
  delete_item-same id song s = elim (Option-cases (pl_find id s.list)) [
    | inl h ↦ rw (pl_delete_playlist_item, h) (refl, refl)
    | inr (p, h) ↦ elim (Option-cases (rbdelete song p.prb)) [
      | inl f ↦ rw (pl_delete_playlist_item, h, f) (refl, refl)
      | inr (t, f) ↦
          rw (pl_delete_playlist_item, h, f) (change-same id (drop_item rb t) s (λ q e. e))
    ]
  ]

  pub update_songs-same :
      (fetch : Fetch) (id : ℕ) (pt : Option ParseState) (songs : List ℕ) (s s' : Playlists Tree)
      (e : PlError)
      → update_songs rb fetch id pt songs s ≡ done (e, s')
      → SameIds s s'
  unfolding update_songs
  update_songs-same fetch id pt [] s s' e h = ground arith
  update_songs-same fetch id pt (x ∷ songs) s s' e h = ground (
    arith,
    add_item-same fetch id x s,
    update_songs-same fetch id pt songs s s' e,
    update_songs-same fetch id pt songs (pl_add_playlist_item rb fetch id x s).1 s' e,
  )

  pub update_smart-same :
      (fetch : Fetch) (id : ℕ) (s s' : Playlists Tree) (e : PlError)
      → pl_update_smart rb fetch id s ≡ done (e, s')
      → SameIds s s'
  unfolding pl_update_smart
  update_smart-same fetch id s s' e h = elim (Option-cases (pl_find id s.list)) [
    | inl f ↦ ground (arith, f)
    | inr (p, f) ↦
        let songs : List ℕ = elim (pl_find 1 (change id (pl_purge rb) s).list) [
          | none ↦ []
          | some library ↦ rblist library.prb
        ] in
        ground (
          arith,
          f,
          change-same id (pl_purge rb) s (λ q k. k),
          update_songs-same fetch id p.pt songs (change id (pl_purge rb) s) s' e,
        )
  ]

  -- The calls that keep the ids as they are, where they return.
  pub rename-same :
      (id : ℕ) (name : Option Bytes) (s : Playlists Tree) → SameIds s (rename rb id name s)
  rename-same id none s = (refl, refl)
  rename-same id (some name) s = change-same id (λ p. record p { title = name }) s (λ p e. e)

  pub renamed-same :
      (id : ℕ) (name : Option Bytes) (e1 e : PlError) (t s' : Playlists Tree)
      → elim e1 as (λ x. Outcome (PlError × Playlists Tree)) [
        | success ↦ done (success, rename rb id name t)
        | other ↦ done (other, t)
      ]
        ≡ done (e, s')
      → SameIds t s'
  renamed-same id name success e t s' h = ground (arith, rename-same id name t)
  renamed-same id name other e t s' h = ground arith

  pub replace-same :
      (fetch : Fetch) (id : ℕ) (name : Option Bytes) (r : Bool × ParseState) (s s' : Playlists Tree)
      (e : PlError)
      → replace_query rb fetch id name r s ≡ done (e, s')
      → SameIds s s'
  unfolding replace_query
  replace-same fetch id name (false, pt) s s' e h = ground arith
  replace-same fetch id name (true, pt) s s' e h =
      let s1 = change id (λ p. record p { pt = some pt }) s in
      let ((e1, s2), run, eq) =
        done_bind (pl_update_smart rb fetch id s1)
          (λ (e1, t). elim e1 as (λ x. Outcome (PlError × Playlists Tree)) [
            | success ↦ done (success, rename rb id name t)
            | other ↦ done (other, t)
          ])
          (e, s') h in
      same_trans s s1 s' (change-same id (λ p. record p { pt = some pt }) s (λ p k. k)) (
        same_trans s1 s2 s' (update_smart-same fetch id s1 s2 e1 run)
          (renamed-same id name e1 e s2 s' eq))

  pub edit_found-same :
      (env : Env) (fetch : Fetch) (found : Option (Playlist Tree)) (id : ℕ) (name q : Option Bytes)
      (s s' : Playlists Tree) (e : PlError)
      → edit_found rb env fetch found id name q s ≡ done (e, s')
      → SameIds s s'
  unfolding edit_found
  edit_found-same env fetch none id name q s s' e h = ground arith
  edit_found-same env fetch (some ppl) id name none s s' e h = ground (arith, rename-same id name s)
  edit_found-same env fetch (some ppl) id name (some q) s s' e h =
      if_gives (is_dynamic ppl.type)
        (sp_parse env q playlist sp_init >>= λ r. replace_query rb fetch id name r s)
        (done (success, rename rb id name s)) (done (e, s')) h
        (λ k.
          let (r, run, eq) =
            done_bind (sp_parse env q playlist sp_init) (λ r. replace_query rb fetch id name r s)
              (e, s') k in
          replace-same fetch id name r s s' e eq)
        (λ k. ground (arith, rename-same id name s))

  pub edit-same :
      (env : Env) (fetch : Fetch) (id : ℕ) (name q : Option Bytes) (s s' : Playlists Tree)
      (e : PlError)
      → pl_edit_playlist rb env fetch id name q s ≡ done (e, s')
      → SameIds s s'
  unfolding pl_edit_playlist
  edit-same env fetch id none none s s' e h = ground arith
  edit-same env fetch id (some n) q s s' e h =
      ground (arith, edit_found-same env fetch (pl_find id s.list) id (some n) q s s' e)
  edit-same env fetch id none (some q) s s' e h =
      ground (arith, edit_found-same env fetch (pl_find id s.list) id none (some q) s s' e)

  pub advise_one-same :
      (fetch : Fetch) (song : ℕ) (pmn : ℕ → FieldValue) (is_edit : Bool) (ppl : Playlist Tree)
      (s s' : Playlists Tree)
      → advise_one rb fetch song pmn is_edit ppl s ≡ done s'
      → SameIds s s'
  unfolding advise_one
  advise_one-same fetch song pmn is_edit ppl s s' h = ground (
    arith,
    add_item-same fetch 1 song s,
    add_item-same fetch ppl.id song s,
    delete_item-same ppl.id song s,
  )

  pub advise_all-same :
      (fetch : Fetch) (song : ℕ) (pmn : ℕ → FieldValue) (is_edit : Bool)
      (list : List (Playlist Tree)) (s s' : Playlists Tree)
      → advise_all rb fetch song pmn is_edit list s ≡ done s'
      → SameIds s s'
  unfolding advise_all
  advise_all-same fetch song pmn is_edit [] s s' h = ground arith
  advise_all-same fetch song pmn is_edit (ppl ∷ list) s s' h =
      let (s1, one, rest) =
        done_bind (advise_one rb fetch song pmn is_edit ppl s)
          (advise_all rb fetch song pmn is_edit list) s' h in
      same_trans s s1 s' (advise_one-same fetch song pmn is_edit ppl s s1 one)
        (advise_all-same fetch song pmn is_edit list s1 s' rest)

  pub advise_del-same :
      (song : ℕ) (list : List (Playlist Tree)) (s : Playlists Tree)
      → SameIds s (advise_del_all rb song list s)
  unfolding advise_del_all advise_del_one
  advise_del-same song [] s = (refl, refl)
  advise_del-same song (ppl ∷ list) s = ground (
    arith,
    delete_item-same ppl.id song s,
    advise_del-same song list s,
    advise_del-same song list (pl_delete_playlist_item rb ppl.id song s).1,
  )
