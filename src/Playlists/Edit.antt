-- ===== src/Playlists/Edit.antt =====
-- What `pl_edit_playlist` of src/playlists.c leaves as it was.
use fireflymediaserver.Prelude.{
  ℕ, ◌≡◌, refl, Bool, true, false, List, [], ◌∷◌, Option, none, some, arith, Bytes,
}
use fireflymediaserver.RedBlack.{RedBlack}
use fireflymediaserver.SmartParser.State.{Outcome, done, done_bind, ◌>>=◌, ParseState, Env}
use fireflymediaserver.SmartParser.Token.{playlist}
use fireflymediaserver.SmartParser.State.{sp_init}
use fireflymediaserver.SmartParser.Parse.Expr.{sp_parse}
use fireflymediaserver.Playlists.{
  PlError, success, Fetch, Playlist, Playlists, is_dynamic, pl_find, change,
}
use fireflymediaserver.Playlists.Calls.{
  pl_update_smart, pl_edit_playlist, edit_found, replace_query, rename,
}
use fireflymediaserver.Playlists.Ids.Undo.{without-with_found, SameOthers, update_smart-others}
use fireflymediaserver.Playlists.{without}
use fireflymediaserver.Prelude.{◌==◌, ==_iff, ◌∙◌, sym, ap, ℕ}
use fireflymediaserver.Prelude.{if_gives}

find_without_other :
    {Tree : Type 0} (j id : ℕ) (list : List (Playlist Tree))
    → (j == id) ≡ false
    → pl_find j (without id list) ≡ pl_find j list
unfolding pl_find without
find_without_other j id [] h = refl
find_without_other j id (p ∷ list) h =
    ground (arith, ==_iff p.id id, ==_iff p.id j, ==_iff j id, find_without_other j id list)

module _ (rb : RedBlack) where
  open rb use {Tree}

  rename-others :
      (id : ℕ) (name : Option Bytes) (s : Playlists Tree) → SameOthers rb id s (rename rb id name s)
  rename-others id none s = refl
  rename-others id (some name) s =
      without-with_found id (λ p. record p { title = name }) s.list (λ p e. e)

  renamed-others :
      (id : ℕ) (name : Option Bytes) (e1 e : PlError) (t s' : Playlists Tree)
      → elim e1 as (λ x. Outcome (PlError × Playlists Tree)) [
        | success ↦ done (success, rename rb id name t)
        | other ↦ done (other, t)
      ]
        ≡ done (e, s')
      → SameOthers rb id t s'
  renamed-others id name success e t s' h = ground (arith, rename-others id name t)
  renamed-others id name other e t s' h = ground arith

  replace-others :
      (fetch : Fetch) (id : ℕ) (name : Option Bytes) (r : Bool × ParseState) (s s' : Playlists Tree)
      (e : PlError)
      → replace_query rb fetch id name r s ≡ done (e, s')
      → SameOthers rb id s s'
  unfolding replace_query
  replace-others fetch id name (false, pt) s s' e h = ground arith
  replace-others fetch id name (true, pt) s s' e h =
      let s1 = change id (λ p. record p { pt = some pt }) s in
      let ((e1, s2), run, eq) =
        done_bind (pl_update_smart rb fetch id s1)
          (λ (e1, t). elim e1 as (λ x. Outcome (PlError × Playlists Tree)) [
            | success ↦ done (success, rename rb id name t)
            | other ↦ done (other, t)
          ])
          (e, s') h in
      renamed-others id name e1 e s2 s' eq
      ∙ (update_smart-others rb fetch id s1 s2 e1 run
          ∙ without-with_found id (λ p. record p { pt = some pt }) s.list (λ p k. k))

  edit_found-others :
      (env : Env) (fetch : Fetch) (found : Option (Playlist Tree)) (id : ℕ) (name q : Option Bytes)
      (s s' : Playlists Tree) (e : PlError)
      → edit_found rb env fetch found id name q s ≡ done (e, s')
      → SameOthers rb id s s'
  unfolding edit_found
  edit_found-others env fetch none id name q s s' e h = ground arith
  edit_found-others env fetch (some ppl) id name none s s' e h =
      ground (arith, rename-others id name s)
  edit_found-others env fetch (some ppl) id name (some q) s s' e h =
      if_gives (is_dynamic ppl.type)
        (sp_parse env q playlist sp_init >>= λ r. replace_query rb fetch id name r s)
        (done (success, rename rb id name s)) (done (e, s')) h
        (λ k.
          let (r, run, eq) =
            done_bind (sp_parse env q playlist sp_init) (λ r. replace_query rb fetch id name r s)
              (e, s') k in
          replace-others fetch id name r s s' e eq)
        (λ k. ground (arith, rename-others id name s))

  edit-others :
      (env : Env) (fetch : Fetch) (id : ℕ) (name q : Option Bytes) (s s' : Playlists Tree)
      (e : PlError)
      → pl_edit_playlist rb env fetch id name q s ≡ done (e, s')
      → SameOthers rb id s s'
  unfolding pl_edit_playlist
  edit-others env fetch id none none s s' e h = ground arith
  edit-others env fetch id (some n) q s s' e h =
      ground (arith, edit_found-others env fetch (pl_find id s.list) id (some n) q s s' e)
  edit-others env fetch id none (some q) s s' e h =
      ground (arith, edit_found-others env fetch (pl_find id s.list) id none (some q) s s' e)

  -- `pl_edit_playlist`, whatever it returns, leaves each other playlist as it was.
  pub find-pl_edit_playlist :
      (env : Env) (fetch : Fetch) (j id : ℕ) (name q : Option Bytes) (s s' : Playlists Tree)
      (e : PlError)
      → pl_edit_playlist rb env fetch id name q s ≡ done (e, s')
      → (j == id) ≡ false
      → pl_find j s'.list ≡ pl_find j s.list
  find-pl_edit_playlist env fetch j id name q s s' e h ne =
      sym (find_without_other j id s'.list ne)
      ∙ (ap (pl_find j) (edit-others env fetch id name q s s' e h)
          ∙ find_without_other j id s.list ne)
