-- ===== src/Playlists/Ids/Reachable.antt =====
-- The ids of the playlists of src/playlists.c over the runs of its calls.
use fireflymediaserver.Prelude.{
  ℕ, ◌+◌, ◌%◌, ◌^◌, ◌<◌, ◌≡◌, refl, ap, Bool, true, false, List, [], ◌∷◌, ◌++◌, Option, none, some,
  ==_iff, arith, subst, Bytes,
}
use fireflymediaserver.RedBlack.{RedBlack, contains}
use fireflymediaserver.SmartParser.State.{Outcome, done, done_bind, ◌>>=◌, ParseState, Env}
use fireflymediaserver.SmartParser.Media.{FieldValue}
use fireflymediaserver.Playlists.{
  PlError, success, Fetch, Playlist, Playlists, is_dynamic, pl_find, without, pl_contains_item,
  pl_add_playlist_item, pl_delete_playlist_item,
}
use fireflymediaserver.Playlists.Calls.{
  new_playlist, pl_update_smart, append_playlist, append_loaded, add_parsed, keep_or_undo,
  pl_add_playlist, pl_edit_playlist, parse_query, pl_delete_playlist,
}
use fireflymediaserver.Playlists.Advise.{pl_advise_add, pl_advise_del}
use fireflymediaserver.Playlists.Ids.{
  distinct, ids, IdsOk, same-IdsOk, ids-without, ids-append, ids-append-below, find_no_id,
}
use fireflymediaserver.Prelude.{if_gives}
use fireflymediaserver.Playlists.Ids.Same.{
  add_item-same, delete_item-same, update_smart-same, edit-same, advise_all-same, advise_del-same,
}

module _ (rb : RedBlack) where
  open rb use {Tree, rbinit, rbfind, rbdelete, rblist}

  appended :
      (p : Playlist Tree) (s : Playlists Tree)
      → s.next_id < 2 ^ 32
      → p.id ≡ s.next_id
      → IdsOk s
      → IdsOk (record { next_id = (s.next_id + 1) % 2 ^ 64; list = s.list ++ (p ∷ []) })
  appended p s lt e ok =
      let m : (s.next_id + 1) % 2 ^ 64 ≡ s.next_id + 1 = omega arith in
      rw m (ids-append s.next_id p s.list e ok)

  keep-IdsOk :
      (id : ℕ) (e : PlError) (s : Playlists Tree) → IdsOk s → IdsOk (keep_or_undo rb id (e, s)).2
  unfolding keep_or_undo
  keep-IdsOk id e s ok = ground (arith, ids-without s.next_id id s.list)

  abbrev state_of : Outcome (PlError × Option ℕ × Playlists Tree) → Playlists Tree
  state_of (done (e, i, s)) = s
  state_of other = record { next_id = 0; list = [] }

  keep_run-IdsOk :
      (id : ℕ) (o : Outcome (PlError × Playlists Tree)) (s' : Playlists Tree) (e : PlError)
      (i : Option ℕ)
      → ((e' : PlError) (t : Playlists Tree) → o ≡ done (e', t) → IdsOk t)
      → (o >>= λ r. done (keep_or_undo rb id r)) ≡ done (e, i, s')
      → IdsOk s'
  unfolding keep_or_undo
  keep_run-IdsOk id o s' e i ok h =
      let ((e', t), run, eq) = done_bind o (λ r. done (keep_or_undo rb id r)) (e, i, s') h in
      subst IdsOk (ap state_of eq) (keep-IdsOk id e' t (ok e' t run))

  append-IdsOk :
      (fetch : Fetch) (name : Bytes) (type : ℕ) (q path : Option Bytes) (index : ℕ)
      (pt : Option ParseState) (s s' : Playlists Tree) (e : PlError) (i : Option ℕ)
      → s.next_id < 2 ^ 32
      → append_playlist rb fetch name type q path index pt s ≡ done (e, i, s')
      → IdsOk s
      → IdsOk s'
  unfolding append_playlist
  append-IdsOk fetch name type q path index pt s s' e i lt h ok =
      let id = s.next_id % 2 ^ 32 in
      let p = new_playlist id name type q path index pt rbinit in
      let s1 : Playlists Tree = record {
        next_id = (s.next_id + 1) % 2 ^ 64;
        list = s.list ++ (p ∷ []);
      } in
      let ok1 : IdsOk s1 = appended p s lt (omega arith) ok in
      if_gives (is_dynamic type)
        (pl_update_smart rb fetch id s1 >>= λ r. done (keep_or_undo rb id r))
        (done (success, some id, s1)) (done (e, i, s')) h
        (keep_run-IdsOk id (pl_update_smart rb fetch id s1) s' e i
          (λ e' t run. same-IdsOk s1 t (update_smart-same rb fetch id s1 t e' run) ok1))
        (λ eq. subst IdsOk (ap state_of eq) ok1)

  add_parsed-IdsOk :
      (fetch : Fetch) (name : Bytes) (type : ℕ) (q path : Option Bytes) (index : ℕ)
      (r : Bool × Option ParseState) (s s' : Playlists Tree) (e : PlError) (i : Option ℕ)
      → s.next_id < 2 ^ 32
      → add_parsed rb fetch name type q path index s r ≡ done (e, i, s')
      → IdsOk s
      → IdsOk s'
  unfolding add_parsed
  add_parsed-IdsOk fetch name type q path index (b, pt) s s' e i lt h ok =
      ground (arith, append-IdsOk fetch name type q path index pt s s' e i)

  add-IdsOk :
      (env : Env) (fetch : Fetch) (name : Option Bytes) (type : ℕ) (q path : Option Bytes)
      (index : ℕ) (s s' : Playlists Tree) (e : PlError) (i : Option ℕ)
      → s.next_id < 2 ^ 32
      → pl_add_playlist rb env fetch name type q path index s ≡ done (e, i, s')
      → IdsOk s
      → IdsOk s'
  unfolding pl_add_playlist
  add-IdsOk env fetch none type q path index s s' e i lt h ok = ground arith
  add-IdsOk env fetch (some []) type q path index s s' e i lt h ok = ground arith
  add-IdsOk env fetch (some (c ∷ name)) type q path index s s' e i lt h ok =
      let parsed : Bool × Option ParseState → Outcome (PlError × Option ℕ × Playlists Tree) =
        add_parsed rb fetch (c ∷ name) type q path index s in
      let last : (parse_query env type q >>= parsed) ≡ done (e, i, s') → IdsOk s' = λ k.
        let (r, run, eq) = done_bind (parse_query env type q) parsed (e, i, s') k in
        add_parsed-IdsOk fetch (c ∷ name) type q path index r s s' e i lt eq ok in
      ground arith

  -- The calls on the playlists that return, where a new playlist gets an id below 2 ^ 32, and one that
  -- is loaded from a file has an id below the next one that none in the list has.
  pub data Step : Playlists Tree → Playlists Tree → Type 0 where
    add_playlist :
        {s s' : Playlists Tree} (env : Env) (fetch : Fetch) (name : Option Bytes) (type : ℕ)
        (q path : Option Bytes) (index : ℕ) (e : PlError) (i : Option ℕ)
        → s.next_id < 2 ^ 32
        → pl_add_playlist rb env fetch name type q path index s ≡ done (e, i, s')
        → Step s s'
    edit_playlist :
        {s s' : Playlists Tree} (env : Env) (fetch : Fetch) (id : ℕ) (name q : Option Bytes)
        (e : PlError)
        → pl_edit_playlist rb env fetch id name q s ≡ done (e, s')
        → Step s s'
    delete_playlist : {s : Playlists Tree} (id : ℕ) → Step s (pl_delete_playlist rb id s).1
    add_item :
        {s : Playlists Tree} (fetch : Fetch) (id song : ℕ)
        → Step s (pl_add_playlist_item rb fetch id song s).1
    delete_item :
        {s : Playlists Tree} (id song : ℕ) → Step s (pl_delete_playlist_item rb id song s).1
    advise_add :
        {s s' : Playlists Tree} (fetch : Fetch) (song : ℕ) (pmn : ℕ → FieldValue)
        → pl_advise_add rb fetch song pmn s ≡ done s'
        → Step s s'
    advise_del : {s : Playlists Tree} (song : ℕ) → Step s (pl_advise_del rb song s)
    load :
        {s : Playlists Tree} (ppl : Playlist Tree)
        → ppl.id < s.next_id
        → contains ppl.id (ids s.list) ≡ false
        → Step s (append_loaded rb ppl s)

  -- From the empty list, with the next id 1.
  pub data Reachable : Playlists Tree → Type 0 where
    started : Reachable (record { next_id = 1; list = [] })
    stepped : {s s' : Playlists Tree} → Reachable s → Step s s' → Reachable s'

  delete_playlist-IdsOk :
      (id : ℕ) (s : Playlists Tree) → IdsOk s → IdsOk (pl_delete_playlist rb id s).1
  unfolding pl_delete_playlist
  delete_playlist-IdsOk id s ok = ground (arith, ids-without s.next_id id s.list)

  load-IdsOk :
      (ppl : Playlist Tree) (s : Playlists Tree)
      → ppl.id < s.next_id
      → contains ppl.id (ids s.list) ≡ false
      → IdsOk s
      → IdsOk (append_loaded rb ppl s)
  unfolding append_loaded
  load-IdsOk ppl s lt new ok = ids-append-below s.next_id ppl s.list lt new ok

  Step-IdsOk : (s s' : Playlists Tree) → Step s s' → IdsOk s → IdsOk s'
  unfolding pl_advise_add pl_advise_del
  Step-IdsOk s s' (add_playlist env fetch name type q path index e i lt h) ok =
      add-IdsOk env fetch name type q path index s s' e i lt h ok
  Step-IdsOk s s' (edit_playlist env fetch id name q e h) ok =
      same-IdsOk s s' (edit-same rb env fetch id name q s s' e h) ok
  Step-IdsOk s _ (delete_playlist id) ok = delete_playlist-IdsOk id s ok
  Step-IdsOk s s' (add_item fetch id song) ok =
      same-IdsOk s s' (add_item-same rb fetch id song s) ok
  Step-IdsOk s s' (delete_item id song) ok = same-IdsOk s s' (delete_item-same rb id song s) ok
  Step-IdsOk s s' (advise_add fetch song pmn h) ok =
      same-IdsOk s s'
        (advise_all-same rb fetch song pmn (pl_contains_item rb 1 song s) s.list s s' h) ok
  Step-IdsOk s _ (load ppl lt new) ok = load-IdsOk ppl s lt new ok
  Step-IdsOk s s' (advise_del song) ok = same-IdsOk s s' (advise_del-same rb song s.list s) ok

  -- After any run of the calls on the playlists, where each playlist was added while the next id
  -- was below 2 ^ 32, and each one that was loaded from a file had an id below the next one that no
  -- other had, the ids of the playlists are distinct and below the next one.
  pub Reachable-IdsOk : (s : Playlists Tree) → Reachable s → IdsOk s
  Reachable-IdsOk s started = refl
  Reachable-IdsOk s' (stepped {s = s} r step) = Step-IdsOk s s' step (Reachable-IdsOk s r)

  find_without :
      (id : ℕ) (list : List (Playlist Tree))
      → distinct (ids list) ≡ true
      → pl_find id (without id list) ≡ none
  unfolding pl_find without
  find_without id [] h = refl
  find_without id (p ∷ list) h =
      ground (arith, ==_iff p.id id, find_without id list, find_no_id id list)

  -- In a list in which no two playlists have the same id, a playlist that is deleted is not found
  -- again, wherever it stands and whether it was added or loaded.
  pub find-pl_delete_playlist :
      (id : ℕ) (s : Playlists Tree)
      → distinct (ids s.list) ≡ true
      → pl_find id (pl_delete_playlist rb id s).1.list ≡ none
  unfolding pl_delete_playlist
  find-pl_delete_playlist id s r = ground (arith, find_without id s.list r)
