-- ===== src/Playlists/NewSong.antt =====
-- What `pl_advise_add` of src/playlists.c does with a song that is new, and with one that was changed.
use fireflymediaserver.Prelude.{
  ℕ, zero, suc, ◌+◌, ◌%◌, ◌^◌, ◌≡◌, refl, ap, true, false, ◌&&◌, ◌||◌, List, [], ◌∷◌, Option, none,
  some, ◌==◌, ==_iff, if◌then◌else◌, arith, subst, length,
}
use fireflymediaserver.RedBlack.{RedBlack}
use fireflymediaserver.SmartParser.State.{done, done_bind}
use fireflymediaserver.SmartParser.Media.{FieldValue}
use fireflymediaserver.Playlists.{
  success, Fetch, Playlist, Playlists, pl_find, put_item, pl_contains_item, pl_add_playlist_item,
  pl_add_playlist_item_nolock,
}
use fireflymediaserver.Playlists.Find.{length_of_find, has_id, find-with_found, id_of_find}
use fireflymediaserver.Playlists.Content.{contains-delete}
use fireflymediaserver.Playlists.Advise.{advise_one, advise_all, pl_advise_add}

module _ (rb : RedBlack) where
  open rb use {Tree, rbfind, find-search}

  -- A song that the database has is put in the playlist.
  pub find-add :
      (j id song : ℕ) (fetch : Fetch) (pmn : ℕ → FieldValue) (s : Playlists Tree)
      (p : Playlist Tree)
      → fetch song ≡ some pmn
      → pl_find id s.list ≡ some p
      → pl_find j (pl_add_playlist_item rb fetch id song s).1.list
        ≡ (if j == id then some (put_item rb song p) else pl_find j s.list)
  unfolding pl_add_playlist_item pl_add_playlist_item_nolock
  find-add j id song fetch pmn s p hf h = rw (
    pl_add_playlist_item,
    h,
    pl_add_playlist_item_nolock,
    hf,
    find-with_found j id (λ q. put_item rb song p) s.list p h (id_of_find id s.list p h),
  )

  pub contains-add :
      (j k id song : ℕ) (fetch : Fetch) (pmn : ℕ → FieldValue) (s : Playlists Tree)
      (p : Playlist Tree)
      → fetch song ≡ some pmn
      → pl_find id s.list ≡ some p
      → pl_contains_item rb j k (pl_add_playlist_item rb fetch id song s).1
        ≡ (j == id && song == k || pl_contains_item rb j k s)
  unfolding pl_contains_item
  contains-add j k id song fetch pmn s p hf h =
      ground
        (arith, h, ==_iff j id, find-add j id song fetch pmn s p hf h, find-search k song p.prb)

  pub add_succeeds :
      (id song : ℕ) (fetch : Fetch) (pmn : ℕ → FieldValue) (s : Playlists Tree) (p : Playlist Tree)
      → fetch song ≡ some pmn
      → pl_find id s.list ≡ some p
      → (pl_add_playlist_item rb fetch id song s).0 ≡ success
  unfolding pl_add_playlist_item pl_add_playlist_item_nolock
  add_succeeds id song fetch pmn s p hf h = ground (arith, h, hf)

  -- `n` additions of a song to a playlist, and to playlist 1.
  abbrev pub put_times : ℕ → ℕ → Playlist Tree → Playlist Tree
  put_times zero song p = p
  put_times (suc n) song p = put_times n song (put_item rb song p)

  abbrev add_times : Fetch → ℕ → ℕ → Playlists Tree → Playlists Tree
  add_times fetch zero song s = s
  add_times fetch (suc n) song s = add_times fetch n song (pl_add_playlist_item rb fetch 1 song s).1

  -- The walk of a new song is one addition to playlist 1 for each playlist.
  advise_all_new :
      (fetch : Fetch) (song : ℕ) (pmn : ℕ → FieldValue) (list : List (Playlist Tree))
      (s : Playlists Tree)
      → has_id 0 list ≡ false
      → advise_all rb fetch song pmn false list s ≡ done (add_times fetch (length list) song s)
  unfolding advise_all advise_one
  advise_all_new fetch song pmn [] s h = refl
  advise_all_new fetch song pmn (p ∷ list) s h =
      ground (arith, advise_all_new fetch song pmn list (pl_add_playlist_item rb fetch 1 song s).1)

  find-add_times :
      (j n song : ℕ) (fetch : Fetch) (pmn : ℕ → FieldValue) (s : Playlists Tree) (p : Playlist Tree)
      → fetch song ≡ some pmn
      → pl_find 1 s.list ≡ some p
      → pl_find j (add_times fetch n song s).list
        ≡ (if j == 1 then some (put_times n song p) else pl_find j s.list)
  find-add_times j zero song fetch pmn s p hf h = ground (arith, ==_iff j 1)
  find-add_times j (suc n) song fetch pmn s p hf h = ground (
    arith,
    ==_iff j 1,
    find-add j 1 song fetch pmn s p hf h,
    find-add_times j n song fetch pmn (pl_add_playlist_item rb fetch 1 song s).1
        (put_item rb song p) hf (find-add 1 1 song fetch pmn s p hf h),
  )

  items-put_times :
      (n song : ℕ) (p : Playlist Tree)
      → (put_times (suc n) song p).items ≡ (p.items + suc n) % 2 ^ 32
  items-put_times zero song p = refl
  items-put_times (suc n) song p = omega (arith, items-put_times n song (put_item rb song p))

  find-put_times :
      (n song : ℕ) (p : Playlist Tree)
      → rbfind song p.prb ≡ true
      → rbfind song (put_times n song p).prb ≡ true
  find-put_times zero song p h = h
  find-put_times (suc n) song p h =
      find-put_times n song (put_item rb song p) (ground (arith, find-search song song p.prb))

  abbrev pub items_of : Option (Playlist Tree) → Option ℕ
  items_of none = none
  items_of (some p) = some p.items

  -- What the playlists hold after the additions.
  added_times :
      (j n song : ℕ) (fetch : Fetch) (pmn : ℕ → FieldValue) (s : Playlists Tree) (p : Playlist Tree)
      → fetch song ≡ some pmn
      → pl_find 1 s.list ≡ some p
      → (let s' = add_times fetch (suc n) song s in
          (pl_contains_item rb 1 song s' ≡ true)
          × (items_of (pl_find 1 s'.list) ≡ some ((p.items + suc n) % 2 ^ 32))
          × (pl_find j s'.list ≡ (if j == 1 then pl_find 1 s'.list else pl_find j s.list)))
  unfolding pl_contains_item
  added_times j n song fetch pmn s p hf h =
      let at = find-add_times 1 (suc n) song fetch pmn s p hf h in
      (
        rw (pl_contains_item, at)
            (find-put_times n song (put_item rb song p)
              (ground (arith, find-search song song p.prb))),
        rw at (ap some (items-put_times n song p)),
        rw (at, find-add_times j (suc n) song fetch pmn s p hf h) refl,
      )

  -- Where no playlist has the id 0, a song that the database has and playlist 1 does not is put in
  -- playlist 1, whose count of items grows by the number of playlists, and each other playlist
  -- stays as it was, also where its query matches.
  pub pl_advise_add-new :
      (j song : ℕ) (fetch : Fetch) (pmn pmn' : ℕ → FieldValue) (s : Playlists Tree)
      (p : Playlist Tree)
      → has_id 0 s.list ≡ false
      → pl_find 1 s.list ≡ some p
      → fetch song ≡ some pmn'
      → rbfind song p.prb ≡ false
      → (s' : Playlists Tree) × (pl_advise_add rb fetch song pmn s ≡ done s')
        × (pl_contains_item rb 1 song s' ≡ true)
        × (items_of (pl_find 1 s'.list) ≡ some ((p.items + length s.list) % 2 ^ 32))
        × (pl_find j s'.list ≡ (if j == 1 then pl_find 1 s'.list else pl_find j s.list))
  unfolding pl_advise_add pl_contains_item
  pl_advise_add-new j song fetch pmn pmn' s p nz h hf new =
      let (n, e) = length_of_find 1 s.list p h in
      let run = advise_all_new fetch song pmn s.list s nz in
      let (c, i, f) = added_times j n song fetch pmn' s p hf h in
      (
        add_times fetch (suc n) song s,
        rw (pl_advise_add, pl_contains_item, h, new)
            (subst
              (λ m. advise_all rb fetch song pmn false s.list s ≡ done (add_times fetch m song s)) e
              run),
        c,
        rw e i,
        f,
      )

  advise_one_edit :
      (j k song : ℕ) (fetch : Fetch) (pmn : ℕ → FieldValue) (ppl : Playlist Tree)
      (s s' : Playlists Tree)
      → advise_one rb fetch song pmn true ppl s ≡ done s'
      → pl_contains_item rb j k s ≡ false
      → pl_contains_item rb j k s' ≡ false
  unfolding advise_one
  advise_one_edit j k song fetch pmn ppl s s' h e =
      ground (arith, contains-delete rb j k ppl.id song s)

  advise_all_edit :
      (j k song : ℕ) (fetch : Fetch) (pmn : ℕ → FieldValue) (list : List (Playlist Tree))
      (s s' : Playlists Tree)
      → advise_all rb fetch song pmn true list s ≡ done s'
      → pl_contains_item rb j k s ≡ false
      → pl_contains_item rb j k s' ≡ false
  unfolding advise_all
  advise_all_edit j k song fetch pmn [] s s' h e = ground arith
  advise_all_edit j k song fetch pmn (ppl ∷ list) s s' h e =
      let (s1, one, rest) =
        done_bind (advise_one rb fetch song pmn true ppl s) (advise_all rb fetch song pmn true list)
          s' h in
      advise_all_edit j k song fetch pmn list s1 s' rest
        (advise_one_edit j k song fetch pmn ppl s s1 one e)

  -- Where playlist 1 holds the song already and `pl_advise_add` returns, no playlist holds a song
  -- that it did not hold before, also where the song now meets its query.
  pub pl_advise_add-edit :
      (j k song : ℕ) (fetch : Fetch) (pmn : ℕ → FieldValue) (s s' : Playlists Tree)
      → pl_contains_item rb 1 song s ≡ true
      → pl_advise_add rb fetch song pmn s ≡ done s'
      → pl_contains_item rb j k s ≡ false
      → pl_contains_item rb j k s' ≡ false
  unfolding pl_advise_add
  pl_advise_add-edit j k song fetch pmn s s' old h e =
      advise_all_edit j k song fetch pmn s.list s s'
        (subst (λ b. advise_all rb fetch song pmn b s.list s ≡ done s') old h) e
