-- ===== src/Playlists/Tests.antt =====
-- The model of src/playlists.c at concrete inputs, over the concrete tree of keys.
use fireflymediaserver.Prelude.{
  ℕ, ◌+◌, ◌%◌, ◌^◌, ◌≡◌, ◌≢◌, refl, true, false, List, [], ◌∷◌, none, some, ◌==◌, if◌then◌else◌,
  arith, codes,
}
use fireflymediaserver.Prelude.Int.{pos}
use fireflymediaserver.RedBlack.Lists.{listed}
use fireflymediaserver.SmartParser.Token.{t_greater, ivalue}
use fireflymediaserver.SmartParser.State.{Outcome, done, Env, ParseState, sp_init, criterion, int}
use fireflymediaserver.SmartParser.Media.{FieldValue, int32}
use fireflymediaserver.Playlists.{
  success, namedup, Fetch, Playlist, Playlists, pl_find, pl_contains_item, pl_dynamic,
}
use fireflymediaserver.Playlists.Calls.{pl_add_playlist, pl_delete_playlist}
use fireflymediaserver.Playlists.Edit.{find-pl_edit_playlist}
use fireflymediaserver.Playlists.Calls.{pl_edit_playlist}
use fireflymediaserver.Playlists.Advise.{pl_advise_add}
use fireflymediaserver.Playlists.NewSong.{items_of, pl_advise_add-new}
use fireflymediaserver.Playlists.Ids.{IdsOk}
use fireflymediaserver.Playlists.Calls.{append_loaded}
use fireflymediaserver.Playlists.Ids.Reachable.{
  Reachable, started, stepped, add_playlist, load, Reachable-IdsOk, find-pl_delete_playlist,
}
use fireflymediaserver.Playlists.Ids.Undo.{pl_add_playlist-fails}

-- year > 2000
abbrev recent : ParseState
recent = record sp_init {
  tree = some (criterion (codes "year") t_greater int false 17 (ivalue 2000));
}

abbrev of_year : ℕ → ℕ → FieldValue
of_year y field = int32 y

-- Song 12 is of 2005, and all others of 1990.
abbrev songs : Fetch
songs x = some (if x == 12 then of_year 2005 else of_year 1990)

abbrev library : Playlist (List ℕ)
library = record {
  id = 1;
  title = codes "Library";
  type = 0;
  items = 2;
  query = none;
  path = none;
  idx = 0;
  pt = none;
  prb = 5 ∷ 12 ∷ [];
}

abbrev new_music : Playlist (List ℕ)
new_music = record {
  id = 2;
  title = codes "New";
  type = pl_dynamic;
  items = 1;
  query = some (codes "year > 2000");
  path = none;
  idx = 0;
  pt = some recent;
  prb = 5 ∷ [];
}

abbrev two_playlists : Playlists (List ℕ)
two_playlists = record { next_id = 3; list = library ∷ new_music ∷ [] }

finds_library : pl_find 1 two_playlists.list ≡ some library
unfolding pl_find
finds_library = refl

pl_advise_add-new_example :
    (s' : Playlists (List ℕ)) × (pl_advise_add listed
        (λ x. some (of_year 2005))
        20
        (of_year 2005)
        two_playlists
      ≡ done s')
    × (pl_contains_item listed 1 20 s' ≡ true)
    × (items_of listed (pl_find 1 s'.list) ≡ some ((library.items + 2) % 2 ^ 32))
    × (pl_find 2 s'.list ≡ (if 2 == 1 then pl_find 1 s'.list else pl_find 2 two_playlists.list))
pl_advise_add-new_example =
    pl_advise_add-new listed 2 20 (λ x. some (of_year 2005)) (of_year 2005) (of_year 2005)
      two_playlists library refl finds_library refl refl

-- An edit of song 12 changes nothing.
abbrev edited : Outcome (Playlists (List ℕ))
edited = done two_playlists

edit_runs : pl_advise_add listed songs 12 (of_year 2005) two_playlists ≡ edited
unfolding pl_advise_add
edit_runs = refl

in_library : pl_contains_item listed 1 12 two_playlists ≡ true
unfolding pl_contains_item
in_library = refl

not_in_new : pl_contains_item listed 2 12 two_playlists ≡ false
unfolding pl_contains_item
not_in_new = refl

abbrev no_env : Env
no_env = record { now = λ n. pos 0; ymd = λ s. none }

abbrev empty_library : Playlist (List ℕ)
empty_library = record {
  id = 1;
  title = codes "Library";
  type = 0;
  items = 0;
  query = none;
  path = none;
  idx = 0;
  pt = none;
  prb = [];
}

abbrev one_playlist : Playlists (List ℕ)
one_playlist = record { next_id = 2; list = empty_library ∷ [] }

add_runs :
    pl_add_playlist listed no_env songs
      (some (codes "Library"))
      0
      none
      none
      0
      (record { next_id = 1; list = [] })
    ≡ done (success, some 1, one_playlist)
unfolding pl_add_playlist
add_runs = refl

one_playlist-Reachable : Reachable listed one_playlist
one_playlist-Reachable = stepped started (
    add_playlist no_env songs (some (codes "Library")) 0 none none 0 success (some 1) (omega arith)
      add_runs)

-- A playlist of a file without an id.
abbrev loaded : Playlist (List ℕ)
loaded = record empty_library { id = 0; title = codes "Old" }

Reachable-IdsOk_example : IdsOk (append_loaded listed loaded one_playlist)
Reachable-IdsOk_example =
    Reachable-IdsOk listed (append_loaded listed loaded one_playlist)
      (stepped one_playlist-Reachable (load loaded (omega arith) refl))

abbrev loaded_two : Playlist (List ℕ)
loaded_two = record empty_library { id = 2; title = codes "Old" }

pl_delete_playlist_example : pl_find 1 (pl_delete_playlist listed 1 one_playlist).1.list ≡ none
pl_delete_playlist_example = find-pl_delete_playlist listed 1 one_playlist refl

add_again :
    pl_add_playlist listed no_env songs (some (codes "LIBRARY")) 0 none none 0 one_playlist
    ≡ done (namedup, none, one_playlist)
unfolding pl_add_playlist
add_again = refl

no_success : namedup ≢ success
no_success e = cc

pl_add_playlist-fails_example : one_playlist.list ≡ one_playlist.list
pl_add_playlist-fails_example =
    pl_add_playlist-fails listed no_env songs (some (codes "LIBRARY")) 0 none none 0 one_playlist
      one_playlist namedup none refl (omega arith) add_again no_success

-- The second playlist gets the title of the first one.
abbrev renamed : Playlists (List ℕ)
renamed = record two_playlists {
  list = library ∷ record new_music { title = codes "Library" } ∷ [];
}

renamed_runs :
    pl_edit_playlist listed no_env songs 2 (some (codes "Library")) none two_playlists
    ≡ done (success, renamed)
unfolding pl_edit_playlist
renamed_runs = refl

pl_edit_playlist_example : pl_find 1 renamed.list ≡ pl_find 1 two_playlists.list
pl_edit_playlist_example =
    find-pl_edit_playlist listed no_env songs 1 2 (some (codes "Library")) none two_playlists
      renamed success renamed_runs refl
