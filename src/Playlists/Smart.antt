-- ===== src/Playlists/Smart.antt =====
-- What `pl_purge` and `pl_update_smart` of src/playlists.c leave in the playlists.
use fireflymediaserver.RedBlack.{RedBlack}
use fireflymediaserver.Playlists.{Playlists}
