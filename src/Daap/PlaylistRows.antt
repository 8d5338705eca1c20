-- ===== src/Daap/PlaylistRows.antt =====
-- The row of a playlist as a DMAP block, in src/plugins/out-daap-proto.c.
use fireflymediaserver.Prelude.{
  ℕ, ◌+◌, ◌-◌, not, ◌&&◌, List, [], ◌∷◌, ◌==◌, if◌then◌else◌, length, Bytes,
}
use fireflymediaserver.SmartParser.State.{Outcome, done, ◌>>=◌}
use fireflymediaserver.Dmap.{dmap_add_char, dmap_add_container}
use fireflymediaserver.Daap.Fields.{
  meta_item_id, meta_item_name, meta_itunes_smart_playlist, meta_m_playlist_spec,
  meta_m_playlist_type, pl_id, pl_title, pl_type, pl_items, pl_query,
}
use fireflymediaserver.Daap.Rows.{
  Privinfo, Row, wants, count, total, text_of, written, when, tag, string_field, number, char_field,
  int_field, is_smart,
}

module _ (atoi : Bytes → ℕ) where
  -- QUERY_TYPE_PLAYLISTS. The strings that `strlen` reads are `title` and `query`.
  unfoldable pub playlist_size : Privinfo → Row → Outcome ℕ
  playlist_size p row = do
    id ← number atoi (row pl_id)
    title ← if wants p meta_item_name then text_of (row pl_title) else done []
    q ←
        if is_smart atoi (row pl_type) && wants p meta_m_playlist_spec
        then text_of (row pl_query)
        else done []
    done (
        total (
          8
          ∷ 12
          ∷ count (wants p meta_item_id) 12
          ∷ count
              (wants p meta_itunes_smart_playlist && (is_smart atoi (row pl_type) && not (id == 1)))
              9
          ∷ count (id == 1) 9
          ∷ count (wants p meta_item_name) (8 + length title)
          ∷ count (is_smart atoi (row pl_type) && wants p meta_m_playlist_spec) (8 + length q)
          ∷ count (wants p meta_m_playlist_type) 9
          ∷ []))

  -- The blocks that are written, for the id that was read.
  unfoldable pub playlist_pieces : Privinfo → Row → ℕ → ℕ → List (Outcome Bytes)
  unfolding dmap_add_container dmap_add_char
  playlist_pieces p row len id =
      done (dmap_add_container (tag b'm' b'l' b'i' b't') (len - 8)).0
      ∷ when (wants p meta_item_id) (int_field atoi (tag b'm' b'i' b'i' b'd') (row pl_id))
      ∷ int_field atoi (tag b'm' b'i' b'm' b'c') (row pl_items)
      ∷ when (wants p meta_itunes_smart_playlist && (is_smart atoi (row pl_type) && not (id == 1)))
          (done (dmap_add_char (tag b'a' b'e' b'S' b'P') 1).0)
      ∷ when (id == 1) (done (dmap_add_char (tag b'a' b'b' b'p' b'l') 1).0)
      ∷ when (wants p meta_item_name) (string_field (tag b'm' b'i' b'n' b'm') (row pl_title))
      ∷ when (is_smart atoi (row pl_type) && wants p meta_m_playlist_spec)
          (string_field (tag b'M' b'S' b'P' b'S') (row pl_query))
      ∷ when (wants p meta_m_playlist_type)
          (char_field atoi (tag b'M' b'P' b'T' b'Y') (row pl_type))
      ∷ []

  unfoldable pub playlist_block : Privinfo → Row → ℕ → Outcome Bytes
  unfolding playlist_pieces
  playlist_block p row len = do id ← number atoi (row pl_id); written (playlist_pieces p row len id)
