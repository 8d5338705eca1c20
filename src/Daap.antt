-- ===== src/Daap.antt =====
-- A row of the database as a DMAP block, in src/plugins/out-daap-proto.c: `daap_get_size` counts its
-- bytes, and `daap_build_dmap` writes them. `pi_should_transcode` belongs to the server, and `atoi` to the
-- C library. The sizes are taken to fit in an `int`.
pub mod Fields
pub mod Rows
pub mod PlaylistRows
pub mod ItemRows
pub mod Sizes
mod Tests
use fireflymediaserver.Prelude.{
  ℕ, ◌+◌, ◌-◌, ◌*◌, ◌/◌, ◌%◌, ◌^◌, Bool, true, false, not, ◌&&◌, List, [], ◌∷◌, ◌++◌, Option, none,
  some, ◌==◌, ltb, if◌then◌else◌, length, Bytes, bit_and, codes,
}
use fireflymediaserver.SmartParser.State.{Outcome, done, bad_read, ◌>>=◌}
use fireflymediaserver.Dmap.{
  Tag, string_bytes, dmap_add_char, dmap_add_short, dmap_add_int, dmap_add_string, dmap_add_literal,
  dmap_add_container,
}
use fireflymediaserver.Daap.Fields.{
  meta_item_id, meta_item_name, meta_item_kind, meta_container_item_id, meta_song_album,
  meta_song_artist, meta_song_bpm, meta_song_bit_rate, meta_song_comment, meta_song_compilation,
  meta_song_composer, meta_song_data_kind, meta_song_data_url, meta_song_date_added,
  meta_song_date_modified, meta_song_description, meta_song_disabled, meta_song_disc_count,
  meta_song_disc_number, meta_song_format, meta_song_genre, meta_song_grouping,
  meta_song_sample_rate, meta_song_size, meta_song_time, meta_song_track_count,
  meta_song_track_number, meta_song_user_rating, meta_song_year, meta_song_codec_type,
  meta_itunes_smart_playlist, meta_song_content_rating, meta_itunes_has_video, meta_m_playlist_spec,
  meta_m_playlist_type, sg_id, sg_title, sg_artist, sg_album, sg_genre, sg_comment, sg_type,
  sg_composer, sg_grouping, sg_url, sg_bitrate, sg_samplerate, sg_song_length, sg_file_size,
  sg_year, sg_track, sg_total_tracks, sg_disc, sg_total_discs, sg_bpm, sg_compilation, sg_rating,
  sg_data_kind, sg_item_kind, sg_description, sg_time_added, sg_time_modified, sg_disabled,
  sg_codectype, sg_has_video, sg_contentrating, pl_id, pl_title, pl_type, pl_items, pl_query,
}
use fireflymediaserver.Daap.ItemRows.{item_size, item_block}
use fireflymediaserver.Daap.PlaylistRows.{playlist_size, playlist_block}
use fireflymediaserver.Daap.Rows.{
  Privinfo, Row, daap_wantsmeta, wants, has_text, emit, dmaplen, is_four, count, total, text_of,
  written, when, tag, string_field, literal_field, guess_bit_rate, is_set, number, char_field,
  short_field, int_field, rate_of, bit_rate_field, is_smart,
}

-- QUERY_TYPE_DISTINCT and the others.
pub data QueryType : Type 0 where
  distinct playlists items other : QueryType

module _ (atoi : Bytes → ℕ) (should_transcode : Option Bytes → Bool) where
  -- QUERY_TYPE_DISTINCT, QUERY_TYPE_PLAYLISTS and QUERY_TYPE_ITEMS, and any other.
  unfoldable pub daap_get_size : Privinfo → QueryType → Row → Outcome ℕ
  unfolding playlist_size item_size
  daap_get_size p distinct row = done (elim (row 0) [ none ↦ 0 | some s ↦ 8 + length s ])
  daap_get_size p playlists row = playlist_size atoi p row
  daap_get_size p items row = done (item_size atoi should_transcode p row)
  daap_get_size p other row = done 0

  -- The bytes from `presult` on.
  unfoldable pub daap_build_dmap : Privinfo → QueryType → Row → ℕ → Outcome Bytes
  unfolding playlist_block item_block
  daap_build_dmap p distinct row len = string_field (tag b'm' b'l' b'i' b't') (row 0)
  daap_build_dmap p playlists row len = playlist_block atoi p row len
  daap_build_dmap p items row len = item_block atoi should_transcode p row len
  daap_build_dmap p other row len = done []
