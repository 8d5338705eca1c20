-- ===== src/Daap/ItemRows.antt =====
-- The row of a song as a DMAP block, in src/plugins/out-daap-proto.c.
use fireflymediaserver.Prelude.{
  ℕ, ◌-◌, Bool, ◌&&◌, List, [], ◌∷◌, Option, some, if◌then◌else◌, Bytes, codes,
}
use fireflymediaserver.SmartParser.State.{Outcome, done}
use fireflymediaserver.Dmap.{dmap_add_container}
use fireflymediaserver.Daap.Fields.{
  meta_item_id, meta_item_name, meta_item_kind, meta_container_item_id, meta_song_album,
  meta_song_artist, meta_song_bpm, meta_song_bit_rate, meta_song_comment, meta_song_compilation,
  meta_song_composer, meta_song_data_kind, meta_song_data_url, meta_song_date_added,
  meta_song_date_modified, meta_song_description, meta_song_disabled, meta_song_disc_count,
  meta_song_disc_number, meta_song_format, meta_song_genre, meta_song_grouping,
  meta_song_sample_rate, meta_song_size, meta_song_time, meta_song_track_count,
  meta_song_track_number, meta_song_user_rating, meta_song_year, meta_song_codec_type,
  meta_song_content_rating, meta_itunes_has_video, sg_id, sg_title, sg_artist, sg_album, sg_genre,
  sg_comment, sg_type, sg_composer, sg_grouping, sg_url, sg_bitrate, sg_samplerate, sg_song_length,
  sg_file_size, sg_year, sg_track, sg_total_tracks, sg_disc, sg_total_discs, sg_bpm, sg_compilation,
  sg_rating, sg_data_kind, sg_item_kind, sg_description, sg_time_added, sg_time_modified,
  sg_disabled, sg_codectype, sg_has_video, sg_contentrating,
}
use fireflymediaserver.Daap.Rows.{
  Privinfo, Row, wants, emit, dmaplen, is_four, count, total, written, when, tag, string_field,
  literal_field, is_set, char_field, short_field, int_field, bit_rate_field,
}

module _ (atoi : Bytes → ℕ) where
  -- QUERY_TYPE_ITEMS: the sizes that are added up.
  unfoldable pub item_counts : Privinfo → Row → Bool → List ℕ
  unfolding wants
  item_counts p row transcode =
      8
      ∷ count (wants p meta_item_kind) 9
      ∷ count (wants p meta_song_data_kind) 9
      ∷ count (wants p meta_song_data_url) (dmaplen p (row sg_url))
      ∷ count (wants p meta_song_album) (dmaplen p (row sg_album))
      ∷ count (wants p meta_song_artist) (dmaplen p (row sg_artist))
      ∷ count (wants p meta_song_bpm) 10
      ∷ count (wants p meta_song_bit_rate) (
          if transcode
          then count (is_set atoi (row sg_samplerate)) 10
          else count (is_set atoi (row sg_bitrate)) 10)
      ∷ count (wants p meta_song_comment) (dmaplen p (row sg_comment))
      ∷ count (is_set atoi (row sg_compilation) && wants p meta_song_compilation) 9
      ∷ count (wants p meta_song_composer) (dmaplen p (row sg_composer))
      ∷ count (wants p meta_song_grouping) (dmaplen p (row sg_grouping))
      ∷ count (is_set atoi (row sg_time_added) && wants p meta_song_date_added) 12
      ∷ count (is_set atoi (row sg_time_modified) && wants p meta_song_date_modified) 12
      ∷ count (wants p meta_song_disc_count) 10
      ∷ count (wants p meta_song_disc_number) 10
      ∷ count (wants p meta_song_genre) (dmaplen p (row sg_genre))
      ∷ count (wants p meta_item_id) 12
      ∷ count (wants p meta_song_format) (if transcode then 11 else dmaplen p (row sg_type))
      ∷ count (wants p meta_song_description)
          (if transcode then 22 else dmaplen p (row sg_description))
      ∷ count (wants p meta_item_name) (dmaplen p (row sg_title))
      ∷ count (is_set atoi (row sg_disabled) && wants p meta_song_disabled) 9
      ∷ count (is_set atoi (row sg_samplerate) && wants p meta_song_sample_rate) 12
      ∷ count (is_set atoi (row sg_file_size) && wants p meta_song_size) 12
      ∷ count (is_set atoi (row sg_song_length) && wants p meta_song_time) 12
      ∷ count (is_set atoi (row sg_total_tracks) && wants p meta_song_track_count) 10
      ∷ count (is_set atoi (row sg_track) && wants p meta_song_track_number) 10
      ∷ count (wants p meta_song_user_rating) 9
      ∷ count (is_set atoi (row sg_year) && wants p meta_song_year) 10
      ∷ count (wants p meta_container_item_id) 12
      ∷ count (is_four (row sg_codectype) && wants p meta_song_codec_type) 12
      ∷ count (wants p meta_song_content_rating) 9
      ∷ count (wants p meta_itunes_has_video) 9
      ∷ []

  -- The blocks that are written.
  unfoldable pub item_pieces : Privinfo → Row → ℕ → Bool → List (Outcome Bytes)
  unfolding dmap_add_container
  item_pieces p row len transcode =
      done (dmap_add_container (tag b'm' b'l' b'i' b't') (len - 8)).0
      ∷ when (wants p meta_item_kind) (char_field atoi (tag b'm' b'i' b'k' b'd') (row sg_item_kind))
      ∷ when (wants p meta_song_data_kind)
          (char_field atoi (tag b'a' b's' b'd' b'k') (row sg_data_kind))
      ∷ when (emit p (row sg_url) && wants p meta_song_data_url)
          (string_field (tag b'a' b's' b'u' b'l') (row sg_url))
      ∷ when (emit p (row sg_album) && wants p meta_song_album)
          (string_field (tag b'a' b's' b'a' b'l') (row sg_album))
      ∷ when (emit p (row sg_artist) && wants p meta_song_artist)
          (string_field (tag b'a' b's' b'a' b'r') (row sg_artist))
      ∷ when (wants p meta_song_bpm) (short_field atoi (tag b'a' b's' b'b' b't') (row sg_bpm))
      ∷ when (is_set atoi (row sg_bitrate) && wants p meta_song_bit_rate)
          (bit_rate_field atoi transcode row)
      ∷ when (emit p (row sg_comment) && wants p meta_song_comment)
          (string_field (tag b'a' b's' b'c' b'm') (row sg_comment))
      ∷ when (is_set atoi (row sg_compilation) && wants p meta_song_compilation)
          (char_field atoi (tag b'a' b's' b'c' b'o') (row sg_compilation))
      ∷ when (emit p (row sg_composer) && wants p meta_song_composer)
          (string_field (tag b'a' b's' b'c' b'p') (row sg_composer))
      ∷ when (emit p (row sg_grouping) && wants p meta_song_grouping)
          (string_field (tag b'a' b'g' b'r' b'p') (row sg_grouping))
      ∷ when (is_set atoi (row sg_time_added) && wants p meta_song_date_added)
          (int_field atoi (tag b'a' b's' b'd' b'a') (row sg_time_added))
      ∷ when (is_set atoi (row sg_time_modified) && wants p meta_song_date_modified)
          (int_field atoi (tag b'a' b's' b'd' b'm') (row sg_time_modified))
      ∷ when (wants p meta_song_disc_count)
          (short_field atoi (tag b'a' b's' b'd' b'c') (row sg_total_discs))
      ∷ when (wants p meta_song_disc_number)
          (short_field atoi (tag b'a' b's' b'd' b'n') (row sg_disc))
      ∷ when (emit p (row sg_genre) && wants p meta_song_genre)
          (string_field (tag b'a' b's' b'g' b'n') (row sg_genre))
      ∷ when (wants p meta_item_id) (int_field atoi (tag b'm' b'i' b'i' b'd') (row sg_id))
      ∷ when (emit p (row sg_type) && wants p meta_song_format) (
          string_field (tag b'a' b's' b'f' b'm')
            (if transcode then some (codes "wav") else row sg_type))
      ∷ when (emit p (row sg_description) && wants p meta_song_description) (
          string_field (tag b'a' b's' b'd' b't')
            (if transcode then some (codes "wav audio file") else row sg_description))
      ∷ when (emit p (row sg_title) && wants p meta_item_name)
          (string_field (tag b'm' b'i' b'n' b'm') (row sg_title))
      ∷ when (is_set atoi (row sg_disabled) && wants p meta_song_disabled)
          (char_field atoi (tag b'a' b's' b'd' b'b') (row sg_disabled))
      ∷ when (is_set atoi (row sg_samplerate) && wants p meta_song_sample_rate)
          (int_field atoi (tag b'a' b's' b's' b'r') (row sg_samplerate))
      ∷ when (is_set atoi (row sg_file_size) && wants p meta_song_size)
          (int_field atoi (tag b'a' b's' b's' b'z') (row sg_file_size))
      ∷ when (is_set atoi (row sg_song_length) && wants p meta_song_time)
          (int_field atoi (tag b'a' b's' b't' b'm') (row sg_song_length))
      ∷ when (is_set atoi (row sg_total_tracks) && wants p meta_song_track_count)
          (short_field atoi (tag b'a' b's' b't' b'c') (row sg_total_tracks))
      ∷ when (is_set atoi (row sg_track) && wants p meta_song_track_number)
          (short_field atoi (tag b'a' b's' b't' b'n') (row sg_track))
      ∷ when (wants p meta_song_user_rating)
          (char_field atoi (tag b'a' b's' b'u' b'r') (row sg_rating))
      ∷ when (is_set atoi (row sg_year) && wants p meta_song_year)
          (short_field atoi (tag b'a' b's' b'y' b'r') (row sg_year))
      ∷ when (is_four (row sg_codectype) && wants p meta_song_codec_type)
          (literal_field (tag b'a' b's' b'c' b'd') (row sg_codectype))
      ∷ when (wants p meta_container_item_id) (int_field atoi (tag b'm' b'c' b't' b'i') (row sg_id))
      ∷ when (wants p meta_itunes_has_video)
          (char_field atoi (tag b'a' b'e' b'H' b'V') (row sg_has_video))
      ∷ when (wants p meta_song_content_rating)
          (char_field atoi (tag b'a' b's' b'c' b'r') (row sg_contentrating))
      ∷ []

module _ (atoi : Bytes → ℕ) (should_transcode : Option Bytes → Bool) where
  unfoldable pub item_size : Privinfo → Row → ℕ
  unfolding item_counts
  item_size p row = total (item_counts atoi p row (should_transcode (row sg_codectype)))

  unfoldable pub item_block : Privinfo → Row → ℕ → Outcome Bytes
  unfolding item_pieces
  item_block p row len = written (item_pieces atoi p row len (should_transcode (row sg_codectype)))
