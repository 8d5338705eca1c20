-- ===== src/Daap/Sizes/Items.antt =====
-- The counted and the written bytes of a song in src/plugins/out-daap-proto.c.
use fireflymediaserver.Prelude.{
  ℕ, ◌+◌, ◌≡◌, refl, sym, ◌∙◌, ap, Bool, true, false, not, ◌&&◌, List, [], ◌∷◌, Option,
  if◌then◌else◌, length, Bytes, codes, arith,
}
use fireflymediaserver.SmartParser.State.{done}
use fireflymediaserver.RedBlack.{contains}
use fireflymediaserver.Dmap.{dmap_add_container}
use fireflymediaserver.Daap.Fields.{
  meta_item_id, meta_item_name, meta_item_kind, meta_container_item_id, meta_song_album,
  meta_song_artist, meta_song_bpm, meta_song_bit_rate, meta_song_comment, meta_song_compilation,
  meta_song_composer, meta_song_data_kind, meta_song_data_url, meta_song_date_added,
  meta_song_date_modified, meta_song_description, meta_song_disabled, meta_song_disc_count,
  meta_song_disc_number, meta_song_format, meta_song_genre, meta_song_grouping,
  meta_song_sample_rate, meta_song_size, meta_song_time, meta_song_track_count,
  meta_song_track_number, meta_song_user_rating, meta_song_year, meta_song_codec_type,
  meta_song_content_rating, meta_itunes_has_video, sg_id, sg_title, sg_artist, sg_album, sg_genre,
  sg_comment, sg_type, sg_composer, sg_grouping, sg_url, sg_bitrate, sg_samplerate, sg_song_length,
  sg_file_size, sg_year, sg_track, sg_total_tracks, sg_disc, sg_total_discs, sg_bpm, sg_compilation,
  sg_rating, sg_data_kind, sg_item_kind, sg_description, sg_time_added, sg_time_modified,
  sg_disabled, sg_codectype, sg_has_video, sg_contentrating,
}
use fireflymediaserver.Daap.Rows.{
  Privinfo, Row, wants, emit, dmaplen, is_four, count, total, is_set,
}
use fireflymediaserver.Daap.{items, daap_get_size, daap_build_dmap}
use fireflymediaserver.Daap.ItemRows.{item_counts, item_size, item_pieces, item_block}
use fireflymediaserver.Daap.Sizes.{
  IsText, Sizes, changed-HasSize, char-HasSize, emit-HasSize, int-HasSize, literal-HasSize,
  rate-HasSize, rate_size, set-HasSize, short-HasSize, when-HasSize, written-HasSize, ◌&:◌, end,
}

nested_count : (w b : Bool) (n : ℕ) → count w (count b n) ≡ count (b && w) n
nested_count w b n = ground arith

split_count : (w b : Bool) (n : ℕ) → count w n ≡ count (b && w) n + count (w && not b) n
split_count w b n = ground arith

split_rate :
    (w s b : Bool)
    → count w (count s 10) ≡ count (b && w) (count s 10) + count (w && (s && not b)) 10
split_rate w s b = ground arith

module _ (atoi : Bytes → ℕ) where
  -- The columns that are read without a test.
  abbrev pub required : List ℕ
  required =
      sg_id ∷ sg_disc ∷ sg_total_discs ∷ sg_bpm ∷ sg_rating ∷ sg_data_kind ∷ sg_item_kind
      ∷ sg_has_video ∷ sg_contentrating ∷ []

  abbrev pub Required : Row → Type 0
  Required row = (k : ℕ) → contains k required ≡ true → IsText (row k)

  -- The counts of the blocks, in their order.
  abbrev pub block_counts : Privinfo → Row → Bool → List ℕ
  block_counts p row transcode =
      8
      ∷ count (wants p meta_item_kind) 9
      ∷ count (wants p meta_song_data_kind) 9
      ∷ count (wants p meta_song_data_url) (dmaplen p (row sg_url))
      ∷ count (wants p meta_song_album) (dmaplen p (row sg_album))
      ∷ count (wants p meta_song_artist) (dmaplen p (row sg_artist))
      ∷ count (wants p meta_song_bpm) 10
      ∷ rate_size atoi row transcode (wants p meta_song_bit_rate)
      ∷ count (wants p meta_song_comment) (dmaplen p (row sg_comment))
      ∷ count (is_set atoi (row sg_compilation) && wants p meta_song_compilation) 9
      ∷ count (wants p meta_song_composer) (dmaplen p (row sg_composer))
      ∷ count (wants p meta_song_grouping) (dmaplen p (row sg_grouping))
      ∷ count (is_set atoi (row sg_time_added) && wants p meta_song_date_added) 12
      ∷ count (is_set atoi (row sg_time_modified) && wants p meta_song_date_modified) 12
      ∷ count (wants p meta_song_disc_count) 10
      ∷ count (wants p meta_song_disc_number) 10
      ∷ count (wants p meta_song_genre) (dmaplen p (row sg_genre))
      ∷ count (wants p meta_item_id) 12
      ∷ (if transcode
          then count (emit p (row sg_type) && wants p meta_song_format) 11
          else count (wants p meta_song_format) (dmaplen p (row sg_type)))
      ∷ (if transcode
          then count (emit p (row sg_description) && wants p meta_song_description) 22
          else count (wants p meta_song_description) (dmaplen p (row sg_description)))
      ∷ count (wants p meta_item_name) (dmaplen p (row sg_title))
      ∷ count (is_set atoi (row sg_disabled) && wants p meta_song_disabled) 9
      ∷ count (is_set atoi (row sg_samplerate) && wants p meta_song_sample_rate) 12
      ∷ count (is_set atoi (row sg_file_size) && wants p meta_song_size) 12
      ∷ count (is_set atoi (row sg_song_length) && wants p meta_song_time) 12
      ∷ count (is_set atoi (row sg_total_tracks) && wants p meta_song_track_count) 10
      ∷ count (is_set atoi (row sg_track) && wants p meta_song_track_number) 10
      ∷ count (wants p meta_song_user_rating) 9
      ∷ count (is_set atoi (row sg_year) && wants p meta_song_year) 10
      ∷ count (is_four (row sg_codectype) && wants p meta_song_codec_type) 12
      ∷ count (wants p meta_container_item_id) 12
      ∷ count (wants p meta_itunes_has_video) 9
      ∷ count (wants p meta_song_content_rating) 9
      ∷ []

  item_pieces-Sizes :
      (p : Privinfo) (row : Row) (len : ℕ) (transcode : Bool)
      → Required row
      → Sizes (item_pieces atoi p row len transcode) (block_counts p row transcode)
  unfolding item_pieces dmap_add_container
  item_pieces-Sizes p row len transcode req =
      (_, refl, refl)
      &: when-HasSize _ _ _ (char-HasSize atoi _ _ (req sg_item_kind refl))
      &: when-HasSize _ _ _ (char-HasSize atoi _ _ (req sg_data_kind refl))
      &: emit-HasSize p _ (row sg_url) _
      &: emit-HasSize p _ (row sg_album) _
      &: emit-HasSize p _ (row sg_artist) _
      &: when-HasSize _ _ _ (short-HasSize atoi _ _ (req sg_bpm refl))
      &: rate-HasSize atoi row transcode _
      &: emit-HasSize p _ (row sg_comment) _
      &: set-HasSize atoi _ _ _ _ (char-HasSize atoi _ _)
      &: emit-HasSize p _ (row sg_composer) _
      &: emit-HasSize p _ (row sg_grouping) _
      &: set-HasSize atoi _ _ _ _ (int-HasSize atoi _ _)
      &: set-HasSize atoi _ _ _ _ (int-HasSize atoi _ _)
      &: when-HasSize _ _ _ (short-HasSize atoi _ _ (req sg_total_discs refl))
      &: when-HasSize _ _ _ (short-HasSize atoi _ _ (req sg_disc refl))
      &: emit-HasSize p _ (row sg_genre) _
      &: when-HasSize _ _ _ (int-HasSize atoi _ _ (req sg_id refl))
      &: changed-HasSize p _ (row sg_type) (codes "wav") _ transcode
      &: changed-HasSize p _ (row sg_description) (codes "wav audio file") _ transcode
      &: emit-HasSize p _ (row sg_title) _
      &: set-HasSize atoi _ _ _ _ (char-HasSize atoi _ _)
      &: set-HasSize atoi _ _ _ _ (int-HasSize atoi _ _)
      &: set-HasSize atoi _ _ _ _ (int-HasSize atoi _ _)
      &: set-HasSize atoi _ _ _ _ (int-HasSize atoi _ _)
      &: set-HasSize atoi _ _ _ _ (short-HasSize atoi _ _)
      &: set-HasSize atoi _ _ _ _ (short-HasSize atoi _ _)
      &: when-HasSize _ _ _ (char-HasSize atoi _ _ (req sg_rating refl))
      &: set-HasSize atoi _ _ _ _ (short-HasSize atoi _ _)
      &: literal-HasSize _ (row sg_codectype) _
      &: when-HasSize _ _ _ (int-HasSize atoi _ _ (req sg_id refl))
      &: when-HasSize _ _ _ (char-HasSize atoi _ _ (req sg_has_video refl))
      &: when-HasSize _ _ _ (char-HasSize atoi _ _ (req sg_contentrating refl))
      &: end

  -- What `item_size` counts too much where the song is to be transcoded.
  abbrev pub overcount : Privinfo → Row → Bool → ℕ
  overcount p row transcode =
      if transcode
      then total (
          count
            (wants p meta_song_bit_rate
              && (is_set atoi (row sg_samplerate) && not (is_set atoi (row sg_bitrate))))
            10
          ∷ count (wants p meta_song_format && not (emit p (row sg_type))) 11
          ∷ count (wants p meta_song_description && not (emit p (row sg_description))) 22
          ∷ [])
      else 0

  sum_counts :
      (p : Privinfo) (row : Row) (transcode : Bool)
      → total (item_counts atoi p row transcode)
        ≡ total (block_counts p row transcode) + overcount p row transcode
  unfolding item_counts
  sum_counts p row true = omega (
    arith,
    split_rate (wants p meta_song_bit_rate) (is_set atoi (row sg_samplerate))
        (is_set atoi (row sg_bitrate)),
    split_count (wants p meta_song_format) (emit p (row sg_type)) 11,
    split_count (wants p meta_song_description) (emit p (row sg_description)) 22,
  )
  sum_counts p row false =
      omega (arith, nested_count (wants p meta_song_bit_rate) (is_set atoi (row sg_bitrate)) 10)

  -- For a song in whose row the columns that are read without a test are not NULL, `daap_build_dmap`
  -- returns, and `daap_get_size` is the number of the bytes that it wrote, and, where the song is to be
  -- transcoded, those of a bit rate, a format and a description that are asked for and not written.
  pub daap_get_size-daap_build_dmap :
      (p : Privinfo) (row : Row) (len : ℕ) (should_transcode : Option Bytes → Bool)
      → Required row
      → (b : Bytes) × (daap_build_dmap atoi should_transcode p items row len ≡ done b)
        × (daap_get_size atoi should_transcode p items row
            ≡ done (length b + overcount p row (should_transcode (row sg_codectype))))
  unfolding daap_get_size daap_build_dmap item_size item_block
  daap_get_size-daap_build_dmap p row len should_transcode req =
      let transcode = should_transcode (row sg_codectype) in
      let (b, e, l) =
        written-HasSize (item_pieces atoi p row len transcode) (block_counts p row transcode)
          (item_pieces-Sizes p row len transcode req) in
      (b, e, ap done (sum_counts p row transcode ∙ ap (λ n. n + overcount p row transcode) (sym l)))
