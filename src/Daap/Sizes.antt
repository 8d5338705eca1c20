-- ===== src/Daap/Sizes.antt =====
-- The lengths of the blocks that src/plugins/out-daap-proto.c writes for one field.
pub mod Items
pub mod Playlists
use fireflymediaserver.Prelude.{
  ℕ, ◌+◌, ◌-◌, ◌*◌, ◌/◌, ◌%◌, ◌^◌, ◌≡◌, refl, sym, ◌∙◌, ap, Bool, true, false, not, ◌&&◌, List, [],
  ◌∷◌, ◌++◌, Option, none, some, ◌==◌, ltb, if◌then◌else◌, length, length-append, Bytes, bit_and,
  codes, arith, subst,
}
use fireflymediaserver.SmartParser.State.{Outcome, done, bad_read, ◌>>=◌}
use fireflymediaserver.RedBlack.{contains}
use fireflymediaserver.Dmap.{
  Tag, string_bytes, dmap_add_char, dmap_add_short, dmap_add_int, dmap_add_string, dmap_add_literal,
  dmap_add_container,
}
use fireflymediaserver.Daap.Fields.{
  meta_item_id, meta_item_name, meta_item_kind, meta_container_item_id, meta_song_album,
  meta_song_artist, meta_song_bpm, meta_song_bit_rate, meta_song_comment, meta_song_compilation,
  meta_song_composer, meta_song_data_kind, meta_song_data_url, meta_song_date_added,
  meta_song_date_modified, meta_song_description, meta_song_disabled, meta_song_disc_count,
  meta_song_disc_number, meta_song_format, meta_song_genre, meta_song_grouping,
  meta_song_sample_rate, meta_song_size, meta_song_time, meta_song_track_count,
  meta_song_track_number, meta_song_user_rating, meta_song_year, meta_song_codec_type,
  meta_itunes_smart_playlist, meta_song_content_rating, meta_itunes_has_video, meta_m_playlist_spec,
  meta_m_playlist_type, sg_id, sg_title, sg_artist, sg_album, sg_genre, sg_comment, sg_type,
  sg_composer, sg_grouping, sg_url, sg_bitrate, sg_samplerate, sg_song_length, sg_file_size,
  sg_year, sg_track, sg_total_tracks, sg_disc, sg_total_discs, sg_bpm, sg_compilation, sg_rating,
  sg_data_kind, sg_item_kind, sg_description, sg_time_added, sg_time_modified, sg_disabled,
  sg_codectype, sg_has_video, sg_contentrating, pl_id, pl_title, pl_type, pl_items, pl_query,
}
use fireflymediaserver.Daap.Rows.{
  Privinfo, Row, daap_wantsmeta, wants, has_text, emit, dmaplen, is_four, count, total, text_of,
  written, when, tag, string_field, literal_field, guess_bit_rate, is_set, number, char_field,
  short_field, int_field, rate_of, bit_rate_field, is_smart,
}
use fireflymediaserver.Daap.{QueryType, items, playlists, daap_get_size, daap_build_dmap}
use fireflymediaserver.Daap.ItemRows.{item_counts, item_size, item_pieces, item_block}
use fireflymediaserver.Daap.PlaylistRows.{playlist_size, playlist_block}

-- It returns bytes, and this many.
abbrev pub HasSize : Outcome Bytes → ℕ → Type 0
HasSize piece n = (b : Bytes) × (piece ≡ done b) × (length b ≡ n)

abbrev pub IsText : Option Bytes → Type 0
IsText v = (s : Bytes) × (v ≡ some s)

-- Each block returns, with its count.
infixr 5 ◌&:◌
pub data Sizes : List (Outcome Bytes) → List ℕ → Type 0 where
  end : Sizes [] []
  ◌&:◌ :
      {piece : Outcome Bytes} {pieces : List (Outcome Bytes)} {n : ℕ} {ns : List ℕ}
      → HasSize piece n
      → Sizes pieces ns
      → Sizes (piece ∷ pieces) (n ∷ ns)

pub written-HasSize :
    (pieces : List (Outcome Bytes)) (ns : List ℕ)
    → Sizes pieces ns
    → HasSize (written pieces) (total ns)
written-HasSize _ _ end = ([], refl, refl)
written-HasSize (_ ∷ pieces) (_ ∷ ns) ((b, e, l) &: rest) =
    let (bs, es, ls) = written-HasSize pieces ns rest in
    (b ++ bs, rw (e, es) refl, omega (arith, length-append b bs, l, ls))

pub when-HasSize :
    (b : Bool) (piece : Outcome Bytes) (n : ℕ)
    → HasSize piece n
    → HasSize (when b piece) (count b n)
when-HasSize true piece n h = h
when-HasSize false piece n h = ([], refl, refl)

pub unless-HasSize :
    (b : Bool) (piece : Outcome Bytes) (n : ℕ)
    → HasSize piece n
    → HasSize (if b then done [] else piece) (count (not b) n)
unless-HasSize true piece n h = ([], refl, refl)
unless-HasSize false piece n h = h

pub string-HasSize :
    (t : Tag) (v : Option Bytes) → HasSize (string_field t v) (8 + length (string_bytes v))
unfolding string_field dmap_add_string
string-HasSize t v = (_, refl, omega arith)

pub guarded-HasSize :
    (b : Bool) (piece : Outcome Bytes) (n m : ℕ)
    → HasSize piece n
    → count b n ≡ m
    → HasSize (when b piece) m
guarded-HasSize b piece n m h e = subst (HasSize (when b piece)) e (when-HasSize b piece n h)

pub count-emit :
    (p : Privinfo) (v : Option Bytes) (w : Bool)
    → count (emit p v && w) (8 + length (string_bytes v)) ≡ count w (dmaplen p v)
count-emit p none w = ground arith
count-emit p (some s) w = ground arith

pub emit-HasSize :
    (p : Privinfo) (t : Tag) (v : Option Bytes) (w : Bool)
    → HasSize (when (emit p v && w) (string_field t v)) (count w (dmaplen p v))
emit-HasSize p t v w =
    guarded-HasSize (emit p v && w) (string_field t v) (8 + length (string_bytes v))
      (count w (dmaplen p v)) (string-HasSize t v) (count-emit p v w)

pub literal-HasSize :
    (t : Tag) (v : Option Bytes) (w : Bool)
    → HasSize (when (is_four v && w) (literal_field t v)) (count (is_four v && w) 12)
unfolding literal_field dmap_add_literal
literal-HasSize t none w = ([], refl, refl)
literal-HasSize t (some s) w =
    guarded-HasSize (is_four (some s) && w) (literal_field t (some s)) (8 + length s)
      (count (is_four (some s) && w) 12) (_, refl, omega arith) (ground arith)

-- With `transcode` the block has another text, under the test on the row's text.
pub changed-HasSize :
    (p : Privinfo) (t : Tag) (v : Option Bytes) (new : Bytes) (w transcode : Bool)
    → HasSize
        (when (emit p v && w) (string_field t (if transcode then some new else v)))
        (if transcode then count (emit p v && w) (8 + length new) else count w (dmaplen p v))
changed-HasSize p t v new w true =
    when-HasSize (emit p v && w) (string_field t (some new)) (8 + length new)
      (string-HasSize t (some new))
changed-HasSize p t v new w false = emit-HasSize p t v w

module _ (atoi : Bytes → ℕ) where
  pub char-HasSize : (t : Tag) (v : Option Bytes) → IsText v → HasSize (char_field atoi t v) 9
  unfolding char_field dmap_add_char
  char-HasSize t v (s, e) = rw e (_, refl, refl)

  pub short-HasSize : (t : Tag) (v : Option Bytes) → IsText v → HasSize (short_field atoi t v) 10
  unfolding short_field dmap_add_short
  short-HasSize t v (s, e) = rw e (_, refl, refl)

  pub int-HasSize : (t : Tag) (v : Option Bytes) → IsText v → HasSize (int_field atoi t v) 12
  unfolding int_field dmap_add_int
  int-HasSize t v (s, e) = rw e (_, refl, refl)

  -- A field that is written where its column has a number other than 0.
  pub set-HasSize :
      (v : Option Bytes) (w : Bool) (piece : Outcome Bytes) (n : ℕ)
      → (IsText v → HasSize piece n)
      → HasSize (when (is_set atoi v && w) piece) (count (is_set atoi v && w) n)
  set-HasSize none w piece n h = ([], refl, refl)
  set-HasSize (some s) w piece n h = when-HasSize (is_set atoi (some s) && w) piece n (h (s, refl))

  -- The bytes of the bit rate.
  abbrev pub rate_size : Row → Bool → Bool → ℕ
  rate_size row transcode w =
      count (is_set atoi (row sg_bitrate) && w)
        (if transcode then count (is_set atoi (row sg_samplerate)) 10 else 10)

  pub rate_count :
      (v : Option Bytes) → count (not (rate_of atoi v == 0)) 10 ≡ count (is_set atoi v) 10
  rate_count none = refl
  rate_count (some s) = refl

  pub guessed-HasSize :
      (row : Row)
      → HasSize (bit_rate_field atoi true row) (count (is_set atoi (row sg_samplerate)) 10)
  unfolding bit_rate_field dmap_add_short
  guessed-HasSize row =
      let r = rate_of atoi (row sg_samplerate) in
      subst (HasSize (bit_rate_field atoi true row)) (rate_count (row sg_samplerate)) (
        unless-HasSize (r == 0)
          (done (dmap_add_short (tag b'a' b's' b'b' b'r') (guess_bit_rate r)).0) 10 (_, refl, refl))

  pub rate-HasSize :
      (row : Row) (transcode w : Bool)
      → HasSize
          (when (is_set atoi (row sg_bitrate) && w) (bit_rate_field atoi transcode row))
          (rate_size row transcode w)
  unfolding bit_rate_field
  rate-HasSize row true w =
      when-HasSize (is_set atoi (row sg_bitrate) && w) (bit_rate_field atoi true row)
        (count (is_set atoi (row sg_samplerate)) 10) (guessed-HasSize row)
  rate-HasSize row false w =
      set-HasSize (row sg_bitrate) w (bit_rate_field atoi false row) 10
        (short-HasSize (tag b'a' b's' b'b' b'r') (row sg_bitrate))
