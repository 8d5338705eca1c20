-- ===== src/Daap/Sizes/Playlists.antt =====
-- The counted and the written bytes of a playlist in src/plugins/out-daap-proto.c.
use fireflymediaserver.Prelude.{
  ℕ, ◌+◌, ◌≡◌, refl, ◌∙◌, Bool, not, ◌&&◌, List, [], ◌∷◌, Option, some, ◌==◌, length, Bytes, arith,
}
use fireflymediaserver.SmartParser.State.{Outcome, done, ◌>>=◌}
use fireflymediaserver.Daap.Fields.{
  meta_item_id, meta_item_name, meta_itunes_smart_playlist, meta_m_playlist_spec,
  meta_m_playlist_type, pl_id, pl_title, pl_type, pl_items, pl_query,
}
use fireflymediaserver.Daap.Rows.{
  number, written, Privinfo, Row, wants, count, total, is_smart, string_field,
}
use fireflymediaserver.Dmap.{Tag, dmap_add_char, dmap_add_container}
use fireflymediaserver.Daap.{playlists, daap_get_size, daap_build_dmap}
use fireflymediaserver.Daap.PlaylistRows.{playlist_size, playlist_pieces, playlist_block}
use fireflymediaserver.Daap.Sizes.{
  HasSize, IsText, Sizes, ◌&:◌, end, written-HasSize, when-HasSize, string-HasSize, char-HasSize,
  int-HasSize,
}

text-HasSize :
    (t : Tag) (v : Option Bytes) (s : Bytes)
    → v ≡ some s
    → HasSize (string_field t v) (8 + length s)
text-HasSize t v s e = rw e (string-HasSize t (some s))

module _ (atoi : Bytes → ℕ) where
  -- The columns of a playlist that are read.
  abbrev pub ReadColumns : Row → Type 0
  ReadColumns row =
      IsText (row pl_id)
      × IsText (row pl_items)
      × IsText (row pl_title)
      × IsText (row pl_type)
      × IsText (row pl_query)

  playlist_counts : Privinfo → Row → ℕ → Bytes → Bytes → List ℕ
  playlist_counts p row id title q =
      8
      ∷ 12
      ∷ count (wants p meta_item_id) 12
      ∷ count (wants p meta_itunes_smart_playlist && (is_smart atoi (row pl_type) && not (id == 1)))
          9
      ∷ count (id == 1) 9
      ∷ count (wants p meta_item_name) (8 + length title)
      ∷ count (is_smart atoi (row pl_type) && wants p meta_m_playlist_spec) (8 + length q)
      ∷ count (wants p meta_m_playlist_type) 9
      ∷ []

  number_then :
      (v : Option Bytes) (i : Bytes) (f : ℕ → Outcome Bytes) (b : Bytes)
      → v ≡ some i
      → f (atoi i) ≡ done b
      → (number atoi v >>= f) ≡ done b
  number_then v i f b e h = rw e h

  same_total :
      (p : Privinfo) (row : Row) (id : ℕ) (t q : Bytes)
      → total (
          8
          ∷ count (wants p meta_item_id) 12
          ∷ 12
          ∷ count
              (wants p meta_itunes_smart_playlist && (is_smart atoi (row pl_type) && not (id == 1)))
              9
          ∷ count (id == 1) 9
          ∷ count (wants p meta_item_name) (8 + length t)
          ∷ count (is_smart atoi (row pl_type) && wants p meta_m_playlist_spec) (8 + length q)
          ∷ count (wants p meta_m_playlist_type) 9
          ∷ [])
        ≡ total (playlist_counts p row id t q)
  unfolding playlist_counts
  same_total p row id t q = omega arith

  playlist_size_lem :
      (p : Privinfo) (row : Row) (i t q : Bytes)
      → row pl_id ≡ some i
      → row pl_title ≡ some t
      → row pl_query ≡ some q
      → playlist_size atoi p row ≡ done (total (playlist_counts p row (atoi i) t q))
  unfolding playlist_size playlist_counts
  playlist_size_lem p row i t q ei et eq = ground (arith, ei, et, eq)

  playlist_pieces-Sizes :
      (p : Privinfo) (row : Row) (len id : ℕ) (n t q : Bytes)
      → row pl_id ≡ some n
      → IsText (row pl_items)
      → row pl_title ≡ some t
      → IsText (row pl_type)
      → row pl_query ≡ some q
      → Sizes (playlist_pieces atoi p row len id) (
          8
          ∷ count (wants p meta_item_id) 12
          ∷ 12
          ∷ count
              (wants p meta_itunes_smart_playlist && (is_smart atoi (row pl_type) && not (id == 1)))
              9
          ∷ count (id == 1) 9
          ∷ count (wants p meta_item_name) (8 + length t)
          ∷ count (is_smart atoi (row pl_type) && wants p meta_m_playlist_spec) (8 + length q)
          ∷ count (wants p meta_m_playlist_type) 9
          ∷ [])
  unfolding playlist_pieces dmap_add_container dmap_add_char
  playlist_pieces-Sizes p row len id n t q ei has_items et ey eq =
      (_, refl, refl)
      &: when-HasSize _ _ _ (int-HasSize atoi _ _ (n, ei))
      &: int-HasSize atoi _ _ has_items
      &: when-HasSize _ _ _ (_, refl, refl)
      &: when-HasSize _ _ _ (_, refl, refl)
      &: when-HasSize _ _ _ (text-HasSize _ _ t et)
      &: when-HasSize _ _ _ (text-HasSize _ _ q eq)
      &: when-HasSize _ _ _ (char-HasSize atoi _ _ ey)
      &: end

  -- For a playlist in whose row no column that is read is NULL, `daap_get_size` returns, and
  -- `daap_build_dmap` writes this many bytes.
  pub playlist_size-playlist_block :
      (p : Privinfo) (row : Row) (len : ℕ) (should_transcode : Option Bytes → Bool)
      → ReadColumns row
      → (n : ℕ) × (daap_get_size atoi should_transcode p playlists row ≡ done n)
        × HasSize (daap_build_dmap atoi should_transcode p playlists row len) n
  unfolding daap_get_size daap_build_dmap playlist_size playlist_block dmap_add_container
      dmap_add_char
  playlist_size-playlist_block p row len should_transcode
        ((i, ei), (n, en), (t, et), (y, ey), (q, eq)) =
      let (b, run, l) =
        written-HasSize (playlist_pieces atoi p row len (atoi i)) _
          (playlist_pieces-Sizes p row len (atoi i) i t q ei (n, en) et (y, ey) eq) in
      let n' : ℕ = total (playlist_counts p row (atoi i) t q) in
      (
        n',
        playlist_size_lem p row i t q ei et eq,
        (
          b,
          number_then (row pl_id) i (λ id. written (playlist_pieces atoi p row len id)) b ei run,
          l ∙ same_total p row (atoi i) t q,
        ),
      )
