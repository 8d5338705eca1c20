-- ===== src/Daap/Tests.antt =====
-- The blocks of rows of src/plugins/out-daap-proto.c at concrete inputs.
use fireflymediaserver.Prelude.{
  ℕ, ◌+◌, ◌^◌, ◌≡◌, refl, Bool, true, false, Option, some, length, Bytes, codes, ◌==◌,
  if◌then◌else◌,
}
use fireflymediaserver.CString.{digits_value}
use fireflymediaserver.SmartParser.State.{done}
use fireflymediaserver.Daap.Fields.{meta_song_bit_rate, meta_item_kind}
use fireflymediaserver.Daap.Rows.{Privinfo, Row, wants}
use fireflymediaserver.Daap.{items, playlists, daap_get_size, daap_build_dmap}
use fireflymediaserver.Daap.Sizes.{HasSize}
use fireflymediaserver.Daap.Sizes.Items.{overcount, daap_get_size-daap_build_dmap}
use fireflymediaserver.Daap.Sizes.Playlists.{playlist_size-playlist_block}

-- The kind and the bit rate are asked for.
abbrev request : Privinfo
request = record { meta = 2 ^ meta_song_bit_rate + 2 ^ meta_item_kind; empty_strings = false }

-- A row of ones, and one of them without a bit rate.
abbrev ones : Row
ones k = some (codes "1")

abbrev no_bit_rate : Row
no_bit_rate k = some (if k == 14 then codes "0" else codes "1")

abbrev always : Option Bytes → Bool
always codec = true

-- The count is ten bytes too much.
counted : daap_get_size (digits_value 0) always request items no_bit_rate ≡ done 27
unfolding daap_get_size digits_value
counted = refl

overcounted : overcount (digits_value 0) request no_bit_rate true ≡ 10
unfolding wants digits_value
overcounted = refl

daap_get_size_example :
    (b : Bytes) × (daap_build_dmap (digits_value 0) always request items no_bit_rate 27 ≡ done b)
    × (daap_get_size (digits_value 0) always request items no_bit_rate
        ≡ done (length b + overcount (digits_value 0) request no_bit_rate true))
daap_get_size_example =
    daap_get_size-daap_build_dmap (digits_value 0) request no_bit_rate 27 always
      (λ k h. (if k == 14 then codes "0" else codes "1", refl))

playlist_size_example :
    (n : ℕ) × (daap_get_size (digits_value 0) always request playlists ones ≡ done n)
    × HasSize (daap_build_dmap (digits_value 0) always request playlists ones 40) n
playlist_size_example =
    playlist_size-playlist_block (digits_value 0) request ones 40 always (
      (codes "1", refl),
      (codes "1", refl),
      (codes "1", refl),
      (codes "1", refl),
      (codes "1", refl),
    )
