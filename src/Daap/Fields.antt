-- ===== src/Daap/Fields.antt =====
-- The places of the requested fields in a query's bit set (MetaFieldName_t of src/plugins/out-daap.h) and
-- of the columns in a row (SG_ and PL_ of src/ff-dbstruct.h).
use fireflymediaserver.Prelude.{ℕ}

abbrev pub meta_item_id : ℕ
meta_item_id = 0

abbrev pub meta_item_name : ℕ
meta_item_name = 1

abbrev pub meta_item_kind : ℕ
meta_item_kind = 2

abbrev pub meta_container_item_id : ℕ
meta_container_item_id = 4

abbrev pub meta_song_album : ℕ
meta_song_album = 6

abbrev pub meta_song_artist : ℕ
meta_song_artist = 7

abbrev pub meta_song_bpm : ℕ
meta_song_bpm = 8

abbrev pub meta_song_bit_rate : ℕ
meta_song_bit_rate = 9

abbrev pub meta_song_comment : ℕ
meta_song_comment = 10

abbrev pub meta_song_compilation : ℕ
meta_song_compilation = 11

abbrev pub meta_song_composer : ℕ
meta_song_composer = 12

abbrev pub meta_song_data_kind : ℕ
meta_song_data_kind = 13

abbrev pub meta_song_data_url : ℕ
meta_song_data_url = 14

abbrev pub meta_song_date_added : ℕ
meta_song_date_added = 15

abbrev pub meta_song_date_modified : ℕ
meta_song_date_modified = 16

abbrev pub meta_song_description : ℕ
meta_song_description = 17

abbrev pub meta_song_disabled : ℕ
meta_song_disabled = 18

abbrev pub meta_song_disc_count : ℕ
meta_song_disc_count = 19

abbrev pub meta_song_disc_number : ℕ
meta_song_disc_number = 20

abbrev pub meta_song_format : ℕ
meta_song_format = 22

abbrev pub meta_song_genre : ℕ
meta_song_genre = 23

abbrev pub meta_song_grouping : ℕ
meta_song_grouping = 24

abbrev pub meta_song_sample_rate : ℕ
meta_song_sample_rate = 26

abbrev pub meta_song_size : ℕ
meta_song_size = 27

abbrev pub meta_song_time : ℕ
meta_song_time = 30

abbrev pub meta_song_track_count : ℕ
meta_song_track_count = 31

abbrev pub meta_song_track_number : ℕ
meta_song_track_number = 32

abbrev pub meta_song_user_rating : ℕ
meta_song_user_rating = 33

abbrev pub meta_song_year : ℕ
meta_song_year = 34

abbrev pub meta_song_codec_type : ℕ
meta_song_codec_type = 35

abbrev pub meta_itunes_smart_playlist : ℕ
meta_itunes_smart_playlist = 44

abbrev pub meta_song_content_rating : ℕ
meta_song_content_rating = 45

abbrev pub meta_itunes_has_video : ℕ
meta_itunes_has_video = 47

abbrev pub meta_m_playlist_spec : ℕ
meta_m_playlist_spec = 48

abbrev pub meta_m_playlist_type : ℕ
meta_m_playlist_type = 49

abbrev pub sg_id : ℕ
sg_id = 0

abbrev pub sg_title : ℕ
sg_title = 3

abbrev pub sg_artist : ℕ
sg_artist = 4

abbrev pub sg_album : ℕ
sg_album = 5

abbrev pub sg_genre : ℕ
sg_genre = 6

abbrev pub sg_comment : ℕ
sg_comment = 7

abbrev pub sg_type : ℕ
sg_type = 8

abbrev pub sg_composer : ℕ
sg_composer = 9

abbrev pub sg_grouping : ℕ
sg_grouping = 12

abbrev pub sg_url : ℕ
sg_url = 13

abbrev pub sg_bitrate : ℕ
sg_bitrate = 14

abbrev pub sg_samplerate : ℕ
sg_samplerate = 15

abbrev pub sg_song_length : ℕ
sg_song_length = 16

abbrev pub sg_file_size : ℕ
sg_file_size = 17

abbrev pub sg_year : ℕ
sg_year = 18

abbrev pub sg_track : ℕ
sg_track = 19

abbrev pub sg_total_tracks : ℕ
sg_total_tracks = 20

abbrev pub sg_disc : ℕ
sg_disc = 21

abbrev pub sg_total_discs : ℕ
sg_total_discs = 22

abbrev pub sg_bpm : ℕ
sg_bpm = 23

abbrev pub sg_compilation : ℕ
sg_compilation = 24

abbrev pub sg_rating : ℕ
sg_rating = 25

abbrev pub sg_data_kind : ℕ
sg_data_kind = 27

abbrev pub sg_item_kind : ℕ
sg_item_kind = 28

abbrev pub sg_description : ℕ
sg_description = 29

abbrev pub sg_time_added : ℕ
sg_time_added = 30

abbrev pub sg_time_modified : ℕ
sg_time_modified = 31

abbrev pub sg_disabled : ℕ
sg_disabled = 33

abbrev pub sg_codectype : ℕ
sg_codectype = 35

abbrev pub sg_has_video : ℕ
sg_has_video = 37

abbrev pub sg_contentrating : ℕ
sg_contentrating = 38

abbrev pub pl_id : ℕ
pl_id = 0

abbrev pub pl_title : ℕ
pl_title = 1

abbrev pub pl_type : ℕ
pl_type = 2

abbrev pub pl_items : ℕ
pl_items = 3

abbrev pub pl_query : ℕ
pl_query = 4
