-- ===== src/Lib.antt =====
-- Firefly Media Server (mt-daapd): a verification library for the parts of the server that carry its
-- own logic.
--
-- The server keeps a table of songs. Clients ask for songs by a DAAP query, users describe smart
-- playlists by a phrase. Both are parsed by src/smart-parser.c (`sp_parse`), by one recursive descent
-- over two lists of tokens, and evaluated on each song by the same file (`sp_matches_native`,
-- `sp_matches_string`). The members of a song are found by the table `ff_field_data` of src/db.c, in
-- the records MEDIA_NATIVE and MEDIA_STRING of src/ff-dbstruct.h. The configuration and the arguments
-- of requests are kept in the keyed lists of src/ll.c, the configuration as a list of sections that
-- src/conf.c reads and sets, with values cut at commas by `util_split` of src/util.c; the arguments come out of the URL by
-- `ws_urldecode` of src/webserver.c, which also reads the user's password by `ws_decodepassword`. The
-- playlists of src/playlists.c hold song ids in the trees of libredblack; a smart one holds the songs that
-- its phrase chooses, and the database tells them of songs that come, change and go. Answers are built
-- from the DMAP blocks of src/plugins/out-daap-proto.c, a row of the database at a time.
--
-- Files and what they model:
--   Prelude, Prelude/*      shared names: Boolean tests, lists and text, signed integers, tests below a
--                           bound.
--   CString                 the C library's routines on strings that the source calls.
--   Ll                      src/ll.c, one function of the model for each of the file; Ll/Invariant: the
--                           tail pointer; Ll/Content: what is found after a call; Ll/Tests.
--   Dmap                    src/plugins/out-daap-proto.c, the functions dmap_add_*; Dmap/RoundTrip: blocks
--                           read back; Dmap/Tests.
--   Daap                    src/plugins/out-daap-proto.c, daap_get_size and daap_build_dmap, over Fields (the
--                           numbers of fields and columns), Rows (the writing of one field),
--                           PlaylistRows and ItemRows; Sizes, Sizes/Items, Sizes/Playlists: the counted
--                           and the written bytes; Tests.
--   RedBlack                the interface to libredblack; RedBlack/Lists: an instance.
--   Playlists               src/playlists.c: the list, pl_find, and the additions and deletions of songs;
--                           Calls: pl_add_playlist, pl_edit_playlist, pl_delete_playlist, pl_update_smart,
--                           pl_get_playlist_count; Advise: pl_advise_add, pl_advise_del. Find, Content,
--                           NewSong, Smart, Edit: what is in the playlists after a call; Ids, Ids/Same,
--                           Ids/Reachable, Ids/Undo: the ids over runs of calls; Tests.
--   Utf                     src/util.c, the conversions of UTF-16 and UTF-8 for systems without iconv;
--                           Utf/RoundTrip, Utf/Pairs, Utf/Tests.
--   Xml                     src/xml-rpc.c, xml_entity_encode, and src/rxml.c, rxml_decode_string;
--                           Xml/RoundTrip, Xml/Answer, Xml/Tests.
--   Password                src/webserver.c, ws_decodepassword; Password/RoundTrip, Password/Refusal,
--                           Password/Tests.
--   Util                    src/util.c, util_split and util_djb_hash_block; Util/Inside, Util/RoundTrip,
--                           Util/Tests.
--   Conf                    src/conf.c: the elements, the check of a value and the replaced names;
--                           Conf/Tree: conf_main and the calls that read it; Conf/Set: conf_set_string
--                           and conf_write; Conf/Servername: conf_get_servername; Conf/Lists,
--                           Conf/Lists/Calls: what one list finds; Conf/Invariant and its children Put,
--                           Alloc, Section, Values, Calls: the shape of the tree and what each part of
--                           a call sets; Conf/Refinement, Conf/Runs, Conf/History: whole calls and runs
--                           of them; Conf/Tests.
--   Db                      src/db.c, the clean-up of strings, db_utf8_validate_string and db_trim_string;
--                           Db/Clean, Db/Trim; Db/Cache: the song cache, db_cache_find,
--                           _insert, _promote, _fetch, and db_dispose_item; Db/Cache/Chain, Insert, Evict, Calls, Promote, Fetch: the
--                           chain of its entries; Db/Cache/History: runs of calls; Db/Tests.
--   UrlDecode               src/webserver.c, ws_urldecode; UrlDecode/RoundTrip, UrlDecode/Tests.
--   SmartParser/Token       SP_TOKEN, the T_* numbers, hints, the two token lists.
--   SmartParser/Tables      sp_symbols_0/1, sp_fields_0/1, sp_terminators.
--   SmartParser/State       PARSESTRUCT, SP_NODE, outcomes; sp_init, sp_set_error, sp_get_error.
--   SmartParser/Scan        sp_scan, sp_isnumber, sp_isdate, one function for each stage of the
--                           scan, in the order of the code. Its children prove facts of the scan.
--   SmartParser/Tree        which trees can be evaluated.
--   SmartParser/Parse       Monad: the parser's state passed along; Dates: sp_parse_date and
--                           sp_parse_date_interval; Criteria: sp_parse_criterion and the functions
--                           for strings, numbers and dates; Expr: sp_parse and the expressions;
--                           Contract: what each function leaves behind; Total: sp_parse as a whole.
--   SmartParser/ErrorBuffer the size of the error message.
--   SmartParser/Media       ff_field_data, MEDIA_NATIVE, MEDIA_STRING, and reads of them.
--   SmartParser/Match       sp_node_matches, sp_matches_native, sp_matches_string; its children give
--                           the meaning of a tree and relate the code to it; AsRead: trees with NOT,
--                           and names that are not those of their places.
--   SmartParser/Evaluate    parsing and evaluation together.
--   SmartParser/FieldTable  the places of field names in the two tables.
--   SmartParser/Tests       runs at fixed inputs, and instances of the theorems.
--
-- Model. A C string is the list of its bytes without the NUL. The cursor `current` is the rest of the
-- text, or `past_end` behind the NUL. A union is a data type with a constructor for each member, so a
-- read of a member that was not written is the outcome `bad_read`. Reads behind the text and before a
-- string, and messages of level E_FATAL, are outcomes too. `int` and `uint32_t` values are natural
-- numbers below 2 ^ 32 with their wrap-around written out; `time_t` is a signed integer. The clock and
-- `strptime` with `timegm` are the record `Env`, an argument of every function that uses them. `malloc`
-- succeeds, and `memcpy` on overlapping bytes moves them forward.
--
-- Fuel. The loops over bytes are structural. The descent of `sp_parse` runs on fuel, 4 * n + 7 for a
-- text of n bytes: each scan shortens the text or reaches its end, and at most four calls nest between
-- two scans.
--
-- The loops over the song cache run on the length of its chain, which is shown to be enough.
--
-- `pl_purge` runs on the number of the tree's keys, each round deleting one, which is shown to be enough,
-- and `rxml_decode_string` on the number of characters, each round reading one. Where its loop steps over
-- the NUL the model stops, though the loop of the code goes on.
--
-- Code that is not of this repository is an argument of what uses it: libredblack is the record
-- `RedBlack`, with its documented behaviour as laws and a list of keys as an instance; `atoi`, `sscanf`,
-- the database's fetch of a song and the server's `pi_should_transcode` are functions without laws. For
-- src/conf.c the record `System` has `atoi`, `stat` and whether the file can be opened for writing.
--
-- The song cache is a memory of entries at addresses, with the pointers that the code follows and sets;
-- the head `cache_list` has an address too.
--
-- A list of src/ll.c is the chain of its items with the place that `tailptr` points to; a list within
-- a list is named by its address.
--
-- `pl_load` is modelled from where the playlist of a file is put in the list, with any content and id.
-- Whether a `char` is signed is an argument of `ws_decodepassword`. Content of 2 ^ 31 bytes or more, for
-- which the lengths in the DMAP functions are negative, is outside the model.
--
-- Not modelled: log messages and the indentation they print, the release of memory (`sp_dispose`,
-- `sp_free_node`, `ll_destroy`), the SQL form of a tree (compiled out by `#if 0`), the files of
-- `pl_save` and what `pl_load` reads from them, the enumeration of playlists, and the rest of the
-- server: its I/O, file formats, calls of other libraries, code of other projects (the mDNS responder,
-- libredblack), and the parts that have no model here, such as the text of the configuration file and
-- its parser, and the connections of src/webserver.c.
pub mod Prelude
pub mod CString
pub mod RedBlack
pub mod Playlists
pub mod Dmap
pub mod Daap
pub mod Ll
pub mod Util
pub mod Conf
pub mod Db
pub mod UrlDecode
pub mod Utf
pub mod Password
pub mod Xml
pub mod SmartParser
