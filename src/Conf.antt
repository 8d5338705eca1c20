-- ===== src/Conf.antt =====
-- The configuration of src/conf.c: its elements, the check of a new value, and the replaced names.
pub mod Tree
pub mod Set
pub mod Lists
pub mod Invariant
pub mod Refinement
pub mod Runs
pub mod History
pub mod Servername
mod Tests
use Prim.Native.String.{String}
use fireflymediaserver.Prelude.{
  ℕ, Bool, true, false, not, ◌&&◌, ◌||◌, List, [], ◌∷◌, Option, none, some, ◌==◌, if◌then◌else◌,
  Bytes, codes, bit_and,
}
use fireflymediaserver.Prelude.Int.{ℤ, is_zero}
use fireflymediaserver.CString.{eq_nocase}
use fireflymediaserver.Ll.{eq_bytes}
use fireflymediaserver.Util.{Split, failed, overrun, argv, util_split}
use fireflymediaserver.SmartParser.State.{Outcome, done}
use fireflymediaserver.SmartParser.State

-- CONF_E_SUCCESS to CONF_E_BADCONFIG.
pub data ConfError : Type 0 where
  success fopen unknown badheader parse overflow noconf notfound notwritable : ConfError
  badelement pathexpected intexpected badconfig : ConfError

-- CONF_T_INT to CONF_T_MULTIPATH.
pub data ConfType : Type 0 where
  int string existpath multicomma multipath : ConfType

-- What the C library and the system answer: `atoi`, `st_mode` of a path that `stat` finds, and whether
-- the file can be opened for writing.
pub record System : Type 0 where
  pub atoi : Bytes → ℤ
  pub stat : Bytes → Option ℕ
  pub opens : Bytes → Bool

-- CONF_ELEMENTS.
pub record Element : Type 0 where
  pub required : Bool
  pub deprecated : Bool
  pub type : ConfType
  pub section : Bytes
  pub term : Bytes

abbrev element : Bool → Bool → ConfType → String → String → Element
element required deprecated type section term = record {
  required = required;
  deprecated = deprecated;
  type = type;
  section = codes section;
  term = codes term;
}

-- The table, without the row of NULLs that ends it.
abbrev pub conf_elements : List Element
conf_elements =
    element true false string "general" "runas"
    ∷ element true false existpath "general" "web_root"
    ∷ element true false existpath "general" "cache_dir"
    ∷ element false false int "general" "port"
    ∷ element false false string "general" "admin_pw"
    ∷ element true false multipath "general" "mp3_dir"
    ∷ element false true existpath "general" "db_dir"
    ∷ element false false string "general" "db_type"
    ∷ element false false existpath "general" "db_parms"
    ∷ element false false int "general" "debuglevel"
    ∷ element false false string "general" "servername"
    ∷ element false false int "general" "rescan_interval"
    ∷ element false false int "general" "always_scan"
    ∷ element false true int "general" "latin1_tags"
    ∷ element false false int "general" "process_m3u"
    ∷ element false false int "general" "scan_type"
    ∷ element false true int "general" "compress"
    ∷ element false true string "general" "playlist"
    ∷ element false false string "general" "extensions"
    ∷ element false false string "general" "interface"
    ∷ element false false string "general" "ssc_codectypes"
    ∷ element false false string "general" "ssc_prog"
    ∷ element false false string "general" "password"
    ∷ element false false string "general" "never_transcode"
    ∷ element false false multicomma "general" "compdirs"
    ∷ element false false string "general" "logfile"
    ∷ element false false int "general" "truncate"
    ∷ element false false existpath "plugins" "plugin_dir"
    ∷ element false false multicomma "plugins" "plugins"
    ∷ element false false int "daap" "empty_strings"
    ∷ element false false int "daap" "supports_browse"
    ∷ element false false int "daap" "supports_update"
    ∷ element false false int "scanning" "process_xml"
    ∷ element false false int "scanning" "ignore_appledouble"
    ∷ element false false int "scanning" "ignore_dotfiles"
    ∷ element false false int "scanning" "concat_compilations"
    ∷ element false false int "scanning" "case_sensitive"
    ∷ element false false int "scanning" "follow_symlinks"
    ∷ element false false int "scanning" "skip_first"
    ∷ element false false string "scanning" "mp3_tag_codepage"
    ∷ element false false int "scan" "correct_order"
    ∷ element false false int "scanning" "process_playlists"
    ∷ element false false int "scanning" "process_itunes"
    ∷ element false false int "scanning" "process_m3u"
    ∷ element false false int "daap" "correct_order"
    ∷ []

unfoldable keyinfo_from : Bytes → Bytes → List Element → Option Element
unfolding eq_nocase
keyinfo_from section key [] = none
keyinfo_from section key (e ∷ elements) =
    let later = keyinfo_from section key elements in
    if not (eq_nocase section e.section) || not (eq_nocase key e.term) then later else some e

unfoldable pub conf_get_keyinfo : Bytes → Bytes → Option Element
unfolding keyinfo_from
conf_get_keyinfo section key = keyinfo_from section key conf_elements

-- CONF_MAP, by its rows: the old section and key, and the new ones.
abbrev pub conf_map : List (Bytes × Bytes × Bytes × Bytes)
conf_map =
    (codes "general", codes "process_m3u", codes "scanning", codes "process_playlists")
    ∷ (codes "scanning", codes "process_xml", codes "scanning", codes "process_itunes")
    ∷ (codes "scan", codes "correct_order", codes "daap", codes "correct_order")
    ∷ (codes "general", codes "db_parms", codes "general", codes "cache_dir")
    ∷ []

unfoldable remap_from : Bytes → Bytes → List (Bytes × Bytes × Bytes × Bytes) → Bytes × Bytes
unfolding eq_nocase
remap_from section key [] = (section, key)
remap_from section key ((old_section, old_key, new_section, new_key) ∷ rows) =
    let later = remap_from section key rows in
    if eq_nocase section old_section && eq_nocase key old_key then (new_section, new_key) else later

-- The new section and the new key.
unfoldable pub conf_remap_entry : Bytes → Bytes → Bytes × Bytes
unfolding remap_from
conf_remap_entry section key = remap_from section key conf_map

-- "sb.st_mode & S_IFDIR" of a path that is there.
unfoldable pub conf_existdir : System → Bytes → Bool
conf_existdir system path = elim (system.stat path) [
  | none ↦ false
  | some mode ↦ not (bit_and mode 16384 == 0)
]

unfoldable all_exist : System → List Bytes → Bool
unfolding conf_existdir
all_exist system [] = true
all_exist system (path ∷ paths) = conf_existdir system path && all_exist system paths

-- The loop of a CONF_T_MULTIPATH over the array of util_split.
unfoldable check_paths : System → Split → Outcome ConfError
unfolding all_exist
check_paths system failed = done success
check_paths system overrun = State.overrun
check_paths system (argv paths) = if all_exist system paths then done success else done pathexpected

unfoldable check_type : System → ConfType → Bytes → Outcome ConfError
unfolding eq_bytes check_paths util_split conf_existdir
check_type system multicomma value = done success
check_type system string value = done success
check_type system int value =
    if not (is_zero (system.atoi value)) || eq_bytes value (codes "0")
    then done success
    else done intexpected
check_type system multipath value = check_paths system (util_split (some value) (some (codes ",")))
check_type system existpath value =
    if conf_existdir system value then done success else done pathexpected

abbrev pub is_empty : Bytes → Bool
is_empty [] = true
is_empty (c ∷ s) = false

unfoldable pub conf_verify_element : System → Bytes → Bytes → Bytes → Outcome ConfError
unfolding conf_get_keyinfo check_type
conf_verify_element system section key value = elim (conf_get_keyinfo section key) [
  | none ↦ done badelement
  | some e ↦
      if is_empty value && not e.required then done success else check_type system e.type value
]
