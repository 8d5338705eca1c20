-- ===== src/Conf/Tests.antt =====
-- Runs of the model of src/conf.c.
use fireflymediaserver.Prelude.{
  ◌≡◌, ◌≤◌, ◌+◌, ◌⊎◌, refl, true, false, [], ◌∷◌, ◌++◌, none, some, Bytes, codes, length,
}
use fireflymediaserver.Prelude.Int.{pos}
use fireflymediaserver.CString.{eq_nocase}
use fireflymediaserver.Ll.{ll_create}
use fireflymediaserver.Util.{has}
use fireflymediaserver.Util.RoundTrip.{escape, joined_rest, AllStart}
use fireflymediaserver.SmartParser.State.{Outcome, done, overrun}
use fireflymediaserver.Conf.{
  ConfError, success, badelement, System, conf_verify_element, conf_get_keyinfo, conf_remap_entry,
}
use fireflymediaserver.Conf.Tree.{Conf, conf_alloc_string, conf_get_array}
use fireflymediaserver.Conf.Set.{conf_set_string, apply_value, apply_log}
use fireflymediaserver.Conf.Invariant.{WellFormed, has_values}
use fireflymediaserver.Conf.Invariant.Put.{text}
use fireflymediaserver.Conf.Refinement.{Meaning, Stores, conf_set_string-Stores}
use fireflymediaserver.Conf.Runs.{Returns, conf_set_string-Returns, conf_get_array-conf_set_string}
use fireflymediaserver.Conf.History.{empty, set, Reachable-WellFormed}
use fireflymediaserver.Conf.Servername.{
  short_host, expand, shorten, servername_from, conf_get_servername, servername_from_lem,
}

abbrev linux : System
linux = record { atoi = λ s. pos 0; stat = λ path. some 16877; opens = λ file. true }

abbrev no_sections : Conf
no_sections = record {
  main = ll_create;
  lists = λ a. ll_create;
  fresh = 1;
  main_file = some (codes "/etc/mt-daapd.conf");
  log = [];
}

no_sections-WellFormed : WellFormed no_sections
no_sections-WellFormed = Reachable-WellFormed linux no_sections (empty no_sections refl)

abbrev tree_of : Outcome (ConfError × Conf) → Conf
tree_of (done r) = r.1
tree_of other = no_sections

abbrev set_name : Outcome (ConfError × Conf)
set_name =
    conf_set_string linux (codes "general") (codes "servername") (codes "den") false no_sections

set_name_done : set_name ≡ done (success, tree_of set_name)
unfolding conf_set_string apply_value apply_log
set_name_done = refl

name_is_set :
    conf_alloc_string (codes "General") (codes "ServerName") none (tree_of set_name)
    ≡ some (codes "den")
unfolding conf_set_string apply_value apply_log conf_alloc_string
name_is_set = refl

name_passes :
    conf_verify_element linux (codes "general") (codes "servername") (codes "den") ≡ done success
unfolding conf_verify_element
name_passes = refl

unknown_element :
    conf_verify_element linux (codes "general") (codes "nothing") (codes "den") ≡ done badelement
unfolding conf_verify_element
unknown_element = refl

runas_removed : conf_verify_element linux (codes "general") (codes "runas") [] ≡ done success
unfolding conf_verify_element
runas_removed = refl

replaced :
    conf_remap_entry (codes "scan") (codes "correct_order") ≡ (codes "daap", codes "correct_order")
unfolding conf_remap_entry
replaced = refl

name_means :
    Meaning (codes "general") (codes "servername") (codes "den") (some (text (codes "den")))
unfolding conf_get_keyinfo
name_means = (refl, refl)

Reachable-WellFormed_example : WellFormed (tree_of set_name)
Reachable-WellFormed_example = Reachable-WellFormed linux (tree_of set_name) (
    set (codes "general") (codes "servername") (codes "den") false success (tree_of set_name)
      (empty no_sections refl) set_name_done)

conf_set_string-Stores_example :
    Stores no_sections (codes "general") (codes "servername") (some (text (codes "den"))) set_name
conf_set_string-Stores_example =
    conf_set_string-Stores linux (codes "general") (codes "servername") (codes "den") no_sections
      (some (text (codes "den"))) no_sections-WellFormed name_passes name_means

conf_set_string-Returns_example : Returns set_name
conf_set_string-Returns_example =
    conf_set_string-Returns linux (codes "general") (codes "servername") (codes "den") false
      no_sections no_sections-WellFormed

abbrev two_dirs : Bytes
two_dirs = escape (codes ",") (codes "/a") ++ joined_rest (codes ",") 44 (codes "/b,c" ∷ [])

dirs_pass : conf_verify_element linux (codes "general") (codes "mp3_dir") two_dirs ≡ done success
unfolding conf_verify_element escape joined_rest
dirs_pass = refl

dirs_have_values : has_values (codes "general") (codes "mp3_dir") ≡ true
unfolding conf_get_keyinfo
dirs_have_values = refl

conf_get_array-conf_set_string_example :
    (e : ConfError) × (conf' : Conf) × (conf_set_string linux
        (codes "general")
        (codes "mp3_dir")
        two_dirs
        false
        no_sections
      ≡ done (e, conf'))
    × (conf_get_array (codes "GENERAL") (codes "MP3_Dir") conf'
        ≡ done (some (codes "/a" ∷ codes "/b,c" ∷ [])))
unfolding AllStart has eq_nocase
conf_get_array-conf_set_string_example =
    conf_get_array-conf_set_string linux (codes "general") (codes "mp3_dir") (codes "GENERAL")
      (codes "MP3_Dir") (codes "/a") (codes "/b,c" ∷ []) no_sections no_sections-WellFormed
      dirs_have_values refl refl (47, codes "a", refl, refl) ((47, codes "b,c", refl, refl), tt)
      dirs_pass

servername_of_default :
    conf_get_servername (codes "Den.lan") (codes "1.0") no_sections
    ≡ done (19, codes "firefly 1.0 on den")
unfolding conf_get_servername
servername_of_default = refl

servername_percent : servername_from (codes "den") (codes "1.0") (codes "100%") ≡ overrun
unfolding servername_from
servername_percent = refl

servername_from_lem_example :
    ((out : Bytes) × (expand (short_host (codes "den")) (codes "1.0") (codes "on %h") ≡ done out)
      × (servername_from (codes "den") (codes "1.0") (codes "on %h")
          ≡ done (length out + 1, shorten out))
      × (length (shorten out) ≤ 62)
      × (length out ≤ 62 → shorten out ≡ out))
    ⊎ ((before : Bytes) × (codes "on %h" ≡ before ++ codes "%")
        × (servername_from (codes "den") (codes "1.0") (codes "on %h") ≡ overrun))
servername_from_lem_example = servername_from_lem (codes "den") (codes "1.0") (codes "on %h")
