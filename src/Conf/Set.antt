-- ===== src/Conf/Set.antt =====
-- conf_set_string of src/conf.c: a value is checked, told to the log where it is about the log, and put
-- into the tree. The text that conf_write then writes is left out.
use fireflymediaserver.Prelude.{
  ℕ, suc, Bool, true, false, not, ◌&&◌, List, [], ◌∷◌, ◌++◌, Option, none, some, ◌==◌,
  if◌then◌else◌, Bytes, codes,
}
use fireflymediaserver.Ll.{
  LlError, Value, as_ll, as_string, Item, Ll, ll_create, ll_add_string, ll_add_ll, ll_del_item,
  ll_set_flags, ll_update_item, ll_fetch_item, find_place, eq_bytes,
}
use fireflymediaserver.Util.{Split, failed, overrun, argv, util_split}
use fireflymediaserver.SmartParser.State.{Outcome, done, bad_read, ◌>>=◌}
use fireflymediaserver.SmartParser.State
use fireflymediaserver.Conf.{
  ConfError, success, unknown, noconf, notwritable, ConfType, string, multicomma, multipath, System,
  Element, conf_get_keyinfo, conf_verify_element, is_empty,
}
use fireflymediaserver.Conf.Tree.{
  LogChange, setlogfile, logfile_on, logfile_off, setlevel, settruncate, Conf, absent, wrong, at,
  holds, conf_fetch_item,
}

abbrev told : Bool → List LogChange → List LogChange → List LogChange
told true changes log = changes ++ log
told false changes log = log

-- The three tests of `_conf_apply_element`. The old value is not read.
unfoldable pub conf_apply_element : System → Bytes → Bytes → Bytes → List LogChange → List LogChange
unfolding eq_bytes
conf_apply_element system section key cnew log =
    let general = eq_bytes section (codes "general") in
    let file = if is_empty cnew then logfile_off ∷ [] else logfile_on ∷ setlogfile cnew ∷ [] in
    told (general && eq_bytes key (codes "truncate")) (settruncate (system.atoi cnew) ∷ []) (
      told (general && eq_bytes key (codes "debuglevel")) (setlevel (system.atoi cnew) ∷ [])
        (told (general && eq_bytes key (codes "logfile")) file log))

-- The configuration with another list at an address.
unfoldable pub put : ℕ → Ll → Conf → Conf
put a pl conf = record conf { lists = λ b. if b == a then pl else conf.lists b }

-- `ll_create`, with the list at a new address.
unfoldable pub alloc : Ll → Conf → Conf
unfolding put
alloc pl conf = record (put conf.fresh pl conf) { fresh = suc conf.fresh }

-- "while(valuearray[index])": a string for each token.
unfoldable pub add_strings : Bytes → List Bytes → Ll → Ll
unfolding ll_add_string
add_strings key [] pl = pl
add_strings key (s ∷ args) pl = add_strings key args (ll_add_string pl (some key) (some s)).1

unfoldable pub add_split : Bytes → Split → Ll → Outcome Ll
unfolding add_strings
add_split key failed pl = done pl
add_split key overrun pl = State.overrun
add_split key (argv args) pl = done (add_strings key args pl)

-- A list for the values between commas, from the list with the flags it has when it is created.
unfoldable pub value_list : Bytes → Bytes → Ll → Outcome Ll
unfolding add_split util_split ll_set_flags
value_list key value pl =
    add_split key (util_split (some value) (some (codes ","))) (ll_set_flags 0 pl)

abbrev pub is_multi : ConfType → Bool
is_multi multicomma = true
is_multi multipath = true
is_multi other = false

-- The value for a new key of the section at `a`.
unfoldable pub add_value : ConfType → ℕ → Bytes → Bytes → Conf → Outcome (ConfError × Conf)
unfolding value_list alloc put ll_add_string ll_add_ll
add_value type a key value conf =
    if is_multi type
    then (let (error, section, new) = ll_add_ll (conf.lists a) (some key) conf.fresh ll_create in
        do pl ← value_list key value new; done (success, put a section (alloc pl conf)))
    else (let (error, section) = ll_add_string (conf.lists a) (some key) (some value) in
        elim error [
          | LlError.success ↦ done (success, put a section conf)
          | other ↦ done (unknown, conf)
        ])

-- The value for a key that is not there, in a section that may be new.
unfoldable pub add_key : ConfType → Bytes → Bytes → Bytes → Conf → Outcome (ConfError × Conf)
unfolding add_value alloc ll_add_ll
add_key type section key value conf = elim (holds (ll_fetch_item conf.main section)) [
  | absent ↦
      let (error, main, new) = ll_add_ll conf.main (some section) conf.fresh ll_create in
      elim error [
        | LlError.success ↦
            add_value type conf.fresh key value (record (alloc new conf) { main = main })
        | other ↦ done (unknown, conf)
      ]
  | wrong ↦ bad_read
  | at a ↦ add_value type a key value conf
]

-- Another value for the item at the place, where there is one.
abbrev pub update_found : Option ℕ → Value → Ll → Ll
update_found none v pl = pl
update_found (some k) v pl = ll_update_item k v pl

-- Another value for the item that a list finds by the key.
unfoldable pub update_key : Bytes → Value → Ll → Ll
unfolding find_place ll_update_item
update_key key v pl = update_found (find_place pl.flags key pl.items) v pl

-- The value for the item `x` that is there, in the section at `a`.
unfoldable pub replace_value :
    ConfType → ℕ → Bytes → Bytes → Item → Conf → Outcome (ConfError × Conf)
unfolding value_list alloc put update_key
replace_value type a key value x conf =
    if is_multi type
    then elim (holds (some x)) [
      | absent ↦ bad_read
      | wrong ↦ bad_read
      | at b ↦ do
        pl ← value_list key value ll_create
        done (success, put a (update_key key (as_ll conf.fresh) (conf.lists a)) (alloc pl conf))
    ]
    else done (success, put a (update_key key (as_string value) (conf.lists a)) conf)

-- "deleting the item".
unfoldable pub delete_key : Bytes → Bytes → Conf → Outcome (ConfError × Conf)
unfolding put
delete_key section key conf = elim (holds (ll_fetch_item conf.main section)) [
  | absent ↦ done (success, conf)
  | wrong ↦ bad_read
  | at a ↦ done (success, put a (ll_del_item (conf.lists a) key).1 conf)
]

unfoldable pub store_value : ConfType → Bytes → Bytes → Bytes → Conf → Outcome (ConfError × Conf)
unfolding conf_fetch_item add_key replace_value
store_value type section key value conf = elim (holds (ll_fetch_item conf.main section)) [
  | absent ↦ add_key type section key value conf
  | wrong ↦ add_key type section key value conf
  | at a ↦ elim (ll_fetch_item (conf.lists a) key) [
    | none ↦ add_key type section key value conf
    | some x ↦ replace_value type a key value x conf
  ]
]

unfoldable pub conf_write : System → Conf → ConfError
conf_write system conf = elim conf.main_file [
  | none ↦ noconf
  | some file ↦ if system.opens file then success else notwritable
]

abbrev written : System → ConfError × Conf → ConfError × Conf
written system (success, conf) = (conf_write system conf, conf)
written system (error, conf) = (error, conf)

-- "apply the config change, if necessary".
unfoldable pub apply_log : System → ConfType → Bytes → Bytes → Bytes → Conf → Conf
unfolding conf_apply_element
apply_log system type section key value conf =
    if is_multi type
    then conf
    else record conf { log = conf_apply_element system section key value conf.log }

-- The part behind the check. A value that is deleted is not written to the file.
unfoldable pub apply_value :
    System → ConfType → Bytes → Bytes → Bytes → Conf → Outcome (ConfError × Conf)
unfolding delete_key store_value conf_write
apply_value system type section key value conf =
    let conf' = apply_log system type section key value conf in
    if is_empty value
    then delete_key section key conf'
    else do r ← store_value type section key value conf'; done (written system r)

abbrev pub element_type : Option Element → ConfType
element_type none = string
element_type (some e) = e.type

abbrev pub is_success : ConfError → Bool
is_success success = true
is_success other = false

-- "if(verify)", for a value that passes the check.
abbrev pub verified :
    System → ConfType → Bytes → Bytes → Bytes → Bool → Conf → ConfError → Outcome (ConfError × Conf)
verified system type section key value verify conf error =
    if not (is_success error)
    then done (error, conf)
    else if verify
    then done (success, conf)
    else apply_value system type section key value conf

unfoldable pub conf_set_string :
    System → Bytes → Bytes → Bytes → Bool → Conf → Outcome (ConfError × Conf)
unfolding conf_verify_element apply_value conf_get_keyinfo
conf_set_string system section key value verify conf = do
  error ← conf_verify_element system section key value
  verified system (element_type (conf_get_keyinfo section key)) section key value verify conf error
