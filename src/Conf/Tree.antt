-- ===== src/Conf/Tree.antt =====
-- The configuration tree of src/conf.c and the calls that read it. `conf_main` is a list of sections,
-- each a list at an address; a key with several values is a list at an address again. The calls are
-- those on a configuration that was read, so that `conf_main` is not NULL. Memory that is given back
-- is not modelled.
use fireflymediaserver.Prelude.{
  ℕ, ◌+◌, Bool, List, [], ◌∷◌, ◌++◌, Option, none, some, leb, length, if◌then◌else◌, Bytes,
}
use fireflymediaserver.Prelude.Int.{ℤ}
use fireflymediaserver.Ll.{as_int, as_ll, as_string, Item, Ll, ll_fetch_item, is_found}
use fireflymediaserver.SmartParser.State.{Outcome, done, fatal, ◌>>=◌}
use fireflymediaserver.Conf.{ConfError, success, notfound, overflow, System}

-- What the calls on the log are told: its file, whether it is written, its level and its truncation.
pub data LogChange : Type 0 where
  setlogfile : Bytes → LogChange
  logfile_on logfile_off : LogChange
  setlevel settruncate : ℤ → LogChange

-- `lists` is the memory of the lists, and `fresh` the address of the next one. `log` are the calls on
-- the log, the latest first.
pub record Conf : Type 0 where
  pub main : Ll
  pub lists : ℕ → Ll
  pub fresh : ℕ
  pub main_file : Option Bytes
  pub log : List LogChange

-- The list that an item holds: no item, an item of another type, or the list's address.
pub data Holds : Type 0 where
  absent wrong : Holds
  at : ℕ → Holds

abbrev pub holds : Option Item → Holds
holds none = absent
holds (some x) = elim x.value [ as_int n ↦ wrong | as_ll a ↦ at a | as_string s ↦ wrong ]

abbrev pub fetch_at : (ℕ → Ll) → Bytes → Holds → Option Item
fetch_at lists key (at a) = ll_fetch_item (lists a) key
fetch_at lists key other = none

unfoldable pub conf_fetch_item : (ℕ → Ll) → Option Ll → Bytes → Bytes → Option Item
unfolding ll_fetch_item
conf_fetch_item lists none section key = none
conf_fetch_item lists (some pll) section key =
    fetch_at lists key (holds (ll_fetch_item pll section))

unfoldable pub conf_exists : (ℕ → Ll) → Option Ll → Bytes → Bytes → Bool
unfolding conf_fetch_item
conf_exists lists pll section key = is_found (conf_fetch_item lists pll section key)

unfoldable pub conf_isset : Conf → Bytes → Bytes → Bool
unfolding conf_fetch_item
conf_isset conf section key = is_found (conf_fetch_item conf.lists (some conf.main) section key)

-- The string of an item, or the default where there is none or one of another type.
abbrev pub string_or : Option Bytes → Option Item → Option Bytes
string_or dflt none = dflt
string_or dflt (some x) = elim x.value [ as_int n ↦ dflt | as_ll a ↦ dflt | as_string s ↦ some s ]

unfoldable pub conf_get_int : System → Bytes → Bytes → ℤ → Conf → ℤ
unfolding conf_fetch_item
conf_get_int system section key dflt conf =
    elim (string_or none (conf_fetch_item conf.lists (some conf.main) section key)) [
      | none ↦ dflt
      | some s ↦ system.atoi s
    ]

-- The error, `*size` after the call, and what is written to `out`.
unfoldable pub conf_get_string :
    Bytes → Bytes → Option Bytes → ℕ → Conf → ConfError × ℕ × Option Bytes
unfolding conf_fetch_item
conf_get_string section key dflt size conf =
    elim (string_or dflt (conf_fetch_item conf.lists (some conf.main) section key)) [
      | none ↦ (notfound, size, none)
      | some s ↦
          if leb (length s + 1) size
          then (success, length s + 1, some s)
          else (overflow, length s + 1, none)
    ]

unfoldable pub conf_alloc_string : Bytes → Bytes → Option Bytes → Conf → Option Bytes
unfolding conf_fetch_item
conf_alloc_string section key dflt conf =
    string_or dflt (conf_fetch_item conf.lists (some conf.main) section key)

-- The strings of a list; any other item ends the server.
unfoldable pub strings_of : List Item → Outcome (List Bytes)
strings_of [] = done []
strings_of (x ∷ items) = elim x.value [
  | as_int n ↦ fatal
  | as_ll a ↦ fatal
  | as_string s ↦ do rest ← strings_of items; done (s ∷ rest)
]

abbrev pub array_at : (ℕ → Ll) → Holds → Outcome (Option (List Bytes))
array_at lists (at a) = do args ← strings_of (lists a).items; done (some args)
array_at lists other = done none

-- The array, or nothing where the call returns FALSE.
unfoldable pub conf_get_array : Bytes → Bytes → Conf → Outcome (Option (List Bytes))
unfolding conf_fetch_item strings_of
conf_get_array section key conf =
    array_at conf.lists (holds (conf_fetch_item conf.lists (some conf.main) section key))

unfoldable pub glue : Bytes → List Bytes → Bytes
glue delimiter [] = []
glue delimiter (s ∷ []) = s
glue delimiter (s ∷ t ∷ args) = s ++ delimiter ++ glue delimiter (t ∷ args)

abbrev glued : Bytes → List Bytes → Option Bytes
glued delimiter [] = none
glued delimiter (s ∷ args) = some (glue delimiter (s ∷ args))

-- The strings with the delimiter between them, or NULL where there is none.
unfoldable pub conf_implode : Bytes → Bytes → Bytes → Conf → Outcome (Option Bytes)
unfolding conf_fetch_item strings_of glue
conf_implode section key delimiter conf = do
  args ← array_at conf.lists (holds (conf_fetch_item conf.lists (some conf.main) section key))
  done (elim args [ none ↦ none | some strings ↦ glued delimiter strings ])
