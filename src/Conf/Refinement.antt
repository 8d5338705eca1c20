-- ===== src/Conf/Refinement.antt =====
-- The calls of src/conf.c against the map from a section and a key to what is set, which forgets where
-- the lists are and the case of the keys.
use fireflymediaserver.Prelude.{
  ◌≡◌, refl, ap, ◌∙◌, true, false, ◌&&◌, if_cases, List, Option, none, some, Bytes, codes,
  if◌then◌else◌,
}
use fireflymediaserver.CString.{eq_nocase}
use fireflymediaserver.Util.{overrun, util_split}
use fireflymediaserver.SmartParser.State.{Outcome, done}
use fireflymediaserver.SmartParser.State
use fireflymediaserver.Conf.{
  ConfError, success, System, ConfType, conf_get_keyinfo, conf_verify_element, is_empty,
}
use fireflymediaserver.Conf.Tree.{Conf, LogChange}
use fireflymediaserver.Conf.Set.{
  conf_set_string, apply_value, conf_write, element_type, is_multi, apply_log,
}
use fireflymediaserver.Conf.Invariant.{has_values, WellFormed}
use fireflymediaserver.Conf.Invariant.Put.{Setting, view}
use fireflymediaserver.Conf.Invariant.Values.{NewSetting}
use fireflymediaserver.Conf.Invariant.Calls.{delete_key-Sets, store_value-Sets, store_value-overrun}

-- What a value means for a key: an empty one that nothing is set, and any other what is set.
abbrev pub Meaning : Bytes → Bytes → Bytes → Option Setting → Type 0
Meaning section key value none = is_empty value ≡ true
Meaning section key value (some new) =
    (is_empty value ≡ false) × NewSetting (has_values section key) key value new

abbrev with_log : List LogChange → Conf → Conf
with_log log conf = record conf { log = log }

with_log-WellFormed :
    (conf : Conf) (log : List LogChange) → WellFormed conf → WellFormed (with_log log conf)
with_log-WellFormed conf log wf = record {
  main_ok = wf.main_ok;
  typed = wf.typed;
  placed = wf.placed;
  apart = wf.apart;
  fits = wf.fits;
}

abbrev SameTree : Conf → Conf → Type 0
SameTree conf conf' = WellFormed conf' × ((s k : Bytes) → view conf' s k ≡ view conf s k)

apply_log-SameTree :
    (system : System) (type : ConfType) (section key value : Bytes) (conf : Conf)
    → WellFormed conf
    → SameTree conf (apply_log system type section key value conf)
unfolding apply_log
apply_log-SameTree system type section key value conf wf =
    if_cases (SameTree conf) (is_multi type) (λ e. (wf, λ s k. refl))
      (λ e. (with_log-WellFormed conf _ wf, λ s k. refl))

-- The call succeeds but for the file, and sets `o` for the key of the section, and nothing else.
abbrev pub Stores : Conf → Bytes → Bytes → Option Setting → Outcome (ConfError × Conf) → Type 0
Stores conf s key o r =
    (e : ConfError) × (conf' : Conf) × (r ≡ done (e, conf'))
    × WellFormed conf'
    × ((s' k : Bytes)
        → view conf' s' k ≡ (if eq_nocase s s' && eq_nocase key k then o else view conf s' k))

pub apply_value-Stores :
    (system : System) (section key value : Bytes) (conf : Conf) (o : Option Setting)
    → WellFormed conf
    → Meaning section key value o
    → Stores conf section key o
        (apply_value system (element_type (conf_get_keyinfo section key)) section key value conf)
unfolding apply_value
apply_value-Stores system section key value conf none wf empty =
    let type = element_type (conf_get_keyinfo section key) in
    let (kept, same) = apply_log-SameTree system type section key value conf wf in
    let (c, r, wf', v) =
      delete_key-Sets (apply_log system type section key value conf) section key kept in
    rw (empty, r)
      (
        success,
        c,
        refl,
        wf',
        λ s' k.
            v s' k
            ∙ ap (λ w. if eq_nocase section s' && eq_nocase key k then none else w) (same s' k),
      )
apply_value-Stores system section key value conf (some new) wf (given, means) =
    let type = element_type (conf_get_keyinfo section key) in
    let (kept, same) = apply_log-SameTree system type section key value conf wf in
    let (c, r, wf', v) =
      store_value-Sets (apply_log system type section key value conf) section key value new kept
        means in
    rw (given, r)
      (
        conf_write system c,
        c,
        refl,
        wf',
        λ s' k.
            v s' k
            ∙ ap (λ w. if eq_nocase section s' && eq_nocase key k then some new else w) (same s' k),
      )

-- A value that passes the check is set: on a tree that has its shape the call returns with such a tree
-- again, where the key of the section, in any case, has what the value means, and every other key what
-- it had. An empty value means that nothing is set; for a key with several values, any other means the
-- strings that util_split finds between commas, where it stays inside its copy; else it means itself.
pub conf_set_string-Stores :
    (system : System) (section key value : Bytes) (conf : Conf) (o : Option Setting)
    → WellFormed conf
    → conf_verify_element system section key value ≡ done success
    → Meaning section key value o
    → Stores conf section key o (conf_set_string system section key value false conf)
unfolding conf_set_string
conf_set_string-Stores system section key value conf o wf passes means =
    rw passes (apply_value-Stores system section key value conf o wf means)

pub apply_value-overrun :
    (system : System) (section key value : Bytes) (conf : Conf)
    → WellFormed conf
    → is_empty value ≡ false
    → has_values section key ≡ true
    → util_split (some value) (some (codes ",")) ≡ overrun
    → apply_value system (element_type (conf_get_keyinfo section key)) section key value conf
      ≡ State.overrun
unfolding apply_value
apply_value-overrun system section key value conf wf given m e =
    let type = element_type (conf_get_keyinfo section key) in
    let (kept, same) = apply_log-SameTree system type section key value conf wf in
    rw
      (
        given,
        store_value-overrun (apply_log system type section key value conf) section key value kept m
            e,
      )
      refl
