-- ===== src/Conf/Runs.antt =====
-- Runs of the calls of src/conf.c, from a configuration without any section.
use fireflymediaserver.Prelude.{
  ℕ, suc, ◌≡◌, refl, ◌∙◌, Bool, true, false, ◌&&◌, ◌⊎◌, inl, inr, List, [], ◌∷◌, Option, none, some,
  Bytes, codes, if◌then◌else◌, Bool-cases, Option-cases, not, if_cases, ◌++◌, ◌==◌,
}
use fireflymediaserver.CString.{eq_nocase}
use fireflymediaserver.Ll.{Value, as_int, as_ll, as_string, Item, Ll}
use fireflymediaserver.Util.{
  has, Split, argv, failed, overrun, split_result, tokens, count_from, skip_leading, util_split,
}
use fireflymediaserver.Util.RoundTrip.{
  escape, escape_start, joined_rest, StartsWith, AllStart, util_split-joined,
}
use fireflymediaserver.SmartParser.State.{Outcome, done}
use fireflymediaserver.SmartParser.State
use fireflymediaserver.Conf.{
  ConfError, success, badelement, System, ConfType, int, string, existpath, multicomma, multipath,
  conf_get_keyinfo, conf_verify_element, is_empty, check_type, check_paths,
}
use fireflymediaserver.Conf.Tree.{
  Conf, at, holds, conf_get_array, strings_of, fetch_at, conf_fetch_item,
}
use fireflymediaserver.Conf.Set.{conf_set_string, apply_value, element_type, is_success}
use fireflymediaserver.Conf.Lists.{item}
use fireflymediaserver.Conf.Invariant.{section_of, has_values, WellFormed}
use fireflymediaserver.Conf.Invariant.Put.{Setting, text, number, several, setting, shown, view}
use fireflymediaserver.Conf.Invariant.Values.{string_items}
use fireflymediaserver.Conf.Refinement.{
  Stores, conf_set_string-Stores, apply_value-Stores, apply_value-overrun,
}

-- The call returns a tree that has its shape, or reads outside the copy that util_split makes.
abbrev pub Returns : Outcome (ConfError × Conf) → Type 0
Returns r =
    (r ≡ State.overrun)
    ⊎ ((e : ConfError) × (conf' : Conf) × (r ≡ done (e, conf')) × WellFormed conf')

split_result-cases :
    (o : Option (List Bytes))
    → (split_result o ≡ overrun) ⊎ ((args : List Bytes) × (split_result o ≡ argv args))
split_result-cases none = inl refl
split_result-cases (some args) = inr (args, refl)

util_split-cases :
    (s delimiters : Bytes)
    → (util_split (some s) (some delimiters) ≡ overrun)
      ⊎ ((args : List Bytes) × (util_split (some s) (some delimiters) ≡ argv args))
unfolding util_split
util_split-cases s delimiters =
    split_result-cases
      (tokens delimiters (suc (count_from delimiters s)) (some (skip_leading delimiters s)))

abbrev Checks : Outcome ConfError → Type 0
Checks r = (r ≡ State.overrun) ⊎ ((e : ConfError) × (r ≡ done e))

Checks-done : (e : ConfError) → Checks (done e)
Checks-done e = inr (e, refl)

Checks-if : (b : Bool) (e e' : ConfError) → Checks (if b then done e else done e')
Checks-if true e e' = Checks-done e
Checks-if false e e' = Checks-done e'

check_paths-Checks : (system : System) (split : Split) → Checks (check_paths system split)
unfolding check_paths
check_paths-Checks system failed = Checks-done success
check_paths-Checks system overrun = inl refl
check_paths-Checks system (argv paths) = Checks-if _ _ _

check_type-Checks :
    (system : System) (type : ConfType) (value : Bytes) → Checks (check_type system type value)
unfolding check_type
check_type-Checks system int value = Checks-if _ _ _
check_type-Checks system string value = Checks-done success
check_type-Checks system existpath value = Checks-if _ _ _
check_type-Checks system multicomma value = Checks-done success
check_type-Checks system multipath value = check_paths-Checks system _

verify-Checks :
    (system : System) (section key value : Bytes)
    → Checks (conf_verify_element system section key value)
unfolding conf_verify_element
verify-Checks system section key value = elim (Option-cases (conf_get_keyinfo section key)) [
  | inl e ↦ rw (conf_verify_element, e) (Checks-done badelement)
  | inr (element, e) ↦
      rw (conf_verify_element, e)
        (if_cases Checks (is_empty value && not element.required) (λ i. Checks-done success)
          (λ i. check_type-Checks system element.type value))
]

Stores-Returns :
    (conf : Conf) (s key : Bytes) (o : Option Setting) (r : Outcome (ConfError × Conf))
    → Stores conf s key o r
    → Returns r
Stores-Returns conf s key o r (e, conf', eq, wf, v) = inr (e, conf', eq, wf)

apply_value-Returns :
    (system : System) (section key value : Bytes) (conf : Conf)
    → WellFormed conf
    → Returns
        (apply_value system (element_type (conf_get_keyinfo section key)) section key value conf)
apply_value-Returns system section key value conf wf = elim (Bool-cases (is_empty value)) [
  | inl empty ↦
      Stores-Returns conf section key none _
        (apply_value-Stores system section key value conf none wf empty)
  | inr given ↦ elim (Bool-cases (has_values section key)) [
    | inl m ↦ elim (util_split-cases value (codes ",")) [
      | inl e ↦ inl (apply_value-overrun system section key value conf wf given m e)
      | inr (args, e) ↦ Stores-Returns conf section key (some (several (string_items key args))) _ (
          apply_value-Stores system section key value conf (some (several (string_items key args)))
            wf (given, rw m (args, e, refl)))
    ]
    | inr m ↦
        Stores-Returns conf section key (some (text value)) _ (
          apply_value-Stores system section key value conf (some (text value)) wf
            (given, rw m refl))
  ]
]

-- On a tree that has its shape, a call either returns, with an error or without, and leaves a tree that
-- has its shape, or reads outside the copy that util_split makes of the value. It never takes a string
-- for a list or a list for a string.
pub conf_set_string-Returns :
    (system : System) (section key value : Bytes) (verify : Bool) (conf : Conf)
    → WellFormed conf
    → Returns (conf_set_string system section key value verify conf)
unfolding conf_set_string
conf_set_string-Returns system section key value verify conf wf =
    elim (verify-Checks system section key value) [
      | inl e ↦ inl (rw e refl)
      | inr (error, e) ↦ rw e (
          if_cases Returns (not (is_success error)) (λ i. inr (error, conf, refl, wf))
            (λ i.
              if_cases Returns verify (λ j. inr (success, conf, refl, wf))
                (λ j. apply_value-Returns system section key value conf wf)))
    ]

strings_of-string_items :
    (key : Bytes) (args : List Bytes) → strings_of (string_items key args) ≡ done args
unfolding strings_of string_items
strings_of-string_items key [] = refl
strings_of-string_items key (s ∷ args) = rw (strings_of-string_items key args) refl

text_ne : (t : Bytes) (items : List Item) → some (text t) ≡ some (several items) → ⊥
text_ne t items h = cc

number_ne : (n : ℕ) (items : List Item) → some (number n) ≡ some (several items) → ⊥
number_ne n items h = cc

none_ne : (items : List Item) → none ≡ some (several items) → ⊥
none_ne items h = cc

several_eq : (xs ys : List Item) → some (several xs) ≡ some (several ys) → xs ≡ ys
several_eq xs ys h = cc

item_several :
    (lists : ℕ → Ll) (v : Value) (items : List Item)
    → some (setting lists v) ≡ some (several items)
    → (a : ℕ) × (holds (some (item [] v)) ≡ at a) × ((lists a).items ≡ items)
item_several lists (as_int n) items h = absurd (number_ne n items h)
item_several lists (as_ll a) items h = (a, refl, several_eq _ _ h)
item_several lists (as_string t) items h = absurd (text_ne t items h)

shown_several :
    (lists : ℕ → Ll) (o : Option Item) (items : List Item)
    → shown lists o ≡ some (several items)
    → (a : ℕ) × (holds o ≡ at a) × ((lists a).items ≡ items)
shown_several lists none items h = absurd (none_ne items h)
shown_several lists (some x) items h = item_several lists x.value items h

array_of_view :
    (conf : Conf) (s k key : Bytes) (args : List Bytes)
    → view conf s k ≡ some (several (string_items key args))
    → conf_get_array s k conf ≡ done (some args)
unfolding conf_get_array conf_fetch_item
array_of_view conf s k key args h =
    let (a, list, e) = shown_several conf.lists (fetch_at conf.lists k (section_of conf s)) _ h in
    rw (conf_get_array, list, e, strings_of-string_items key args) refl

comma_has : has (codes ",") 44 ≡ true
unfolding has
comma_has = refl

joined_given :
    (t r : Bytes) → StartsWith (has (codes ",")) t → is_empty (escape (codes ",") t ++ r) ≡ false
joined_given t r (c, rest, e, other) =
    let (more, start) = escape_start (codes ",") c rest r in rw e (rw start refl)

-- Values that are written with their commas doubled and with commas between them come back from
-- conf_get_array as they were, under the key in any case, once conf_set_string has taken them: for a key
-- with several values, on a tree that has its shape, where the value passes the check and none of the
-- values is empty or starts with a comma.
pub conf_get_array-conf_set_string :
    (system : System) (section key section' key' t : Bytes) (ts : List Bytes) (conf : Conf)
    → WellFormed conf
    → has_values section key ≡ true
    → eq_nocase section section' ≡ true
    → eq_nocase key key' ≡ true
    → StartsWith (has (codes ",")) t
    → AllStart (λ c. c == 44) ts
    → conf_verify_element system section key (escape (codes ",") t ++ joined_rest (codes ",") 44 ts)
      ≡ done success
    → (e : ConfError) × (conf' : Conf) × (conf_set_string system section key
          (escape (codes ",") t ++ joined_rest (codes ",") 44 ts)
          false
          conf
        ≡ done (e, conf'))
      × (conf_get_array section' key' conf' ≡ done (some (t ∷ ts)))
conf_get_array-conf_set_string system section key section' key' t ts conf wf m s k start all
      passes =
    let value : Bytes = escape (codes ",") t ++ joined_rest (codes ",") 44 ts in
    let split : util_split (some value) (some (codes ",")) ≡ argv (t ∷ ts) =
      util_split-joined (codes ",") 44 t ts comma_has start all in
    let given : is_empty value ≡ false = joined_given t (joined_rest (codes ",") 44 ts) start in
    let (e, conf', r, wf', v) =
      conf_set_string-Stores system section key value conf
        (some (several (string_items key (t ∷ ts)))) wf passes
        (given, rw m (t ∷ ts, split, refl)) in
    (e, conf', r, array_of_view conf' section' key' key (t ∷ ts) (v section' key' ∙ rw (s, k) refl))
