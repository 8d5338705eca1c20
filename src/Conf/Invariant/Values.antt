-- ===== src/Conf/Invariant/Values.antt =====
-- The list of values that src/conf.c makes of a string with commas, and what a call has set.
use fireflymediaserver.Prelude.{
  suc, ◌≡◌, refl, sym, ap, ◌∙◌, Bool, true, false, ◌&&◌, List, [], ◌∷◌, ◌++◌, Option, some,
  if◌then◌else◌, Bytes, codes, arith, length, length-append, append_assoc, append-nil, if_cases,
}
use fireflymediaserver.CString.{eq_nocase}
use fireflymediaserver.Ll.{
  LlError, malloc, nokey, dup, badparam, as_string, Item, Ll, ll_create, ll_set_flags, ll_add_item,
  ll_add_string, has_flag, inherit, flag_inherit, item_at,
}
use fireflymediaserver.Ll.Invariant.{TailOk, insert_item_lem}
use fireflymediaserver.Util.{argv, util_split}
use fireflymediaserver.SmartParser.State.{Outcome, done}
use fireflymediaserver.Conf.{ConfError, success}
use fireflymediaserver.Conf.Tree.{Conf}
use fireflymediaserver.Conf.Set.{add_strings, add_split, value_list}
use fireflymediaserver.Conf.Lists.{ListOk, Unique, item}
use fireflymediaserver.Conf.Invariant.{WellFormed}
use fireflymediaserver.Conf.Invariant.Put.{Setting, text, several, view}

-- An item for each value, all with the one key.
unfoldable pub string_items : Bytes → List Bytes → List Item
string_items key [] = []
string_items key (s ∷ args) = item key (as_string s) ∷ string_items key args

-- What a value means: the string, or its values between commas.
abbrev pub NewSetting : Bool → Bytes → Bytes → Setting → Type 0
NewSetting true key value new =
    (args : List Bytes) × (util_split (some value) (some (codes ",")) ≡ argv args)
    × (new ≡ several (string_items key args))
NewSetting false key value new = new ≡ text value

-- The call succeeds, and has set `o` for the key of the section, and nothing else.
abbrev pub Sets : Conf → Bytes → Bytes → Option Setting → Outcome (ConfError × Conf) → Type 0
Sets conf s key o r =
    (conf' : Conf) × (r ≡ done (success, conf'))
    × WellFormed conf'
    × ((s' k : Bytes)
        → view conf' s' k ≡ (if eq_nocase s s' && eq_nocase key k then o else view conf s' k))

-- A list that takes any item, at its end.
add_one :
    (pl : Ll) (key s : Bytes)
    → pl.flags ≡ 0
    → TailOk pl
    → (ll_add_string pl (some key) (some s)).1 ≡ record pl {
      items = pl.items ++ (item key (as_string s) ∷ []);
      tailptr = item_at (length pl.items);
    }
unfolding ll_add_string ll_add_item
add_one pl key s f t = (rw f refl) ∙ insert_item_lem (item key (as_string s)) pl (rw f refl) t

add_strings_lem :
    (key : Bytes) (args : List Bytes) (pl : Ll)
    → pl.flags ≡ 0
    → TailOk pl
    → (add_strings key args pl).items ≡ pl.items ++ string_items key args
unfolding add_strings string_items
add_strings_lem key [] pl f t = sym (append-nil pl.items)
add_strings_lem key (s ∷ args) pl f t =
    let behind : suc (length pl.items) ≡ length (pl.items ++ (item key (as_string s) ∷ [])) =
      omega (arith, length-append pl.items (item key (as_string s) ∷ [])) in
    ap (λ l. (add_strings key args l).items) (add_one pl key s f t)
    ∙ add_strings_lem key args _ f behind
    ∙ append_assoc pl.items (item key (as_string s) ∷ []) (string_items key args)

pub value_list_lem :
    (key value : Bytes) (args : List Bytes) (pl : Ll)
    → util_split (some value) (some (codes ",")) ≡ argv args
    → pl.items ≡ []
    → TailOk pl
    → (new : Ll) × (value_list key value pl ≡ done new) × (new.items ≡ string_items key args)
unfolding value_list add_split ll_set_flags
value_list_lem key value args pl e empty t = (
  add_strings key args (ll_set_flags 0 pl),
  rw e refl,
  add_strings_lem key args (ll_set_flags 0 pl) refl t
      ∙ ap (λ xs. xs ++ string_items key args) empty,
)

empty-ListOk : ListOk ll_create × (ll_create.items ≡ [])
unfolding Unique
empty-ListOk = (record { tail = refl; flags = refl; unique = tt }, refl)

-- A list that has just been added to a sound list is sound and empty.
pub inherit-ListOk :
    (error : LlError) (pl : Ll)
    → pl.flags ≡ 12
    → ListOk (inherit error pl ll_create) × ((inherit error pl ll_create).items ≡ [])
unfolding Unique
inherit-ListOk LlError.success pl f =
    if_cases (λ l. ListOk l × (l.items ≡ [])) (has_flag pl.flags flag_inherit)
      (λ e. (record { tail = refl; flags = f; unique = tt }, refl)) (λ e. empty-ListOk)
inherit-ListOk malloc pl f = empty-ListOk
inherit-ListOk nokey pl f = empty-ListOk
inherit-ListOk dup pl f = empty-ListOk
inherit-ListOk badparam pl f = empty-ListOk
