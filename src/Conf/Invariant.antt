-- ===== src/Conf/Invariant.antt =====
-- The shape of the tree of src/conf.c: sections at addresses of their own, strings and lists of values
-- as the elements want them.
pub mod Put
pub mod Alloc
pub mod Section
pub mod Values
pub mod Calls
use fireflymediaserver.Prelude.{
  ℕ, suc, ◌≤◌, ◌<◌, ◌≡◌, refl, sym, ap, ◌∙◌, Bool, true, false, not, ◌&&◌, ◌||◌, List, [], ◌∷◌,
  Option, none, some, ◌==◌, ==_iff, if◌then◌else◌, Bytes, arith, Bool-cases, inl, inr,
}
use fireflymediaserver.CString.{eq_nocase, tolower}
use fireflymediaserver.Ll.{Value, as_int, as_ll, as_string, Item, Ll, ll_fetch_item, fetch_from}
use fireflymediaserver.Conf.{Element, conf_get_keyinfo, keyinfo_from, conf_elements}
use fireflymediaserver.Conf.Tree.{Conf, Holds, absent, wrong, at, holds, fetch_at}
use fireflymediaserver.Conf.Set.{is_multi, element_type}
use fireflymediaserver.Conf.Lists.{ListOk, eq_nocase-cong_right, eq_nocase-cong, fetch_from-cong}

abbrev pub section_of : Conf → Bytes → Holds
section_of conf s = holds (ll_fetch_item conf.main s)

-- The key has a list of values.
abbrev pub has_values : Bytes → Bytes → Bool
has_values s k = is_multi (element_type (conf_get_keyinfo s k))

-- A list of values at an address in use that is no section's, or a string.
abbrev pub Fits : Bool → Value → ℕ → (Bytes → Holds) → Type 0
Fits true v fresh sections =
    (b : ℕ) × (v ≡ as_ll b) × (b < fresh) × ((s : Bytes) → sections s ≡ at b → ⊥)
Fits false v fresh sections = (t : Bytes) × (v ≡ as_string t)

pub record WellFormed (conf : Conf) : Type 0 where
  pub main_ok : ListOk conf.main
  pub typed : (s : Bytes) → section_of conf s ≡ wrong → ⊥
  pub placed :
      (s : Bytes) (a : ℕ) → section_of conf s ≡ at a → (a < conf.fresh) × ListOk (conf.lists a)
  pub apart :
      (s s' : Bytes) (a : ℕ)
      → section_of conf s ≡ at a
      → section_of conf s' ≡ at a
      → eq_nocase s s' ≡ true
  pub fits :
      (s : Bytes) (a : ℕ) (k : Bytes) (x : Item)
      → section_of conf s ≡ at a
      → ll_fetch_item (conf.lists a) k ≡ some x
      → Fits (has_values s k) x.value conf.fresh (section_of conf)

pub eq_nocase_refl : (a : Bytes) → eq_nocase a a ≡ true
unfolding eq_nocase
eq_nocase_refl [] = refl
eq_nocase_refl (x ∷ a) = ground (arith, ==_iff (tolower x) (tolower x), eq_nocase_refl a)

pub at_eq : (a b : ℕ) → at a ≡ at b → a ≡ b
at_eq a b h = cc

keyinfo_from-cong :
    (s s' k k' : Bytes) (elements : List Element)
    → eq_nocase s s' ≡ true
    → eq_nocase k k' ≡ true
    → keyinfo_from s k elements ≡ keyinfo_from s' k' elements
unfolding keyinfo_from
keyinfo_from-cong s s' k k' [] h i = refl
keyinfo_from-cong s s' k k' (e ∷ elements) h i =
    rw
      (
        eq_nocase-cong s s' e.section h,
        eq_nocase-cong k k' e.term i,
        keyinfo_from-cong s s' k k' elements h i,
      )
      refl

pub has_values-cong :
    (s s' k k' : Bytes)
    → eq_nocase s s' ≡ true
    → eq_nocase k k' ≡ true
    → has_values s k ≡ has_values s' k'
unfolding conf_get_keyinfo
has_values-cong s s' k k' h i =
    ap (λ o. is_multi (element_type o)) (keyinfo_from-cong s s' k k' conf_elements h i)

-- Sections that agree but for case are the same one.
pub section_of-cong :
    (conf : Conf) (s s' : Bytes)
    → ListOk conf.main
    → eq_nocase s s' ≡ true
    → section_of conf s ≡ section_of conf s'
unfolding ll_fetch_item
section_of-cong conf s s' ok h = rw ok.flags (ap holds (fetch_from-cong s s' conf.main.items h))
