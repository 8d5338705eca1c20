-- ===== src/RedBlack/Lists.antt =====
-- A tree of keys as a list without repeats: an instance of the interface to libredblack.
use fireflymediaserver.Prelude.{
  ℕ, ◌≡◌, ◌<◌, ◌≤◌, refl, true, false, not, ◌&&◌, ◌||◌, List, [], ◌∷◌, Option, none, some, ◌==◌,
  ==_iff, if◌then◌else◌, length, arith,
}
use fireflymediaserver.RedBlack.{RedBlack, contains}

unfoldable drop_key : ℕ → List ℕ → List ℕ
drop_key k [] = []
drop_key k (x ∷ xs) = if x == k then drop_key k xs else x ∷ drop_key k xs

unfoldable pub put_key : ℕ → List ℕ → List ℕ
put_key k xs = if contains k xs then xs else k ∷ xs

unfoldable pub take_key : ℕ → List ℕ → Option (List ℕ)
unfolding drop_key
take_key k xs = if contains k xs then some (drop_key k xs) else none

contains-drop :
    (j k : ℕ) (xs : List ℕ) → contains j (drop_key k xs) ≡ (not (k == j) && contains j xs)
unfolding drop_key
contains-drop j k [] = ground arith
contains-drop j k (x ∷ xs) =
    ground (arith, ==_iff x k, ==_iff x j, ==_iff k j, contains-drop j k xs)

length-drop : (k : ℕ) (xs : List ℕ) → length (drop_key k xs) ≤ length xs
unfolding drop_key
length-drop k [] = omega arith
length-drop k (x ∷ xs) = ground (arith, length-drop k xs)

length-drop_found :
    (k : ℕ) (xs : List ℕ) → contains k xs ≡ true → length (drop_key k xs) < length xs
unfolding drop_key
length-drop_found k [] h = cc
length-drop_found k (x ∷ xs) h = ground (arith, length-drop k xs, length-drop_found k xs)

pub contains-put : (j k : ℕ) (xs : List ℕ) → contains j (put_key k xs) ≡ (k == j || contains j xs)
unfolding put_key
contains-put j k xs = ground (arith, ==_iff k j)

pub take_none : (k : ℕ) (xs : List ℕ) → take_key k xs ≡ none → contains k xs ≡ false
unfolding take_key
take_none k xs h = ground arith

pub take_some : (k : ℕ) (xs ys : List ℕ) → take_key k xs ≡ some ys → contains k xs ≡ true
unfolding take_key
take_some k xs ys h = ground arith

pub contains-take :
    (j k : ℕ) (xs ys : List ℕ)
    → take_key k xs ≡ some ys
    → contains j ys ≡ (not (k == j) && contains j xs)
unfolding take_key
contains-take j k xs ys h = ground (arith, contains-drop j k xs)

pub length-take : (k : ℕ) (xs ys : List ℕ) → take_key k xs ≡ some ys → length ys < length xs
unfolding take_key
length-take k xs ys h = ground (arith, length-drop_found k xs)

abbrev pub listed : RedBlack
listed = record {
  Tree = List ℕ;
  rbinit = [];
  rbfind = contains;
  rbsearch = put_key;
  rbdelete = take_key;
  rblist = λ t. t;
  list-init = refl;
  find-list = λ k t. refl;
  find-search = contains-put;
  delete_none = take_none;
  delete_some = take_some;
  find-delete = contains-take;
  length-delete = length-take;
}
