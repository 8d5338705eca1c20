-- ===== src/SmartParser/FieldTable.antt =====
-- The places of the field names: `sp_fields_0` of src/smart-parser.c, by which a criterion names a
-- member, and `ff_field_data` of src/db.c, by which the member is read.
use fireflymediaserver.Prelude.{
  ℕ, zero, suc, ◌+◌, ◌<◌, ◌≡◌, ◌≢◌, subst, Bool-cases, ltb→lt, ◌↔◌, inl, inr, refl, sym, ◌∙◌, ap,
  Bool, true, false, not, ◌&&◌, List, [], ◌∷◌, Option, none, some, arith, ◌==◌, ltb, if◌then◌else◌,
  get_elem?, Bytes,
}
use fireflymediaserver.SmartParser.Token.{holds_string}
use fireflymediaserver.SmartParser.Tables.{FieldLookup, fields_0}
use fireflymediaserver.SmartParser.Media.{FieldEntry, ff_field_data}

abbrev same_bytes : Bytes → Bytes → Bool
same_bytes [] [] = true
same_bytes (c ∷ s) (d ∷ t) = c == d && same_bytes s t
same_bytes s t = false

-- The entry of each table at a place.
abbrev same_name : Option FieldEntry → FieldLookup → Bool
same_name none f = false
same_name (some e) f = same_bytes e.name f.name

-- At a field the names agree below place 11 only.
abbrev agree_at : ℕ → FieldLookup → Bool
agree_at k f =
    if holds_string f.type
    then (if same_name (get_elem? ff_field_data k) f then ltb k 11 else not (ltb k 11))
    else true

abbrev agree_below : ℕ → List FieldLookup → Bool
agree_below k [] = true
agree_below k (f ∷ table) = agree_at k f && agree_below (suc k) table

agree_table : agree_below 0 fields_0 ≡ true
unfolding fields_0 ff_field_data
agree_table = refl

same_bytes_iff : (s t : Bytes) → (same_bytes s t ≡ true) ↔ (s ≡ t)
same_bytes_iff [] [] = (λ h. refl, λ h. refl)
same_bytes_iff [] (d ∷ t) = (λ h. cc, λ h. cc)
same_bytes_iff (c ∷ s) [] = (λ h. cc, λ h. cc)
same_bytes_iff (c ∷ s) (d ∷ t) =
    (λ h. ground (arith, (same_bytes_iff s t).0), λ h. ground (arith, (same_bytes_iff s t).1))

-- The field is named like the entry of `ff_field_data` at its place.
abbrev pub NamesEntry : ℕ → FieldLookup → Type 0
NamesEntry k f = (e : FieldEntry) × (get_elem? ff_field_data k ≡ some e) × (e.name ≡ f.name)

some_eq : {A : Type 0} (a b : A) → some a ≡ some b → a ≡ b
some_eq a b h = cc

same_name_iff :
    (o : Option FieldEntry) (f : FieldLookup)
    → (same_name o f ≡ true) ↔ ((e : FieldEntry) × (o ≡ some e) × (e.name ≡ f.name))
same_name_iff none f = (λ h. cc, λ (e, h, n). cc)
same_name_iff (some e) f = (
  λ h. (e, refl, (same_bytes_iff e.name f.name).0 h),
  λ (e', h, n). (same_bytes_iff e.name f.name).1 (ap (λ x. x.name) (some_eq e e' h) ∙ n),
)

names_here :
    (k : ℕ) (f : FieldLookup)
    → agree_at k f ≡ true
    → holds_string f.type ≡ true
    → NamesEntry k f ↔ (k < 11)
names_here k f h field =
    let (to, from) = same_name_iff (get_elem? ff_field_data k) f in
    let test : (if same_name (get_elem? ff_field_data k) f then ltb k 11 else not (ltb k 11))
        ≡ true =
      rw field at h in
    elim (Bool-cases (same_name (get_elem? ff_field_data k) f)) [
      | inl y ↦ (λ n. ltb→lt k 11 (rw y at test), λ lt. to y)
      | inr y ↦ (
        λ n. absurd (true≢false (sym (from n) ∙ y)),
        λ lt. absurd (not_below k (rw y at test) lt),
      )
    ]
  where
    true≢false : true ≢ false
    true≢false e = cc

    not_below : (k : ℕ) → not (ltb k 11) ≡ true → k < 11 → ⊥
    not_below k e lt = ground arith

names_at :
    (k i j : ℕ) (table : List FieldLookup) (f : FieldLookup)
    → k + i ≡ j
    → agree_below k table ≡ true
    → get_elem? table i ≡ some f
    → holds_string f.type ≡ true
    → NamesEntry j f ↔ (j < 11)
names_at k i j [] f e h at field = cc
names_at k zero j (g ∷ table) f e h at field =
    let first : agree_at k g ≡ true = and_left (agree_at k g) _ h in
    let same : k ≡ j = omega arith in
    names_here j f
      (subst (λ x. agree_at x f ≡ true) same
        (subst (λ x. agree_at k x ≡ true) (some_eq g f at) first))
      field
  where
    and_left : (a b : Bool) → (a && b) ≡ true → a ≡ true
    and_left a b h = ground arith
names_at k (suc i) j (g ∷ table) f e h at field =
    names_at (suc k) i j table f (omega arith) (and_right (agree_at k g) _ h) at field
  where
    and_right : (a b : Bool) → (a && b) ≡ true → b ≡ true
    and_right a b h = ground arith

-- A field of a playlist is looked up by its place in `sp_fields_0`, but read by the same place of
-- `ff_field_data`: of the fields, only those at the places 0 to 10 have their own name there.
pub field_name_iff :
    (k : ℕ) (f : FieldLookup)
    → get_elem? fields_0 k ≡ some f
    → holds_string f.type ≡ true
    → NamesEntry k f ↔ (k < 11)
field_name_iff k f at field = names_at 0 k k fields_0 f (omega arith) agree_table at field
