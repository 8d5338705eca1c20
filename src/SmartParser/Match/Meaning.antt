-- ===== src/SmartParser/Match/Meaning.antt =====
-- What `sp_node_matches` of src/smart-parser.c decides of a song, on a tree that is well formed.
use fireflymediaserver.Prelude.{
  ℕ, suc, List, [], ◌∷◌, ◌≡◌, ◌↔◌, ◌⊎◌, refl, sym, Bool, true, false, ◌&&◌, ◌||◌, arith, ◌==◌,
  if◌then◌else◌, Bytes, Bool-cases, inl, inr, subst,
}
use fireflymediaserver.Prelude.Int.{ℤ}
use fireflymediaserver.SmartParser.Token.{TokenData, cvalue, ivalue, tvalue, t_and, t_or}
use fireflymediaserver.SmartParser.State.{
  Outcome, ◌>>=◌, done, Node, and_or, criterion, OpType, string, int, date,
}
use fireflymediaserver.SmartParser.Tree.{well_formed, well_typed}
use fireflymediaserver.CString.{eq_nocase}
use fireflymediaserver.SmartParser.Media.{
  Media, FieldEntry, ff_field_data, val_string, val_uint32, val_date,
}
use fireflymediaserver.SmartParser.Match.{
  string_matches, int_matches, date_matches, criterion_matches, sp_node_matches,
}
use fireflymediaserver.SmartParser.Match.Relations.{
  Decides, TextHolds, NumberHolds, DateHolds, int_matches-Decides, date_matches-Decides,
  string_matches-Decides,
}

-- What a criterion asks of the value that it reads: the operator's relation to its right side. The
-- value of a record is read as the type of the criterion says.
abbrev pub CriterionHolds : Media → ℕ → OpType → ℕ → TokenData → Type 0
CriterionHolds song op string k (cvalue want) =
    (v : Bytes) × (val_string song k ≡ done v) × TextHolds op v want
CriterionHolds song op int k (ivalue n) =
    (v : ℕ) × (val_uint32 song k ≡ done v) × NumberHolds op v n
CriterionHolds song op date k (tvalue t) = (v : ℤ) × (val_date song k ≡ done v) × DateHolds op v t
CriterionHolds song op type k right = ⊥

-- The place of the member that a name stands for, in any case, in a table of the members; the table's
-- length for a name that it does not have.
unfoldable pub place_of : Bytes → List FieldEntry → ℕ
place_of name [] = 0
place_of name (e ∷ table) =
    (let later = place_of name table in if eq_nocase e.name name then 0 else suc later)

-- What a tree asks of a song: both parts of an AND, one part of an OR, and a criterion's relation of
-- the member that its name stands for, or the contrary under NOT.
unfoldable pub Holds : Media → Node → Type 0
Holds song (and_or left op right) =
    ((op ≡ t_and) × (Holds song left × Holds song right))
    ⊎ ((op ≡ t_or) × (Holds song left ⊎ Holds song right))
Holds song (criterion name op type false k right) =
    CriterionHolds song op type (place_of name ff_field_data) right
Holds song (criterion name op type true k right) =
    CriterionHolds song op type (place_of name ff_field_data) right → ⊥

-- The trees that hold no NOT, and whose criteria have the place of their name in `field_id`.
unfoldable pub KeepsNames : Node → Type 0
KeepsNames (and_or left op right) = KeepsNames left × KeepsNames right
KeepsNames (criterion name op type negated k right) =
    (negated ≡ false) × (place_of name ff_field_data ≡ k)

-- The members that the criteria of a tree read can be read as their types say.
abbrev pub ReadableField : Media → OpType → ℕ → Type 0
ReadableField song string k = (v : Bytes) × (val_string song k ≡ done v)
ReadableField song int k = (v : ℕ) × (val_uint32 song k ≡ done v)
ReadableField song date k = (v : ℤ) × (val_date song k ≡ done v)
ReadableField song type k = Unit

unfoldable pub Readable : Media → Node → Type 0
Readable song (and_or left op right) = Readable song left × Readable song right
Readable song (criterion name op type negated k right) = ReadableField song type k

bind_done-Decides :
    {A : Type 0} (v : A) (f : A → Outcome Bool) (P : A → Type 0)
    → Decides (f v) (P v)
    → Decides (done v >>= f) ((w : A) × (done v ≡ done w) × P w)
bind_done-Decides {A = A} v f P (b, e, (to, from)) =
    (b, e, (λ t. (v, refl, to t), λ (w, same, p). from (subst P (the_same w v same) p)))
  where
    the_same : (w v : A) → done v ≡ done w → w ≡ v
    the_same w v same = cc

bind-Decides :
    {A : Type 0} (r : Outcome A) (v : A)
    → r ≡ done v
    → (f : A → Outcome Bool) (P : A → Type 0) → Decides (f v) (P v)
    → Decides (r >>= f) ((w : A) × (r ≡ done w) × P w)
bind-Decides {A = A} r v e f P d =
    subst (λ x. Decides (x >>= f) ((w : A) × (x ≡ done w) × P w)) (sym e)
      (bind_done-Decides v f P d)

criterion_matches-Decides :
    (song : Media) (op : ℕ) (type : OpType) (k : ℕ) (right : TokenData)
    → well_typed op type right ≡ true
    → ReadableField song type k
    → Decides (criterion_matches song op type k right) (CriterionHolds song op type k right)
unfolding criterion_matches
criterion_matches-Decides song op string k (cvalue want) h (v, e) =
    bind-Decides (val_string song k) v e (λ w. string_matches op w want) (λ w. TextHolds op w want)
      (string_matches-Decides op v want h)
criterion_matches-Decides song op int k (ivalue n) h (v, e) =
    bind-Decides (val_uint32 song k) v e (λ w. int_matches op w n) (λ w. NumberHolds op w n)
      (int_matches-Decides op v n h)
criterion_matches-Decides song op date k (tvalue t) h (v, e) =
    bind-Decides (val_date song k) v e (λ w. date_matches op w t) (λ w. DateHolds op w t)
      (date_matches-Decides op v t h)
criterion_matches-Decides song op type k right h r = absurd cc

abbrev joined : ℕ → Outcome Bool → Bool → Outcome Bool
joined op l r = if op == t_and then (if r then l else done false) else if r then done true else l

join-Decides :
    (op : ℕ) (a b : Bool) {P Q : Type 0}
    → (a ≡ true) ↔ P
    → (b ≡ true) ↔ Q
    → ((op == t_and) || (op == t_or)) ≡ true
    → Decides (joined op (done a) b) (((op ≡ t_and) × (P × Q)) ⊎ ((op ≡ t_or) × (P ⊎ Q)))
join-Decides op a b {P = P} {Q = Q} (to_p, from_p) (to_q, from_q) h =
    let which : (op ≡ t_and) ⊎ (op ≡ t_or) = ground arith in
    let either : (b || a) ≡ true → P ⊎ Q =
      λ t. elim (Bool-cases b) [ inl y ↦ inr (to_q y) | inr n ↦ inl (to_p (ground arith)) ] in
    elim which [
      | inl e ↦ (
        b && a,
        ground arith,
        (
          λ t. inl (e, (to_p (ground arith), to_q (ground arith))),
          λ x. elim x [
            | inl (y, (p, q)) ↦ ground (arith, from_p p, from_q q)
            | inr (y, z) ↦ absurd (omega arith)
          ],
        ),
      )
      | inr e ↦ (
        b || a,
        ground arith,
        (
          λ t. inr (e, either t),
          λ x. elim x [
            | inl (y, z) ↦ absurd (omega arith)
            | inr (y, inl p) ↦ ground (arith, from_p p)
            | inr (y, inr q) ↦ ground (arith, from_q q)
          ],
        ),
      )
    ]

bind_join-Decides :
    (op : ℕ) (l r : Outcome Bool) (a b : Bool) {P : Type 0}
    → l ≡ done a
    → r ≡ done b
    → Decides (joined op (done a) b) P
    → Decides (r >>= joined op l) P
bind_join-Decides op l r a b {P = P} el er d =
    subst (λ x. Decides (x >>= joined op l) P) (sym er)
      (subst (λ y. Decides (joined op y b) P) (sym el) d)

-- A criterion without NOT, read at the place of its name.
named-Decides :
    (song : Media) (name : Bytes) (op : ℕ) (type : OpType) (negated : Bool) (k : ℕ)
    (right : TokenData)
    → negated ≡ false
    → place_of name ff_field_data ≡ k
    → Decides (criterion_matches song op type k right) (CriterionHolds song op type k right)
    → Decides
        (criterion_matches song op type k right)
        (Holds song (criterion name op type negated k right))
unfolding Holds
named-Decides song name op type true k right flag place d = absurd cc
named-Decides song name op type false k right flag place d =
    subst
      (λ i. Decides (criterion_matches song op type k right) (CriterionHolds song op type i right))
      (sym place) d

-- A tree that is well formed and holds no NOT, and whose criteria have the place of their own name, on
-- a song that can be read at its criteria, is decided with no fatal message and no bad read, and the
-- answer is what the tree asks of the members that it names.
pub sp_node_matches_iff :
    (song : Media) (e : Node)
    → well_formed e ≡ true
    → KeepsNames e
    → Readable song e
    → Decides (sp_node_matches song e) (Holds song e)
unfolding sp_node_matches well_formed KeepsNames Readable Holds
sp_node_matches_iff song (criterion name op type negated k right) h (flag, place) r =
    named-Decides song name op type negated k right flag place
      (criterion_matches-Decides song op type k right h r)
sp_node_matches_iff song (and_or left op right) h (u, v) (p, q) =
    let (a, la, ia) = sp_node_matches_iff song left (ground arith) u p in
    let (b, lb, ib) = sp_node_matches_iff song right (ground arith) v q in
    bind_join-Decides op _ _ a b la lb (join-Decides op a b ia ib (ground arith))
