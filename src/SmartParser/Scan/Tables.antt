-- ===== src/SmartParser/Scan/Tables.antt =====
-- What the tables of src/smart-parser.c give the scanner: names that are not empty, and types that
-- are neither T_NUMBER nor T_DATE, nor, for symbols, types with a string.
use fireflymediaserver.Prelude.{
  ℕ, ◌+◌, ◌<◌, ◌≡◌, refl, Bool, true, false, not, ◌&&◌, List, [], ◌∷◌, some, arith, length, ◌==◌,
  Bytes, Option-cases, inl, inr, Bool-cases,
}
use fireflymediaserver.CString.{strip_prefix, eq_nocase}
use fireflymediaserver.SmartParser.Token.{
  holds_string, QueryType, playlist, query, t_number, t_date, t_string, t_eof, t_error, t_bof,
}
use fireflymediaserver.SmartParser.Tables.{
  FieldLookup, sp_symbols, sp_fields, symbols_0, symbols_1, fields_0, fields_1,
}
use fireflymediaserver.SmartParser.Scan.{find_symbol, find_field}

-- A type that stands for at least one byte of the text.
abbrev pub is_solid : ℕ → Bool
is_solid id =
    not (id == t_number)
    && not (id == t_date)
    && not (id == t_string)
    && not (id == t_error)
    && not (id == t_eof)
    && not (id == t_bof)

abbrev pub is_entry : FieldLookup → Bool
is_entry f = not (length f.name == 0) && is_solid f.type

abbrev pub is_symbol : FieldLookup → Bool
is_symbol f = is_entry f && not (holds_string f.type)

unfoldable pub all_entries : (FieldLookup → Bool) → List FieldLookup → Bool
all_entries p [] = true
all_entries p (f ∷ table) = p f && all_entries p table

pub sp_symbols_lem : (list : QueryType) → all_entries is_symbol (sp_symbols list) ≡ true
unfolding all_entries symbols_0 symbols_1
sp_symbols_lem playlist = refl
sp_symbols_lem query = refl

pub sp_fields_lem : (list : QueryType) → all_entries is_entry (sp_fields list) ≡ true
unfolding all_entries fields_0 fields_1
sp_fields_lem playlist = refl
sp_fields_lem query = refl

pub length-strip_prefix :
    (p s rest : Bytes) → strip_prefix p s ≡ some rest → length rest + length p ≡ length s
unfolding strip_prefix
length-strip_prefix [] s rest h = ground arith
length-strip_prefix (c ∷ p) [] rest h = ground arith
length-strip_prefix (c ∷ p) (d ∷ s) rest h = ground (arith, length-strip_prefix p s rest)

pub length-eq_nocase : (a b : Bytes) → eq_nocase a b ≡ true → length a ≡ length b
unfolding eq_nocase
length-eq_nocase [] [] h = refl
length-eq_nocase [] (y ∷ b) h = ground arith
length-eq_nocase (x ∷ a) [] h = ground arith
length-eq_nocase (x ∷ a) (y ∷ b) h = ground (arith, length-eq_nocase a b)

-- A symbol that is found is one of the table's, and takes at least one byte.
pub find_symbol_lem :
    (table : List FieldLookup) (s : Bytes) (type : ℕ) (rest : Bytes)
    → all_entries is_symbol table ≡ true
    → find_symbol table s ≡ some (type, rest)
    → (length rest < length s) × (is_solid type ≡ true) × (holds_string type ≡ false)
unfolding find_symbol all_entries
find_symbol_lem [] s type rest ok h = ground arith
find_symbol_lem (f ∷ table) s type rest ok h = elim (Option-cases (strip_prefix f.name s)) [
  | inl miss ↦ find_symbol_lem table s type rest (ground arith) (ground arith)
  | inr (r, hit) ↦ ground (arith, length-strip_prefix f.name s r hit)
]

-- A field or keyword that is found is one of the table's, and its word is not empty.
pub find_field_lem :
    (i : ℕ) (table : List FieldLookup) (word : Bytes) (k : ℕ) (f : FieldLookup)
    → all_entries is_entry table ≡ true
    → find_field i table word ≡ some (k, f)
    → (0 < length word) × (is_solid f.type ≡ true)
unfolding find_field all_entries
find_field_lem i [] word k f ok h = ground arith
find_field_lem i (g ∷ table) word k f ok h = elim (Bool-cases (eq_nocase g.name word)) [
  | inl hit ↦ ground (arith, length-eq_nocase g.name word hit)
  | inr miss ↦ find_field_lem (i + 1) table word k f (ground arith) (ground arith)
]
