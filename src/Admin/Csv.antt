-- ===== src/Admin/Csv.antt =====
-- What the reader of CSV makes of the export.
use drawback_backend.Admin.Reader.{
  fresh, plain, quoted, closing, keep, end_field, outside, Rest, act, read, table_of,
}
use Prim.Native.Char.{Char, code}
use drawback_backend.Prelude.{
  String, Bool, true, false, List, [], ◌∷◌, ◌≡◌, refl, sym, ap, ◌∙◌, ◌==◌, map, select, sort_desc,
  All, Bool-cases, inl, inr, arith,
}
use drawback_backend.Schema.Entities.{User}
use drawback_backend.World.{World, Result, ok, err, gets}
use drawback_backend.Admin.{UserFilter, matches}
use drawback_backend.Admin.Export.{
  Texts, append, includes, double_quotes, must_quote, escape_csv_field, join, csv_line, csv_of,
  headers, row_of, export_users,
}

abbrev prefixed : String → Rest → Rest
prefixed x r = record r { field = append x r.field }

-- The text after a field does not go on with it.
record IsEnd (t : String) : Type 0 where
  pub after_plain : read plain t ≡ read closing t
  pub after_fresh : read fresh t ≡ read closing t

append_nil : (s : String) → append s "" ≡ s
unfolding append
append_nil String.[] = refl
append_nil (String.◌∷◌ c s) = ap (λ t. String.◌∷◌ c t) (append_nil s)

append_assoc : (s t u : String) → append (append s t) u ≡ append s (append t u)
unfolding append
append_assoc String.[] t u = refl
append_assoc (String.◌∷◌ c s) t u = ap (λ v. String.◌∷◌ c v) (append_assoc s t u)

read_quoted :
    (x t : String)
    → read quoted (append (double_quotes x) (append "\"" t)) ≡ prefixed x (read closing t)
unfolding read append double_quotes
read_quoted String.[] t = refl
read_quoted (String.◌∷◌ c s) t = elim (Bool-cases (code c == code "\"")) [
  | inl e ↦ rw (e, e, e) (ap (λ r. act keep c r) (read_quoted s t))
  | inr e ↦ rw (e, e) (ap (λ r. act keep c r) (read_quoted s t))
]

-- A text without the three characters that ask for quotes.
record IsPlain (x : String) : Type 0 where
  pub no_comma : includes (code ",") x ≡ false
  pub no_quote : includes (code "\"") x ≡ false
  pub no_newline : includes (code "\n") x ≡ false

module _ (c : Char) (s : String) (h : IsPlain (String.◌∷◌ c s)) where
  head_outside : outside (code c) ≡ (plain, keep)
  unfolding includes
  head_outside =
      let comma = h.no_comma in
      let newline = h.no_newline in
      let a : (code c == code ",") ≡ false = ground (arith, comma) in
      let b : (code c == code "\n") ≡ false = ground (arith, newline) in rw (a, b) refl

  head_unquoted : (code c == code "\"") ≡ false
  unfolding includes
  head_unquoted = let quote = h.no_quote in ground (arith, quote)

  tail-IsPlain : IsPlain s
  unfolding includes
  tail-IsPlain =
      let comma = h.no_comma in
      let quote = h.no_quote in
      let newline = h.no_newline in
      record {
        no_comma = ground (arith, comma);
        no_quote = ground (arith, quote);
        no_newline = ground (arith, newline);
      }

read_plain : (x t : String) → IsPlain x → read plain (append x t) ≡ prefixed x (read plain t)
unfolding read append
read_plain String.[] t h = refl
read_plain (String.◌∷◌ c s) t h =
    rw (head_outside c s h) (ap (λ r. act keep c r) (read_plain s t (tail-IsPlain c s h)))

read_fresh :
    (x t : String) → IsPlain x → IsEnd t → read fresh (append x t) ≡ prefixed x (read closing t)
unfolding read append
read_fresh String.[] t h e = e.after_fresh
read_fresh (String.◌∷◌ c s) t h e =
    rw (head_unquoted c s h, head_outside c s h)
      (ap (λ r. act keep c r) (read_plain s t (tail-IsPlain c s h) ∙ ap (prefixed s) e.after_plain))

unquoted-IsPlain : (x : String) → must_quote x ≡ false → IsPlain x
unfolding must_quote
unquoted-IsPlain x h = record {
  no_comma = ground (arith, h);
  no_quote = ground (arith, h);
  no_newline = ground (arith, h);
}

read_in_quotes :
    (x t : String)
    → read fresh (append (append "\"" (append (double_quotes x) "\"")) t)
      ≡ prefixed x (read closing t)
unfolding read append
read_in_quotes x t = ap (read quoted) (append_assoc (double_quotes x) "\"" t) ∙ read_quoted x t

read_escaped :
    (x t : String)
    → IsEnd t
    → read fresh (append (escape_csv_field x) t) ≡ prefixed x (read closing t)
unfolding escape_csv_field
read_escaped x t e = elim (Bool-cases (must_quote x)) [
  | inl q ↦ rw q (read_in_quotes x t)
  | inr p ↦ rw p (read_fresh x t (unquoted-IsPlain x p) e)
]

-- The end of a row: nothing of the row follows.
record IsRowEnd (t : String) : Type 0 where
  pub ends : IsEnd t
  pub no_field : (read closing t).field ≡ ""
  pub no_fields : (read closing t).fields ≡ []

comma-IsEnd : (t : String) → IsEnd (append "," t)
unfolding read append
comma-IsEnd t = record { after_plain = refl; after_fresh = refl }

after_comma : (u : String) → read closing (append "," u) ≡ act end_field "," (read fresh u)
unfolding read append
after_comma u = refl

read_line :
    (x : String) (xs : List String) (t : String)
    → IsRowEnd t
    → read fresh (append (csv_line (x ∷ xs)) t)
      ≡ record { field = x; fields = xs; rows = (read closing t).rows }
unfolding csv_line join
read_line x [] t h = read_escaped x t h.ends ∙ rw (h.no_field, h.no_fields, append_nil x) refl
read_line x (y ∷ ys) t h =
    let rest = csv_line (y ∷ ys) in
    ap (read fresh) (
      append_assoc (escape_csv_field x) (append "," rest) t
      ∙ ap (append (escape_csv_field x)) (append_assoc "," rest t))
    ∙ read_escaped x (append "," (append rest t)) (comma-IsEnd (append rest t))
    ∙ rw (after_comma (append rest t), read_line y ys t h, append_nil x) refl

nothing-IsRowEnd : IsRowEnd ""
unfolding read
nothing-IsRowEnd = record {
  ends = record { after_plain = refl; after_fresh = refl };
  no_field = refl;
  no_fields = refl;
}

newline-IsRowEnd : (u : String) → IsRowEnd (append "\n" u)
unfolding read append
newline-IsRowEnd u = record {
  ends = record { after_plain = refl; after_fresh = refl };
  no_field = refl;
  no_fields = refl;
}

after_newline : (u : String) → (read closing (append "\n" u)).rows ≡ table_of u
unfolding read append
after_newline u = refl

abbrev is_row : List String → Bool
is_row [] = false
is_row (x ∷ xs) = true

abbrev IsRow : List String → Type 0
IsRow xs = is_row xs ≡ true

table_line :
    (x : String) (xs : List String) (t : String)
    → IsRowEnd t
    → table_of (append (csv_line (x ∷ xs)) t) ≡ (x ∷ xs) ∷ (read closing t).rows
table_line x xs t h = ap (λ (r : Rest). (r.field ∷ r.fields) ∷ r.rows) (read_line x xs t h)

-- A table of rows that are not empty is read as it was written.
read_table :
    (x : String) (xs : List String) (rows : List (List String))
    → All IsRow rows
    → table_of (join "\n" (csv_line (x ∷ xs) ∷ map csv_line rows)) ≡ (x ∷ xs) ∷ rows
unfolding join read
read_table x xs [] h =
    ap table_of (sym (append_nil (csv_line (x ∷ xs)))) ∙ table_line x xs "" nothing-IsRowEnd
read_table x xs ([] ∷ rows) h = let no = h.0 in ground (arith, no)
read_table x xs ((y ∷ ys) ∷ rows) h =
    let u = join "\n" (csv_line (y ∷ ys) ∷ map csv_line rows) in
    table_line x xs (append "\n" u) (newline-IsRowEnd u)
    ∙ ap (λ ts. (x ∷ xs) ∷ ts) (after_newline u ∙ read_table y ys rows h.1)

rows-IsRow : (texts : Texts) (us : List User) → All IsRow (map (row_of texts) us)
unfolding row_of
rows-IsRow texts [] = tt
rows-IsRow texts (u ∷ us) = (refl, rows-IsRow texts us)

-- The headers are written without quotes, as they need none.
read_export : (rows : List (List String)) → All IsRow rows → table_of (csv_of rows) ≡ headers ∷ rows
unfolding csv_of csv_line escape_csv_field must_quote includes
read_export rows h =
    read_table "id"
      ("email" ∷ "displayName" ∷ "mode" ∷ "role" ∷ "isActivated" ∷ "isBlocked" ∷ "blockedAt"
        ∷ "blockedReason" ∷ "appearInSearches" ∷ "appearInDiscoveryGame" ∷ "hasDiscoveryAccess"
        ∷ "createdAt" ∷ "updatedAt" ∷ [])
      rows h

abbrev pub map_ok {ℓ κ} : {A : Type ℓ} {B : Type κ} → (A → B) → Result A → Result B
map_ok f (ok a) = ok (f a)
map_ok f (err e) = err e

-- A reader of CSV gets from the export of the users the row of the headers and then, for each user that
-- matches the filter, from the newest account to the oldest, the row of the user's fields as they
-- are: commas, quotes and line feeds in them are not lost and end nothing.
pub export_users-reads :
    (texts : Texts) (f : UserFilter) (w : World)
    → map_ok table_of (export_users texts f w).0
      ≡ ok (
          headers
          ∷ map (row_of texts) (sort_desc (λ u. u.created_at) (select (matches f) w.db.users)))
unfolding export_users gets csv_of
export_users-reads texts f w = ap ok (
    read_export (map (row_of texts) (sort_desc (λ u. u.created_at) (select (matches f) w.db.users)))
      (rows-IsRow texts _))
