-- ===== src/Merge.antt =====
-- src/merge.cpp, and the other readers of contacts: `import_csv_rfc` and `parse_csv_line_basic` of
-- src/storage.cpp. The member functions `st.add` and `st.edit` that they call are declared nowhere;
-- they are the fields of `Operations`.
pub mod Effect
use acx_contact_cli.Prelude.{
  ℕ, suc, ◌+◌, ◌≡◌, refl, ap, ◌∙◌, Bool, true, false, not, Option, none, some, List, [], ◌∷◌, Bytes,
  codes, before, is_empty, if◌then◌else◌, get_elem?, drop, Option-cases, inl, inr,
}
use acx_contact_cli.Validation.{to_lower_ascii}
use acx_contact_cli.Table.{find}
use acx_contact_cli.Json.Value.{Json}
use acx_contact_cli.Json.Parser.{Result, ok, err, ◌>>=◌, parse}
use acx_contact_cli.Utils.{lines, split}
use acx_contact_cli.Model.{Contact, ContactBook, from_json}
use acx_contact_cli.Csv.{csv_parse_rfc4180}
use acx_contact_cli.World.{Platform, World, read_file, now_iso8601_utc}
use acx_contact_cli.World.Ident.{uuid_text}
use acx_contact_cli.Storage.Contacts.{phone_key}

pub data MergeStrategy : Type 0 where
  skip prefer_newer prefer_existing : MergeStrategy

-- `st.add(book, c, id, err)` and `st.edit(book, id, name, email, phone, note, err)`
pub record Operations : Type 0 where
  pub add : Contact → ContactBook × World → ContactBook × World
  pub edit : Bytes → Bytes → Bytes → Bytes → Bytes → ContactBook × World → ContactBook × World

-- a row of six fields or more
unfoldable pub row_contact : List Bytes → Option Contact
row_contact (id ∷ name ∷ email ∷ phone ∷ note ∷ created_at ∷ rest) = some (record {
  id = id;
  name = name;
  email = email;
  phone = phone;
  note = note;
  created_at = created_at;
  history = [];
})
row_contact _ = none

abbrev pub onto : Option Contact → List Contact → List Contact
onto none cs = cs
onto (some c) cs = c ∷ cs

-- the loop over the rows of a CSV file, behind its header
unfoldable pub row_contacts : List (List Bytes) → List Contact
unfolding row_contact
row_contacts [] = []
row_contacts (r ∷ rows) = onto (row_contact r) (row_contacts rows)

abbrev pub unless_thrown : Result Contact → Option Contact
unless_thrown (ok c) = some c
unless_thrown (err e) = none

pub data Format : Type 0 where
  jsonl csv other : Format

module _ {D : Type 0} (stod : Bytes → Option D) where
  -- the loop over the lines of a JSON Lines file, malformed ones passed over
  unfoldable pub line_contacts : List Bytes → List Contact
  line_contacts [] = []
  line_contacts (line ∷ rest) =
      let cs = line_contacts rest in
      if is_empty line then cs else onto (unless_thrown (parse stod line >>= from_json)) cs

  -- `none` with an error message
  unfoldable pub parse_contacts : Format → Bytes → World → Option (List Contact)
  unfolding line_contacts row_contacts
  parse_contacts jsonl in_file w = some (line_contacts (lines (read_file in_file w)))
  parse_contacts csv in_file w =
      let (rows, accepted) = csv_parse_rfc4180 (read_file in_file w) in
      if accepted then some (row_contacts (drop 1 rows)) else none
  parse_contacts other in_file w = none

-- `a > b`
unfoldable pub newer : Bytes → Bytes → Bool
newer a b = before b a

module _ (platform : Platform) (operations : Operations) (strategy : MergeStrategy) where
  -- the position of the contact with the email, or else with the phone
  unfoldable pub existing : Contact → ContactBook × World → Option ℕ
  existing c (book, w) = elim (find (to_lower_ascii c.email) book.email_to_i) [
    | some i ↦ some i
    | none ↦ find (phone_key platform w.getenv c.phone) book.phone_to_i
  ]

  -- a contact that is there already
  unfoldable pub reconcile :
      MergeStrategy → Contact → Contact → ContactBook × World → ContactBook × World
  unfolding newer
  reconcile skip c old s = s
  reconcile prefer_newer c old s =
      if newer c.created_at old.created_at
      then operations.edit old.id c.name c.email c.phone c.note s
      else s
  reconcile prefer_existing c old s =
      if is_empty old.note
      then (if is_empty c.note then s else operations.edit old.id [] [] [] c.note s)
      else s

  -- the contact at the position found, if the vector has one
  abbrev pub merge_at : Contact → Option Contact → ContactBook × World → ContactBook × World
  merge_at c none s = s
  merge_at c (some old) s = reconcile strategy c old s

  abbrev pub merge_found : Contact → Option ℕ → ContactBook × World → ContactBook × World
  merge_found c none s = operations.add c s
  merge_found c (some i) s = merge_at c (get_elem? s.0.contacts i) s

  unfoldable pub merge_contacts : List Contact → ContactBook × World → ContactBook × World
  unfolding reconcile existing
  merge_contacts [] s = s
  merge_contacts (c ∷ cs) s = merge_contacts cs (merge_found c (existing c s) s)

  -- up to `st.save(book)`; `none` is an error of the reader
  unfoldable pub merge_from_file :
      {D : Type 0}
      → (Bytes → Option D)
      → Format
      → Bytes
      → ContactBook × World
      → Option (ContactBook × World)
  unfolding merge_contacts
  merge_from_file stod format in_file s = elim (parse_contacts stod format in_file s.1) [
    | none ↦ none
    | some incoming ↦ some (merge_contacts incoming s)
  ]

-- the values that a row of `import_csv_rfc` and `parse_csv_line_basic` lacks
module _ (platform : Platform) where
  unfoldable pub fill_id : Contact → World → Contact × World
  fill_id c w =
      if is_empty c.id
      then (
        record c { id = uuid_text (platform.random w.draws) (platform.random (w.draws + 1)) },
        record w { draws = w.draws + 2 },
      )
      else (c, w)

  unfoldable pub fill_created_at : Contact → World → Contact × World
  fill_created_at c w =
      if is_empty c.created_at
      then (let (ts, w') = now_iso8601_utc platform w in (record c { created_at = ts }, w'))
      else (c, w)

  unfoldable pub fill : Contact → World → Contact × World
  unfolding fill_id fill_created_at
  fill c w = let (c', w') = fill_id c w in fill_created_at c' w'

  unfoldable pub parse_csv_line_basic : Bytes → World → Option (Contact × World)
  unfolding fill row_contact
  parse_csv_line_basic line w = elim (row_contact (split line b',')) [
    | none ↦ none
    | some c ↦ some (fill c w)
  ]

  unfoldable pub import_filled :
      Operations → List Contact → ContactBook × World → ContactBook × World
  unfolding fill
  import_filled operations [] s = s
  import_filled operations (c ∷ cs) (book, w) =
      let (c', w') = fill c w in import_filled operations cs (operations.add c' (book, w'))

  -- up to the dry run and `st.save(book)`; `none` is the error of the CSV parser
  unfoldable pub import_csv_rfc :
      Operations → Bytes → ContactBook × World → Option (ContactBook × World)
  unfolding import_filled row_contacts
  import_csv_rfc operations in_file s =
      let (rows, accepted) = csv_parse_rfc4180 (read_file in_file s.1) in
      if accepted then some (import_filled operations (row_contacts (drop 1 rows)) s) else none
