-- ===== src/Engine/Rocks.antt =====
-- `RocksEngine` of src/storage_rocksdb.cpp. RocksDB itself is an argument: a database `Db` with `get`,
-- none where the key is missing, `write` of a batch, and `scan`, the values of the keys that begin with
-- a prefix, in the order of the keys.
use acx_contact_cli.Prelude.{
  Bool, true, false, not, ◌&&◌, ◌||◌, Option, none, some, List, [], ◌∷◌, ◌++◌, Bytes, codes, same,
  is_empty, drop, if◌then◌else◌,
}
use acx_contact_cli.Validation.{to_lower_ascii, is_valid_name, is_valid_email, is_valid_phone}
use acx_contact_cli.Utils.{lines}
use acx_contact_cli.Csv.{csv_parse_rfc4180}
use acx_contact_cli.Json.Text.{dump}
use acx_contact_cli.Json.Parser.{Result, ok, err, ◌>>=◌, parse}
use acx_contact_cli.Model.{Contact, to_json, from_json}
use acx_contact_cli.World.{Platform, World, Files, update}
use acx_contact_cli.Merge.{fill, row_contact}
use acx_contact_cli.Storage.Contacts.{phone_key, contains}

-- a part of a batch
pub data Change : Type 0 where
  put : Bytes → Bytes → Change
  delete : Bytes → Change

-- what a batch does to the values of the keys
abbrev pub applied : List Change → Files → Files
applied [] values = values
applied (put k v ∷ changes) values = applied changes (update values k (some v))
applied (delete k ∷ changes) values = applied changes (update values k none)

-- the messages in `err`, a write that failed, also where no message tells of it, and an exception out
-- of the operation
pub data RocksError : Type 0 where
  invalid_fields duplicate_email duplicate_phone write_failed not_found : RocksError
  cannot_open csv_parse_error unknown_format thrown : RocksError

-- `kContactKey` and `kEmailKey`
abbrev pub contact_key : Bytes → Bytes
contact_key id = codes "contact:" ++ id

unfoldable pub email_index : Bytes → Bytes
unfolding to_lower_ascii
email_index email = codes "email:" ++ to_lower_ascii email

-- a field that an edit gives, or the one that is there
abbrev pub given_or : Bytes → Bytes → Bytes
given_or [] old = old
given_or (c ∷ cs) old = c ∷ cs

-- the contact with the given fields put in
abbrev pub with_given : Bytes → Bytes → Bytes → Bytes → Contact → Contact
with_given name email phone note c = record c {
  name = given_or name c.name;
  email = given_or email c.email;
  phone = given_or phone c.phone;
  note = given_or note c.note;
}

module _ (platform : Platform) where
  -- `kPhoneKey`
  abbrev pub phone_index : Bytes → World → Bytes
  phone_index phone w = codes "phone:" ++ phone_key platform w.getenv phone

  abbrev pub is_valid_fields : Contact → World → Bool
  is_valid_fields c w =
      is_valid_name c.name
      && (is_valid_email c.email && is_valid_phone platform.phone_library w.getenv c.phone)

module _ {D : Type 0} (print : D → Bytes) where
  unfoldable pub contact_text : Contact → Bytes
  contact_text c = dump print 0 (to_json c)

module _ {D : Type 0} (stod : Bytes → Option D) where
  -- `Contact::from_json(J::parse(j))`
  unfoldable pub contact_of : Bytes → Result Contact
  contact_of j = parse stod j >>= from_json

module _ {D Db : Type 0} (print : D → Bytes) (stod : Bytes → Option D) (platform : Platform)
    (get : Db → Bytes → Option Bytes) (write : List Change → Db → Bool × Db)
    (scan : Db → Bytes → List Bytes) where
  abbrev pub is_known : Db → Bytes → Bool
  is_known db k = elim (get db k) [ some v ↦ true | none ↦ false ]

  -- the error of a write
  abbrev pub outcome_of : RocksError → Bool × Db → Option RocksError × Db
  outcome_of e (true, db) = (none, db)
  outcome_of e (false, db) = (some e, db)

  -- `add` behind the values that are filled in
  unfoldable pub add_filled : Contact → World → Db → Option RocksError × Db
  unfolding is_valid_name is_valid_email is_valid_phone email_index contact_text
  add_filled c w db =
      if not (is_valid_fields platform c w)
      then (some invalid_fields, db)
      else if is_known db (email_index c.email)
      then (some duplicate_email, db)
      else if is_known db (phone_index platform c.phone w)
      then (some duplicate_phone, db)
      else outcome_of write_failed (
          write
            (put (contact_key c.id) (contact_text print c)
              ∷ put (email_index c.email) c.id
              ∷ put (phone_index platform c.phone w) c.id
              ∷ [])
            db)

  -- `RocksEngine::add`
  unfoldable pub add : Contact → World → Db → Option RocksError × Db × World
  unfolding fill add_filled
  add c w db =
      let (c', w') = fill platform c w in let (e, db') = add_filled c' w' db in (e, db', w')

  -- `edit` behind the contact it has read
  unfoldable pub edit_to : Bytes → Contact → Contact → World → Db → Option RocksError × Db
  unfolding is_valid_name is_valid_email is_valid_phone email_index contact_text
  edit_to id old new w db =
      if is_valid_fields platform new w
      then outcome_of write_failed (
          write
            (put (contact_key id) (contact_text print new)
              ∷ delete (email_index old.email)
              ∷ delete (phone_index platform old.phone w)
              ∷ put (email_index new.email) id
              ∷ put (phone_index platform new.phone w) id
              ∷ [])
            db)
      else (some invalid_fields, db)

  abbrev pub edit_found :
      Bytes → Bytes → Bytes → Bytes → Bytes → Result Contact → World → Db → Option RocksError × Db
  edit_found id name email phone note (err e) w db = (some thrown, db)
  edit_found id name email phone note (ok c) w db =
      edit_to id c (with_given name email phone note c) w db

  unfoldable pub edit : Bytes → Bytes → Bytes → Bytes → Bytes → World → Db → Option RocksError × Db
  unfolding contact_of edit_to
  edit id name email phone note w db = elim (get db (contact_key id)) [
    | none ↦ (some not_found, db)
    | some j ↦ edit_found id name email phone note (contact_of stod j) w db
  ]

  abbrev pub remove_found : Bytes → Result Contact → World → Db → Option RocksError × Db
  remove_found id (err e) w db = (some thrown, db)
  remove_found id (ok c) w db = outcome_of write_failed (
      write
        (delete (contact_key id)
          ∷ delete (email_index c.email)
          ∷ delete (phone_index platform c.phone w)
          ∷ [])
        db)

  unfoldable pub remove : Bytes → World → Db → Option RocksError × Db
  unfolding contact_of email_index
  remove id w db = elim (get db (contact_key id)) [
    | none ↦ (some not_found, db)
    | some j ↦ remove_found id (contact_of stod j) w db
  ]

  -- the contact under a key, in a list, nothing where there is none; an exception leaves the search
  unfoldable pub found_at : Bytes → Db → Result (List Contact)
  unfolding contact_of
  found_at id db = elim (get db (contact_key id)) [
    | none ↦ ok []
    | some j ↦ contact_of stod j >>= (λ c. ok (c ∷ []))
  ]

  unfoldable pub found_by : Bytes → Db → Result (List Contact)
  unfolding found_at
  found_by k db = elim (get db k) [ none ↦ ok [] | some id ↦ found_at id db ]

  -- the loop over the contacts, by name
  unfoldable pub named : Bytes → List Bytes → Result (List Contact)
  unfolding contact_of contains
  named name [] = ok []
  named name (j ∷ js) = do
    c ← contact_of stod j
    cs ← named name js
    ok (if is_empty name || contains name c.name then c ∷ cs else cs)

  unfoldable pub search : Bytes → Bytes → Bytes → Bytes → World → Db → Result (List Contact)
  unfolding found_at found_by named email_index
  search name email phone (i ∷ id) w db = found_at (i ∷ id) db
  search name (e ∷ email) phone [] w db = found_by (email_index (e ∷ email)) db
  search name [] (p ∷ phone) [] w db = found_by (phone_index platform (p ∷ phone) w) db
  search name [] [] [] w db = named name (scan db (codes "contact:"))

  -- the loops of `import_data`, whose refusals are passed over
  abbrev pub added : Option RocksError × Db × World → World × Db
  added r = (r.2, r.1)

  abbrev pub add_read : Result Contact → World × Db → World × Db
  add_read (err e) s = s
  add_read (ok c) (w, db) = added (add c w db)

  unfoldable pub import_lines : List Bytes → World × Db → World × Db
  unfolding add contact_of
  import_lines [] s = s
  import_lines (line ∷ rest) s = import_lines rest (add_read (contact_of stod line) s)

  abbrev pub add_row : Option Contact → World × Db → World × Db
  add_row none s = s
  add_row (some c) (w, db) = let (c', w') = fill platform c w in added (add c' w' db)

  unfoldable pub import_rows : List (List Bytes) → World × Db → World × Db
  unfolding add row_contact fill
  import_rows [] s = s
  import_rows (row ∷ rest) s = import_rows rest (add_row (row_contact row) s)

  abbrev pub import_text : Bytes → Bytes → World × Db → Option RocksError × (World × Db)
  import_text fmt content s =
      if same fmt (codes "jsonl")
      then (none, import_lines (lines content) s)
      else if same fmt (codes "csv")
      then (let (rows, ok_rows) = csv_parse_rfc4180 content in
          if ok_rows then (none, import_rows (drop 1 rows) s) else (some csv_parse_error, s))
      else (some unknown_format, s)

  unfoldable pub import_data : Bytes → Bytes → World → Db → Option RocksError × (World × Db)
  unfolding import_lines import_rows lines csv_parse_rfc4180 same
  import_data fmt in_file w db = elim (w.files in_file) [
    | none ↦ (some cannot_open, (w, db))
    | some content ↦ import_text fmt content (w, db)
  ]
