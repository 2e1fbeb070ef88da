-- ===== src/Engine/Search.antt =====
-- Additions, edits and searches of the RocksEngine of src/storage_rocksdb.cpp.
use acx_contact_cli.Prelude.{
  ◌≡◌, ◌≢◌, refl, ap, ◌∙◌, sym, arith, Bool, true, false, Option, none, some, List, [], ◌∷◌, Bytes,
  same, same_refl, same-false, is_empty, Bool-cases, inl, inr,
}
use acx_contact_cli.Validation.{to_lower_ascii}
use acx_contact_cli.Json.Parser.{ok, ◌>>=◌}
use acx_contact_cli.Json.RoundTrip.{parse-dump}
use acx_contact_cli.Model.{Contact, from_json}
use acx_contact_cli.Model.RoundTrip.{from_json-to_json}
use acx_contact_cli.World.{Platform, World, Files}
use acx_contact_cli.Storage.DataFile.{IsPlain, contact-IsClean}
use acx_contact_cli.Engine.Rocks.{
  Change, put, delete, applied, RocksError, invalid_fields, duplicate_email, duplicate_phone,
  write_failed, contact_key, email_index, phone_index, contact_text, contact_of, outcome_of,
  is_known, is_valid_fields, add_filled, edit_to, found_at, found_by, search,
}

module _ {D Db : Type 0} (print : D → Bytes) (stod : Bytes → Option D) (platform : Platform)
    (get : Db → Bytes → Option Bytes) (write : List Change → Db → Bool × Db)
    (scan : Db → Bytes → List Bytes) where
  -- a batch is written whole or not at all
  abbrev pub IsAtomic : Type 0
  IsAtomic =
      (changes : List Change) (db db' : Db)
      → write changes db ≡ (true, db')
      → (k : Bytes) → get db' k ≡ applied changes (get db) k

  text_read : (c : Contact) → IsPlain c → contact_of stod (contact_text print c) ≡ ok c
  unfolding contact_of contact_text
  text_read c p =
      ap (λ r. r >>= from_json) (parse-dump print stod 0 (contact-IsClean print stod c p))
      ∙ from_json-to_json D c

  abbrev changes_of : Contact → World → List Change
  changes_of c w =
      put (contact_key c.id) (contact_text print c)
      ∷ put (email_index c.email) c.id
      ∷ put (phone_index platform c.phone w) c.id
      ∷ []

  refused :
      (e : RocksError) (db db' : Db) → ◌≢◌ {A = Option RocksError × Db} (some e, db) (none, db')
  refused e db db' h = cc (ap (λ (r : Option RocksError × Db). r.0) h)

  written_ok :
      (e : RocksError) (r : Bool × Db) (db' : Db)
      → outcome_of print stod platform get write scan e r ≡ (none, db')
      → r ≡ (true, db')
  written_ok e (true, db) db' h = λ i. (true, (h i).1)
  written_ok e (false, db) db' h = absurd (refused e db db' h)

  -- a contact that was added was written
  add_writes :
      (c : Contact) (w : World) (db db' : Db)
      → add_filled print stod platform get write scan c w db ≡ (none, db')
      → write (changes_of c w) db ≡ (true, db')
  unfolding add_filled
  add_writes c w db db' h = elim (Bool-cases (is_valid_fields platform c w)) [
    | inr e ↦ absurd (refused invalid_fields db db' (sym (rw (e, add_filled) refl) ∙ h))
    | inl e ↦
        elim (Bool-cases (is_known print stod platform get write scan db (email_index c.email))) [
          | inl f ↦
              absurd (refused duplicate_email db db' (sym (rw (e, add_filled) (rw f refl)) ∙ h))
          | inr f ↦
              elim (Bool-cases
                (is_known print stod platform get write scan db (phone_index platform c.phone w))) [
                  | inl g ↦ absurd (
                      refused duplicate_phone db db'
                        (sym (rw (e, add_filled) (rw f (rw g refl))) ∙ h))
                  | inr g ↦
                      written_ok write_failed (write (changes_of c w) db) db'
                        (sym (rw (e, add_filled) (rw f (rw g refl))) ∙ h)
                ]
        ]
  ]

  at_contact :
      (c : Contact) (w : World) (values : Files)
      → applied (changes_of c w) values (contact_key c.id) ≡ some (contact_text print c)
  unfolding same email_index
  at_contact c w values = ground (arith, same_refl c.id)

  at_email :
      (c : Contact) (w : World) (values : Files)
      → applied (changes_of c w) values (email_index c.email) ≡ some c.id
  unfolding same email_index
  at_email c w values = ground (arith, same_refl (to_lower_ascii c.email))

  at_phone :
      (c : Contact) (w : World) (values : Files)
      → applied (changes_of c w) values (phone_index platform c.phone w) ≡ some c.id
  at_phone c w values = rw (same_refl (phone_index platform c.phone w)) refl

  found_at_ok :
      (id j : Bytes) (c : Contact) (db : Db)
      → get db (contact_key id) ≡ some j
      → contact_of stod j ≡ ok c
      → found_at print stod platform get write scan id db ≡ ok (c ∷ [])
  unfolding found_at
  found_at_ok id j c db e f = rw (e, found_at) (rw f refl)

  found_by_ok :
      (k id : Bytes) (db : Db)
      → get db k ≡ some id
      → found_by print stod platform get write scan k db
        ≡ found_at print stod platform get write scan id db
  unfolding found_by
  found_by_ok k id db e = rw (e, found_by) refl

  search_id :
      (name email phone id : Bytes) (w : World) (db : Db)
      → is_empty id ≡ false
      → search print stod platform get write scan name email phone id w db
        ≡ found_at print stod platform get write scan id db
  unfolding search
  search_id name email phone [] w db h = absurd (cc h)
  search_id name email phone (c ∷ cs) w db h = refl

  search_email :
      (name email phone : Bytes) (w : World) (db : Db)
      → is_empty email ≡ false
      → search print stod platform get write scan name email phone [] w db
        ≡ found_by print stod platform get write scan (email_index email) db
  unfolding search
  search_email name [] phone w db h = absurd (cc h)
  search_email name (c ∷ cs) phone w db h = refl

  search_phone :
      (name phone : Bytes) (w : World) (db : Db)
      → is_empty phone ≡ false
      → search print stod platform get write scan name [] phone [] w db
        ≡ found_by print stod platform get write scan (phone_index platform phone w) db
  unfolding search
  search_phone name [] w db h = absurd (cc h)
  search_phone name (c ∷ cs) w db h = refl

  -- Where a batch is written whole or not at all, a contact that has been added, with no field empty
  -- that is searched by and no control byte in a field that JSON text loses, is what searches by its
  -- id, its email and its phone number find, and all they find.
  pub search_added :
      (c : Contact) (w : World) (db db' : Db) (name : Bytes)
      → IsAtomic
      → IsPlain c
      → is_empty c.id ≡ false
      → is_empty c.email ≡ false
      → is_empty c.phone ≡ false
      → add_filled print stod platform get write scan c w db ≡ (none, db')
      → (search print stod platform get write scan name c.email c.phone c.id w db' ≡ ok (c ∷ []))
        × (search print stod platform get write scan name c.email c.phone [] w db' ≡ ok (c ∷ []))
        × (search print stod platform get write scan name [] c.phone [] w db' ≡ ok (c ∷ []))
  search_added c w db db' name atomic plain i e p h =
      let values = atomic (changes_of c w) db db' (add_writes c w db db' h) in
      let at_id =
        found_at_ok c.id (contact_text print c) c db'
          (values (contact_key c.id) ∙ at_contact c w (get db)) (text_read c plain) in
      (
        search_id name c.email c.phone c.id w db' i ∙ at_id,
        search_email name c.email c.phone w db' e
            ∙ found_by_ok (email_index c.email) c.id db'
                (values (email_index c.email) ∙ at_email c w (get db))
            ∙ at_id,
        search_phone name c.phone w db' p
            ∙ found_by_ok (phone_index platform c.phone w) c.id db'
                (values (phone_index platform c.phone w) ∙ at_phone c w (get db))
            ∙ at_id,
      )

  abbrev edit_changes : Bytes → Contact → Contact → World → List Change
  edit_changes id old new w =
      put (contact_key id) (contact_text print new)
      ∷ delete (email_index old.email)
      ∷ delete (phone_index platform old.phone w)
      ∷ put (email_index new.email) id
      ∷ put (phone_index platform new.phone w) id
      ∷ []

  edited_email :
      (id : Bytes) (old new : Contact) (w : World) (values : Files)
      → applied (edit_changes id old new w) values (email_index new.email) ≡ some id
  unfolding same email_index
  edited_email id old new w values = ground (arith, same_refl (to_lower_ascii new.email))

  edited_contact :
      (id other : Bytes) (old new : Contact) (w : World) (values : Files)
      → same id other ≡ false
      → applied (edit_changes id old new w) values (contact_key other) ≡ values (contact_key other)
  unfolding same email_index
  edited_contact id other old new w values h = ground (arith, h)

  -- an edit to valid fields is refused by nothing, where the write goes through
  edit_done :
      (id : Bytes) (old new : Contact) (w : World) (db : Db) (r : Bool × Db)
      → is_valid_fields platform new w ≡ true
      → write (edit_changes id old new w) db ≡ r
      → r.0 ≡ true
      → edit_to print stod platform get write scan id old new w db ≡ (none, r.1)
  unfolding edit_to
  edit_done id old new w db (true, db') v e t = rw (v, edit_to) (rw e refl)
  edit_done id old new w db (false, db') v e t = absurd (cc t)

  -- Where the database can be written, a batch whole or not at all, an edit of a contact to valid
  -- fields, of which the email belongs to another contact, succeeds: the email then leads to the edited
  -- contact, and the other one is still stored as it was.
  pub edit_takes_over :
      (id other : Bytes) (old new : Contact) (w : World) (db : Db)
      → IsAtomic
      → is_valid_fields platform new w ≡ true
      → ((changes : List Change) → (write changes db).0 ≡ true)
      → other ≢ id
      → get db (email_index new.email) ≡ some other
      → ((edit_to print stod platform get write scan id old new w db).0 ≡ none)
        × (get
              (edit_to print stod platform get write scan id old new w db).1
              (email_index new.email)
            ≡ some id)
        × (get (edit_to print stod platform get write scan id old new w db).1 (contact_key other)
            ≡ get db (contact_key other))
  edit_takes_over id other old new w db atomic valid writable n owned =
      let r = write (edit_changes id old new w) db in
      let ended = edit_done id old new w db r valid refl (writable (edit_changes id old new w)) in
      let values =
        atomic (edit_changes id old new w) db r.1
          (λ i. (writable (edit_changes id old new w) i, r.1)) in
      rw ended (
        refl,
        values (email_index new.email) ∙ edited_email id old new w (get db),
        values (contact_key other)
            ∙ edited_contact id other old new w (get db) (same-false id other (λ e. n (sym e))),
      )
