-- ===== src/Storage/Contacts.antt =====
-- The operations on contacts of src/storage.cpp. Each message for `err` is an `Error`, and the block
-- about ACX_DRY_RUN in front of `st.save(book)` is read as a return before saving.
use acx_contact_cli.Prelude.{
  ℕ, zero, suc, ◌+◌, Bool, true, false, not, ◌&&◌, ◌||◌, Option, none, some, List, [], ◌∷◌, ◌++◌,
  Bytes, codes, same, leb, if◌then◌else◌, length, get_elem?, set, take, drop, is_empty, keep,
}
use acx_contact_cli.Validation.{
  Environment, is_valid_name, is_valid_email, is_valid_phone, to_lower_ascii, normalize_phone,
}
use acx_contact_cli.Table.{find, put, erase}
use acx_contact_cli.Model.{Contact, ContactBook}
use acx_contact_cli.World.{Platform, World, now_iso8601_utc}
use acx_contact_cli.World.Ident.{uuid_text}
use acx_contact_cli.Index.{reindex}
use acx_contact_cli.Storage.Persist.{Storage, save, backup_last, append_audit, audit_line}

pub data Error : Type 0 where
  max_contacts_limit_reached invalid_name invalid_email invalid_phone : Error
  email_already_exists phone_already_exists failed_to_save contact_not_found : Error

-- `true`, or `false` with a message
pub data Outcome : Type 0 where
  done : Outcome
  failed : Error → Outcome

-- the contact at an index has another id; the sources read a vector without a bounds check, and a
-- position outside it has no such contact here
abbrev pub is_other : Bytes → Option Contact → Bool
is_other skip_id none = false
is_other skip_id (some c) = not (same c.id skip_id)

abbrev pub other_at : List Contact → Bytes → Option ℕ → Bool
other_at cs skip_id none = false
other_at cs skip_id (some i) = is_other skip_id (get_elem? cs i)

unfoldable pub email_exists : ContactBook → Bytes → Bytes → Bool
email_exists book email skip_id =
    other_at book.contacts skip_id (find (to_lower_ascii email) book.email_to_i)

-- `haystack.find(needle) != npos`
abbrev pub begins_with : Bytes → Bytes → Bool
begins_with needle s = same (take (length needle) s) needle

unfoldable pub contains : Bytes → Bytes → Bool
contains needle [] = is_empty needle
contains needle (c ∷ s) = begins_with needle (c ∷ s) || contains needle s

-- the position of the first contact with an id
unfoldable pub position : Bytes → List Contact → Option ℕ
position id [] = none
position id (c ∷ cs) =
    if same c.id id then some 0 else elim (position id cs) [ none ↦ none | some i ↦ some (suc i) ]

-- `push_back` on the history of a contact
abbrev pub note_history : Bytes → Bytes → Bytes → Contact → Contact
note_history ts user action c = record c {
  history = c.history ++ record { timestamp = ts; user = user; action = action } ∷ [];
}

-- the vector without the element at an index
abbrev pub remove_at {ℓ} : {A : Type ℓ} → ℕ → List A → List A
remove_at i [] = []
remove_at zero (x ∷ xs) = xs
remove_at (suc i) (x ∷ xs) = x ∷ remove_at i xs

module _ (platform : Platform) where
  -- a contact's key in `phone_to_i`
  abbrev pub phone_key : Environment → Bytes → Bytes
  phone_key getenv phone = normalize_phone platform.phone_library getenv phone

  unfoldable pub phone_exists : Environment → ContactBook → Bytes → Bytes → Bool
  phone_exists getenv book phone skip_id =
      other_at book.contacts skip_id (find (phone_key getenv phone) book.phone_to_i)

  abbrev pub limit_of : Option Bytes → ℕ
  limit_of none = 1000000
  limit_of (some e) = elim (platform.stoull e) [ none ↦ 1000000 | some n ↦ n ]

  -- the guards of `add_contact`, in order
  unfoldable pub add_error : Environment → ContactBook → Bytes → Bytes → Bytes → Option Error
  add_error getenv book name email phone =
      if leb (limit_of (getenv (codes "ACX_MAX_CONTACTS"))) (length book.contacts)
      then some max_contacts_limit_reached
      else if not (is_valid_name name)
      then some invalid_name
      else if not (is_valid_email email)
      then some invalid_email
      else if not (is_valid_phone platform.phone_library getenv phone)
      then some invalid_phone
      else if email_exists book email []
      then some email_already_exists
      else if phone_exists getenv book phone []
      then some phone_already_exists
      else none

  -- a book with one more contact, indexed
  unfoldable pub push_contact : Environment → Contact → ContactBook → ContactBook
  push_contact getenv c book = record {
    contacts = book.contacts ++ c ∷ [];
    email_to_i = put (to_lower_ascii c.email) (length book.contacts) book.email_to_i;
    phone_to_i = put (phone_key getenv c.phone) (length book.contacts) book.phone_to_i;
  }

  -- the contact that `add_contact` makes
  unfoldable pub new_contact : Bytes → Bytes → Bytes → Bytes → Bytes → World → Contact × World
  new_contact name email phone note user w =
      let (ts, w') = now_iso8601_utc platform (record w { draws = w.draws + 2 }) in
      (
        note_history ts user (codes "created") (record {
          id = uuid_text (platform.random w.draws) (platform.random (w.draws + 1));
          name = name;
          email = to_lower_ascii email;
          phone = phone_key w.getenv phone;
          note = note;
          created_at = ts;
          history = [];
        }),
        w',
      )

  -- the guarded assignments of `edit_contact` to the contact at a position
  abbrev pub assign_to : ContactBook → ℕ → (Contact → Contact) → Option Contact → ContactBook
  assign_to book i f none = book
  assign_to book i f (some c) = record book { contacts = set book.contacts i (f c) }

  abbrev pub contact_at : ContactBook → ℕ → (Contact → Contact) → ContactBook
  contact_at book i f = assign_to book i f (get_elem? book.contacts i)

  unfoldable pub edit_name : ℕ → Bytes → ContactBook → Outcome × ContactBook
  edit_name i name book =
      if is_empty name
      then (done, book)
      else if not (is_valid_name name)
      then (failed invalid_name, book)
      else (done, contact_at book i (λ c. record c { name = name }))

  abbrev pub assign_email : ContactBook → ℕ → Bytes → Option Contact → ContactBook
  assign_email book i email none = book
  assign_email book i email (some c) = record book {
    contacts = set book.contacts i (record c { email = email });
    email_to_i = put email i (erase (to_lower_ascii c.email) book.email_to_i);
  }

  unfoldable pub edit_email : ℕ → Bytes → Bytes → ContactBook → Outcome × ContactBook
  edit_email i id email book =
      if is_empty email
      then (done, book)
      else if not (is_valid_email email)
      then (failed invalid_email, book)
      else if email_exists book email id
      then (failed email_already_exists, book)
      else (done, assign_email book i (to_lower_ascii email) (get_elem? book.contacts i))

  abbrev pub assign_phone : Environment → ContactBook → ℕ → Bytes → Option Contact → ContactBook
  assign_phone getenv book i phone none = book
  assign_phone getenv book i phone (some c) = record book {
    contacts = set book.contacts i (record c { phone = phone });
    phone_to_i = put phone i (erase (phone_key getenv c.phone) book.phone_to_i);
  }

  unfoldable pub edit_phone : Environment → ℕ → Bytes → Bytes → ContactBook → Outcome × ContactBook
  edit_phone getenv i id phone book =
      if is_empty phone
      then (done, book)
      else if not (is_valid_phone platform.phone_library getenv phone)
      then (failed invalid_phone, book)
      else if phone_exists getenv book phone id
      then (failed phone_already_exists, book)
      else (done, assign_phone getenv book i (phone_key getenv phone) (get_elem? book.contacts i))

  unfoldable pub edit_note : ℕ → Bytes → ContactBook → ContactBook
  edit_note i note book =
      if is_empty note then book else contact_at book i (λ c. record c { note = note })

  -- a step behind one that may have returned
  abbrev pub next :
      Outcome × ContactBook → (ContactBook → Outcome × ContactBook) → Outcome × ContactBook
  next (done, book) f = f book
  next (failed e, book) f = (failed e, book)

  -- all assignments of `edit_contact`; what was assigned before a message stays
  unfoldable pub edit_fields :
      Environment → ℕ → Bytes → Bytes → Bytes → Bytes → Bytes → ContactBook → Outcome × ContactBook
  edit_fields getenv i id name email phone note book = next (edit_name i name book) (λ b.
      next (edit_email i id email b)
        (λ b'. next (edit_phone getenv i id phone b') (λ b''. (done, edit_note i note b''))))

  -- the book without the contact at an index, its tail indexed anew
  abbrev pub remove_known : World → ℕ → ContactBook → Option Contact → ContactBook
  remove_known w i book none = book
  remove_known w i book (some c) =
      let tail = remove_at i book.contacts in
      let (emails, phones) = reindex platform w i (drop i tail) (
        erase (to_lower_ascii c.email) book.email_to_i,
        erase (phone_key w.getenv c.phone) book.phone_to_i,
      ) in
      record { contacts = tail; email_to_i = emails; phone_to_i = phones }

  unfoldable pub remove_contact : World → ℕ → ContactBook → ContactBook
  remove_contact w i book = remove_known w i book (get_elem? book.contacts i)

  -- the tests of `search_contacts`
  unfoldable pub matches : Environment → Bytes → Bytes → Bytes → Bytes → Contact → Bool
  matches getenv name email phone id c =
      (is_empty name || contains (to_lower_ascii name) (to_lower_ascii c.name))
      && ((is_empty email || contains (to_lower_ascii email) (to_lower_ascii c.email))
          && ((is_empty phone || contains (phone_key getenv phone) (phone_key getenv c.phone))
              && (is_empty id || same c.id id)))

  unfoldable pub search_contacts :
      Environment → ContactBook → Bytes → Bytes → Bytes → Bytes → List Contact
  search_contacts getenv book name email phone id =
      keep (matches getenv name email phone id) book.contacts

module _ {D : Type 0} (print : D → Bytes) (platform : Platform) where
  -- From `st.save(book)` to the end of an operation: whether the end was reached past the dry run, the
  -- outcome, and the world.
  unfoldable pub persist :
      Storage → Bytes → Bytes → Bytes → ContactBook → World → Outcome × Bool × World
  persist st action id user book w = elim (w.getenv (codes "ACX_DRY_RUN")) [
    | some _ ↦ (done, false, w)
    | none ↦
        (let (saved, w1) = save print platform st book w in
          let (_, w2) = backup_last platform st w1 in
          let (ts, w3) = now_iso8601_utc platform w2 in
          let (_, w4) = append_audit platform st (audit_line ts action id user) w3 in
          if saved then (done, true, w4) else (failed failed_to_save, false, w1))
  ]

  -- with `out_id`, which a dry run leaves as it is
  unfoldable pub add_contact :
      Storage
      → ContactBook
      → Bytes
      → Bytes
      → Bytes
      → Bytes
      → Bytes
      → Bytes
      → World
      → Outcome × Bytes × ContactBook × World
  add_contact st book name email phone note user out_id w =
      elim (add_error platform w.getenv book name email phone) [
        | some e ↦ (failed e, out_id, book, w)
        | none ↦
            (let (c, w') = new_contact platform name email phone note user w in
              let book' = push_contact platform w.getenv c book in
              let (outcome, past, w'') = persist st (codes ",CREATE,") c.id user book' w' in
              (outcome, (if past then c.id else out_id), book', w''))
      ]

  -- the part of `edit_contact` behind the assignments
  unfoldable pub end_edit :
      Storage → ℕ → Bytes → Bytes → Outcome × ContactBook → World → Outcome × ContactBook × World
  end_edit st i id user (failed e, book) w = (failed e, book, w)
  end_edit st i id user (done, book) w =
      let (ts, w') = now_iso8601_utc platform w in
      let book' = contact_at platform book i (note_history ts user (codes "edited")) in
      let (outcome, _, w'') = persist st (codes ",EDIT,") id user book' w' in (outcome, book', w'')

  unfoldable pub edit_contact :
      Storage
      → ContactBook
      → Bytes
      → Bytes
      → Bytes
      → Bytes
      → Bytes
      → Bytes
      → World
      → Outcome × ContactBook × World
  edit_contact st book id name email phone note user w = elim (position id book.contacts) [
    | none ↦ (failed contact_not_found, book, w)
    | some i ↦
        end_edit st i id user (edit_fields platform w.getenv i id name email phone note book) w
  ]

  unfoldable pub delete_contact :
      Storage → ContactBook → Bytes → Bytes → World → Outcome × ContactBook × World
  delete_contact st book id user w = elim (position id book.contacts) [
    | none ↦ (failed contact_not_found, book, w)
    | some i ↦
        (let (ts, w') = now_iso8601_utc platform w in
          let book' =
            remove_contact platform w' i
              (contact_at platform book i (note_history ts user (codes "deleted"))) in
          let (outcome, _, w'') = persist st (codes ",DELETE,") id user book' w' in
          (outcome, book', w''))
  ]
