-- ===== src/Storage/Handlers.antt =====
-- The operations of src/storage.cpp as a whole, on every branch.
use acx_contact_cli.Prelude.{
  ℕ, ◌+◌, ◌≡◌, ◌≢◌, refl, ap, ◌∙◌, Bool, false, not, none, some, [], map, arith, Bytes,
  if◌then◌else◌, length, get_elem?, Option-cases, inl, inr, leb, codes,
}
use acx_contact_cli.Validation.{
  Environment, to_lower_ascii, is_valid_name, is_valid_email, is_valid_phone,
}
use acx_contact_cli.Validation.Phone.{to_lower_ascii_idem}
use acx_contact_cli.Table.{find}
use acx_contact_cli.Model.{ContactBook}
use acx_contact_cli.World.{Platform, World, now_iso8601_utc}
use acx_contact_cli.World.Ident.{uuid_text}
use acx_contact_cli.Storage.Persist.{Storage}
use acx_contact_cli.Storage.Contacts.{
  max_contacts_limit_reached, invalid_name, invalid_email, invalid_phone, email_already_exists,
  phone_already_exists, limit_of, Outcome, done, failed, email_exists, phone_exists, position,
  phone_key, push_contact, contact_at, edit_fields, remove_contact, note_history, new_contact,
  add_error, add_contact, end_edit, edit_contact, delete_contact,
}
use acx_contact_cli.Storage.Invariant.{id_of, email_key, number_key, IsWellIndexed, IsStable}
use acx_contact_cli.Storage.Steps.{nowhere, assign_to-IsWellIndexed}
use acx_contact_cli.Storage.Edits.{IsEditing, edit_fields-IsEditing, assign_to-IsEditing}
use acx_contact_cli.Storage.Outcomes.{
  push_contact-IsWellIndexed, remove_known-IsWellIndexed, position-get_elem?, uuid_text-not_empty,
}

all_passed :
    (t1 t2 t3 t4 t5 t6 : Bool)
    → (if t1
        then some max_contacts_limit_reached
        else if t2
        then some invalid_name
        else if t3
        then some invalid_email
        else if t4
        then some invalid_phone
        else if t5
        then some email_already_exists
        else if t6
        then some phone_already_exists
        else none)
      ≡ none
    → (t5 ≡ false) × (t6 ≡ false)
all_passed t1 t2 t3 t4 t5 t6 e = ground arith

-- past the guards, both keys are free
accepted :
    (platform : Platform) (getenv : Environment) (book : ContactBook) (name email phone : Bytes)
    → add_error platform getenv book name email phone ≡ none
    → (email_exists book email [] ≡ false) × (phone_exists platform getenv book phone [] ≡ false)
unfolding add_error
accepted platform getenv book name email phone e =
    all_passed (leb (limit_of platform (getenv (codes "ACX_MAX_CONTACTS"))) (length book.contacts))
      (not (is_valid_name name)) (not (is_valid_email email))
      (not (is_valid_phone platform.phone_library getenv phone)) (email_exists book email [])
      (phone_exists platform getenv book phone []) e

abbrev pub drawn_id : Platform → World → Bytes
drawn_id platform w = uuid_text (platform.random w.draws) (platform.random (w.draws + 1))

module _ (platform : Platform) where
  push_new :
      (book : ContactBook) (name email phone note user : Bytes) (w : World)
      → IsStable platform w.getenv
      → ((i : ℕ) → get_elem? (map id_of book.contacts) i ≢ some (drawn_id platform w))
      → add_error platform w.getenv book name email phone ≡ none
      → IsWellIndexed platform w.getenv book
      → IsWellIndexed platform w.getenv (
          push_contact platform w.getenv (new_contact platform name email phone note user w).0 book)
  unfolding new_contact email_exists phone_exists
  push_new book name email phone note user w st fresh e h =
      let (m, p) = accepted platform w.getenv book name email phone e in
      let (emails, phones, ids, named) = h in
      push_contact-IsWellIndexed platform w.getenv book
        (new_contact platform name email phone note user w).0
        (ap (λ k. find k book.email_to_i) (to_lower_ascii_idem email)
          ∙ nowhere email_key book.email_to_i book.contacts (to_lower_ascii email) emails named m)
        (ap (λ k. find k book.phone_to_i) (st phone)
          ∙ nowhere (number_key platform w.getenv) book.phone_to_i book.contacts
              (phone_key platform w.getenv phone) phones named p)
        (uuid_text-not_empty _ _) fresh h

module _ {D : Type 0} (print : D → Bytes) (platform : Platform) where
  -- Adding a contact keeps the invariant of the book, refused or not and saved or not, where the
  -- normal form of a phone is stable and the drawn id is new to the book.
  pub add_contact-IsWellIndexed :
      (st : Storage) (book : ContactBook) (name email phone note user out_id : Bytes) (w : World)
      → IsStable platform w.getenv
      → ((i : ℕ) → get_elem? (map id_of book.contacts) i ≢ some (drawn_id platform w))
      → IsWellIndexed platform w.getenv book
      → IsWellIndexed platform w.getenv
          (add_contact print platform st book name email phone note user out_id w).2
  unfolding add_contact
  add_contact-IsWellIndexed st book name email phone note user out_id w stable fresh h =
      elim (Option-cases (add_error platform w.getenv book name email phone)) [
        | inr (e, q) ↦ rw (q, add_contact) h
        | inl q ↦
            rw (q, add_contact)
              (push_new platform book name email phone note user w stable fresh q h)
      ]

  -- Editing a contact keeps the invariant of the book, also where a later field is refused after an
  -- earlier one was assigned, where the normal form of a phone is stable.
  pub edit_contact-IsWellIndexed :
      (st : Storage) (book : ContactBook) (id name email phone note user : Bytes) (w : World)
      → IsStable platform w.getenv
      → IsWellIndexed platform w.getenv book
      → IsWellIndexed platform w.getenv
          (edit_contact print platform st book id name email phone note user w).1
  unfolding edit_contact end_edit
  edit_contact-IsWellIndexed st book id name email phone note user w stable h =
      elim (Option-cases (position id book.contacts)) [
        | inl q ↦ rw (q, edit_contact) h
        | inr (i, q) ↦
            rw (q, edit_contact)
              (ended i (edit_fields platform w.getenv i id name email phone note book) (
                edit_fields-IsEditing platform w.getenv i id book name email phone note stable
                  (h, position-get_elem? id book.contacts i q)))
      ]
    where
      ended :
          (i : ℕ) (r : Outcome × ContactBook)
          → IsEditing platform w.getenv i id r.1
          → IsWellIndexed platform w.getenv (end_edit print platform st i id user r w).1
      ended i (failed e, b) hb = hb.0
      ended i (done, b) hb =
          (assign_to-IsEditing platform w.getenv i id b _ (λ c. refl) (λ c. refl) (λ c. refl) hb).0

  -- Deleting a contact keeps the invariant of the book.
  pub delete_contact-IsWellIndexed :
      (st : Storage) (book : ContactBook) (id user : Bytes) (w : World)
      → IsWellIndexed platform w.getenv book
      → IsWellIndexed platform w.getenv (delete_contact print platform st book id user w).1
  unfolding delete_contact remove_contact now_iso8601_utc
  delete_contact-IsWellIndexed st book id user w h =
      elim (Option-cases (position id book.contacts)) [
        | inl q ↦ rw (q, delete_contact) h
        | inr (i, q) ↦
            rw (q, delete_contact)
              (remove_known-IsWellIndexed platform (record w { ticks = w.ticks + 1 })
                (contact_at platform book i
                  (note_history (platform.clock w.ticks) user (codes "deleted")))
                i _ refl
                (assign_to-IsWellIndexed platform w.getenv book i _ _ (λ c. refl) (λ c. refl)
                  (λ c. refl) refl h))
      ]
