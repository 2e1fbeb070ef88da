-- ===== src/Storage/Edits.antt =====
-- The assignments of `edit_contact` in src/storage.cpp keep the invariant of the book, whichever of
-- them is the last to be made.
use acx_contact_cli.Prelude.{
  ℕ, ◌≡◌, refl, Option, none, some, map, Bytes, get_elem?, Bool-cases, inl, inr, is_empty,
}
use acx_contact_cli.Validation.{
  Environment, to_lower_ascii, is_valid_name, is_valid_email, is_valid_phone,
}
use acx_contact_cli.Model.{Contact, ContactBook}
use acx_contact_cli.World.{Platform}
use acx_contact_cli.Storage.Contacts.{
  Outcome, done, failed, assign_to, assign_email, assign_phone, email_exists, phone_exists,
  phone_key, contact_at, edit_name, edit_email, edit_phone, edit_note, edit_fields, next,
}
use acx_contact_cli.Storage.Invariant.{id_of, IsWellIndexed, IsStable, get_elem?-map, map-set_same}
use acx_contact_cli.Storage.Steps.{
  assign_to-IsWellIndexed, assign_email-IsWellIndexed, assign_phone-IsWellIndexed,
}

-- In the middle of an edit: the invariant, and the contact at the position has the id.
abbrev pub IsEditing : Platform → Environment → ℕ → Bytes → ContactBook → Type 0
IsEditing platform getenv i id book =
    IsWellIndexed platform getenv book × (get_elem? (map id_of book.contacts) i ≡ some id)

module _ (platform : Platform) (getenv : Environment) (i : ℕ) (id : Bytes) where
  has_id :
      (book : ContactBook)
      → get_elem? (map id_of book.contacts) i ≡ some id
      → (c : Contact) → get_elem? book.contacts i ≡ some c
      → c.id ≡ id
  has_id book h c e = (let g = get_elem?-map id_of book.contacts i e in cc (g, h))

  -- a contact's id survives that another value with the id is written over it
  same_id :
      (book : ContactBook) (f : Contact → Contact) (o : Option Contact)
      → ((c : Contact) → (f c).id ≡ c.id)
      → get_elem? book.contacts i ≡ o
      → map id_of (assign_to platform book i f o).contacts ≡ map id_of book.contacts
  same_id book f none p e = refl
  same_id book f (some c) p e = map-set_same id_of book.contacts i c (f c) e (p c)

  pub assign_to-IsEditing :
      (book : ContactBook) (f : Contact → Contact)
      → ((c : Contact) → (f c).id ≡ c.id)
      → ((c : Contact) → (f c).email ≡ c.email)
      → ((c : Contact) → (f c).phone ≡ c.phone)
      → IsEditing platform getenv i id book
      → IsEditing platform getenv i id (contact_at platform book i f)
  assign_to-IsEditing book f p q r (h, e) = (
    assign_to-IsWellIndexed platform getenv book i f (get_elem? book.contacts i) p q r refl h,
    rw (same_id book f (get_elem? book.contacts i) p refl) e,
  )

  email_id :
      (book : ContactBook) (email : Bytes) (o : Option Contact)
      → get_elem? book.contacts i ≡ o
      → map id_of (assign_email platform book i email o).contacts ≡ map id_of book.contacts
  email_id book email none e = refl
  email_id book email (some c) e =
      map-set_same id_of book.contacts i c (record c { email = email }) e refl

  phone_id :
      (book : ContactBook) (phone : Bytes) (o : Option Contact)
      → get_elem? book.contacts i ≡ o
      → map id_of (assign_phone platform getenv book i phone o).contacts ≡ map id_of book.contacts
  phone_id book phone none e = refl
  phone_id book phone (some c) e =
      map-set_same id_of book.contacts i c (record c { phone = phone }) e refl

  edit_name-IsEditing :
      (book : ContactBook) (name : Bytes)
      → IsEditing platform getenv i id book
      → IsEditing platform getenv i id (edit_name platform i name book).1
  unfolding edit_name
  edit_name-IsEditing book name h = elim (Bool-cases (is_empty name)) [
    | inl e ↦ rw e h
    | inr e ↦ elim (Bool-cases (is_valid_name name)) [
      | inr g ↦ rw (e, g) h
      | inl g ↦
          rw (e, g)
            (assign_to-IsEditing book (λ c. record c { name = name }) (λ c. refl) (λ c. refl)
              (λ c. refl) h)
    ]
  ]

  edit_email-IsEditing :
      (book : ContactBook) (email : Bytes)
      → IsEditing platform getenv i id book
      → IsEditing platform getenv i id (edit_email platform i id email book).1
  unfolding edit_email
  edit_email-IsEditing book email (h, at_i) = elim (Bool-cases (is_empty email)) [
    | inl e ↦ rw e (h, at_i)
    | inr e ↦ elim (Bool-cases (is_valid_email email)) [
      | inr g ↦ rw (e, g) (h, at_i)
      | inl g ↦ elim (Bool-cases (email_exists book email id)) [
        | inl x ↦ rw (e, g, x) (h, at_i)
        | inr x ↦
            rw (e, g, x)
              (
                assign_email-IsWellIndexed platform getenv book i email id _ refl (has_id book at_i)
                    x h,
                rw (email_id book (to_lower_ascii email) _ refl) at_i,
              )
      ]
    ]
  ]

  edit_phone-IsEditing :
      (book : ContactBook) (phone : Bytes)
      → IsStable platform getenv
      → IsEditing platform getenv i id book
      → IsEditing platform getenv i id (edit_phone platform getenv i id phone book).1
  unfolding edit_phone
  edit_phone-IsEditing book phone st (h, at_i) = elim (Bool-cases (is_empty phone)) [
    | inl e ↦ rw e (h, at_i)
    | inr e ↦ elim (Bool-cases (is_valid_phone platform.phone_library getenv phone)) [
      | inr g ↦ rw (e, g) (h, at_i)
      | inl g ↦ elim (Bool-cases (phone_exists platform getenv book phone id)) [
        | inl x ↦ rw (e, g, x) (h, at_i)
        | inr x ↦
            rw (e, g, x)
              (
                assign_phone-IsWellIndexed platform getenv book i phone id _ st refl
                    (has_id book at_i) x h,
                rw (phone_id book (phone_key platform getenv phone) _ refl) at_i,
              )
      ]
    ]
  ]

  edit_note-IsEditing :
      (book : ContactBook) (note : Bytes)
      → IsEditing platform getenv i id book
      → IsEditing platform getenv i id (edit_note platform i note book)
  unfolding edit_note
  edit_note-IsEditing book note h = elim (Bool-cases (is_empty note)) [
    | inl e ↦ rw e h
    | inr e ↦ rw e (
        assign_to-IsEditing book (λ c. record c { note = note }) (λ c. refl) (λ c. refl) (λ c. refl)
          h)
  ]

  next-IsEditing :
      (r : Outcome × ContactBook) (f : ContactBook → Outcome × ContactBook)
      → IsEditing platform getenv i id r.1
      → ((b : ContactBook)
          → IsEditing platform getenv i id b
          → IsEditing platform getenv i id (f b).1)
      → IsEditing platform getenv i id (next platform r f).1
  next-IsEditing (done, book) f h g = g book h
  next-IsEditing (failed e, book) f h g = h

  pub edit_fields-IsEditing :
      (book : ContactBook) (name email phone note : Bytes)
      → IsStable platform getenv
      → IsEditing platform getenv i id book
      → IsEditing platform getenv i id
          (edit_fields platform getenv i id name email phone note book).1
  unfolding edit_fields
  edit_fields-IsEditing book name email phone note st h =
      next-IsEditing (edit_name platform i name book) from_email (edit_name-IsEditing book name h)
        (λ b hb.
          next-IsEditing (edit_email platform i id email b) from_phone
            (edit_email-IsEditing b email hb)
            (λ c hc.
              next-IsEditing (edit_phone platform getenv i id phone c) from_note
                (edit_phone-IsEditing c phone st hc) (λ d hd. edit_note-IsEditing d note hd)))
    where
      from_note : ContactBook → Outcome × ContactBook
      from_note b = (done, edit_note platform i note b)

      from_phone : ContactBook → Outcome × ContactBook
      from_phone b = next platform (edit_phone platform getenv i id phone b) from_note

      from_email : ContactBook → Outcome × ContactBook
      from_email b = next platform (edit_email platform i id email b) from_phone
