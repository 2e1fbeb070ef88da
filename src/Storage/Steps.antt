-- ===== src/Storage/Steps.antt =====
-- What the parts of the operations of src/storage.cpp do to the invariant of the book.
use acx_contact_cli.Prelude.{
  ℕ, ◌≡◌, ◌≢◌, refl, sym, ap, ◌∙◌, true, false, Option, none, some, List, [], map, arith, Bytes,
  same, same_iff, get_elem?, set, Option-cases, inl, inr,
}
use acx_contact_cli.Validation.{Environment, to_lower_ascii}
use acx_contact_cli.Validation.Phone.{to_lower_ascii_idem}
use acx_contact_cli.Table.{Table, find}
use acx_contact_cli.Model.{Contact, ContactBook}
use acx_contact_cli.World.{Platform}
use acx_contact_cli.Storage.Contacts.{
  is_other, assign_to, assign_email, assign_phone, other_at, email_exists, phone_exists, phone_key,
}
use acx_contact_cli.Storage.Keys.{InStep, Distinct, move_InStep}
use acx_contact_cli.Storage.Invariant.{
  id_of, email_key, number_key, IsWellIndexed, IsStable, map-set, get_elem?-map, get_elem?-unmap,
  map-set_same,
}

-- no contact but the one at a position has the key that a guard has looked up
pub only_here :
    (f : Contact → Bytes) (t : Table) (cs : List Contact) (key id : Bytes) (i : ℕ) (c : Contact)
    → InStep t (map f cs)
    → Distinct (map id_of cs)
    → get_elem? cs i ≡ some c
    → c.id ≡ id
    → other_at cs id (find key t) ≡ false
    → (j : ℕ) → find key t ≡ some j
    → j ≡ i
only_here f t cs key id i c s d h e g j q =
    let (k, (at_j, key_j)) = get_elem?-unmap f cs j ((s key j).0 q) in
    let same_id : same k.id id ≡ true =
      (let g' : is_other id (some k) ≡ false =
          sym (ap (is_other id) at_j) ∙ (sym (ap (other_at cs id) q) ∙ g) in
        ground arith) in
    d id j i (get_elem?-map id_of cs j at_j ∙ ap some ((same_iff k.id id).0 same_id))
      (get_elem?-map id_of cs i h ∙ ap some e)

-- no contact has the key that a guard has looked up, where no id is empty
pub nowhere :
    (f : Contact → Bytes) (t : Table) (cs : List Contact) (key : Bytes)
    → InStep t (map f cs)
    → ((i : ℕ) → get_elem? (map id_of cs) i ≢ some [])
    → other_at cs [] (find key t) ≡ false
    → find key t ≡ none
nowhere f t cs key s named g = elim (Option-cases (find key t)) [
  | inl e ↦ e
  | inr (j, q) ↦
      (let (k, (at_j, key_j)) = get_elem?-unmap f cs j ((s key j).0 q) in
        let same_id : same k.id [] ≡ true =
          (let g' : is_other [] (some k) ≡ false =
              sym (ap (is_other []) at_j) ∙ (sym (ap (other_at cs []) q) ∙ g) in
            ground arith) in
        absurd (named j (get_elem?-map id_of cs j at_j ∙ ap some ((same_iff k.id []).0 same_id))))
]

-- the same keys, written otherwise
pub retable : (t : Table) {ks ls : List Bytes} → ls ≡ ks → InStep t ks → InStep t ls
retable t e s = rw e s

module _ (platform : Platform) (getenv : Environment) where
  -- replacing a contact by one with the same id, email and phone
  pub assign_to-IsWellIndexed :
      (book : ContactBook) (i : ℕ) (f : Contact → Contact) (o : Option Contact)
      → ((c : Contact) → (f c).id ≡ c.id)
      → ((c : Contact) → (f c).email ≡ c.email)
      → ((c : Contact) → (f c).phone ≡ c.phone)
      → get_elem? book.contacts i ≡ o
      → IsWellIndexed platform getenv book
      → IsWellIndexed platform getenv (assign_to platform book i f o)
  assign_to-IsWellIndexed book i f none p q r e h = h
  assign_to-IsWellIndexed book i f (some c) p q r e (emails, phones, ids, named) =
      let same_ids = map-set_same id_of book.contacts i c (f c) e (p c) in
      (
        retable _ (map-set_same email_key book.contacts i c (f c) e (ap to_lower_ascii (q c)))
            emails,
        retable _
            (map-set_same (number_key platform getenv) book.contacts i c (f c) e
              (ap (phone_key platform getenv) (r c)))
            phones,
        rw same_ids ids,
        rw same_ids named,
      )

  pub assign_email-IsWellIndexed :
      (book : ContactBook) (i : ℕ) (email id : Bytes) (o : Option Contact)
      → get_elem? book.contacts i ≡ o
      → ((c : Contact) → o ≡ some c → c.id ≡ id)
      → email_exists book email id ≡ false
      → IsWellIndexed platform getenv book
      → IsWellIndexed platform getenv (assign_email platform book i (to_lower_ascii email) o)
  unfolding email_exists
  assign_email-IsWellIndexed book i email id none e n g h = h
  assign_email-IsWellIndexed book i email id (some c) e n g (emails, phones, ids, named) =
      let d = record c { email = to_lower_ascii email } in
      let same_ids = map-set_same id_of book.contacts i c d e refl in
      (
        retable _
            (map-set email_key book.contacts i d
              ∙ ap (set (map email_key book.contacts) i) (to_lower_ascii_idem email))
            (move_InStep book.email_to_i (map email_key book.contacts) i (to_lower_ascii email)
              (email_key c) emails (get_elem?-map email_key book.contacts i e)
              (only_here email_key book.email_to_i book.contacts (to_lower_ascii email) id i c
                emails ids e (n c refl) g)),
        retable _ (map-set_same (number_key platform getenv) book.contacts i c d e refl) phones,
        rw same_ids ids,
        rw same_ids named,
      )

  pub assign_phone-IsWellIndexed :
      (book : ContactBook) (i : ℕ) (phone id : Bytes) (o : Option Contact)
      → IsStable platform getenv
      → get_elem? book.contacts i ≡ o
      → ((c : Contact) → o ≡ some c → c.id ≡ id)
      → phone_exists platform getenv book phone id ≡ false
      → IsWellIndexed platform getenv book
      → IsWellIndexed platform getenv
          (assign_phone platform getenv book i (phone_key platform getenv phone) o)
  unfolding phone_exists
  assign_phone-IsWellIndexed book i phone id none st e n g h = h
  assign_phone-IsWellIndexed book i phone id (some c) st e n g (emails, phones, ids, named) =
      let number = phone_key platform getenv phone in
      let key = number_key platform getenv in
      let d = record c { phone = number } in
      let same_ids = map-set_same id_of book.contacts i c d e refl in
      (
        retable _ (map-set_same email_key book.contacts i c d e refl) emails,
        retable _ (map-set key book.contacts i d ∙ ap (set (map key book.contacts) i) (st phone)) (
            move_InStep book.phone_to_i (map key book.contacts) i number (key c) phones
              (get_elem?-map key book.contacts i e)
              (only_here key book.phone_to_i book.contacts number id i c phones ids e (n c refl)
                g)),
        rw same_ids ids,
        rw same_ids named,
      )
