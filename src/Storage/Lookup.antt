-- ===== src/Storage/Lookup.antt =====
-- Finding contacts in src/storage.cpp: substrings, ids that are gone, keys that are taken.
use acx_contact_cli.Prelude.{
  ℕ, suc, ◌≡◌, ◌≢◌, ◌↔◌, ◌⊎◌, refl, sym, ap, ◌∙◌, Bool, true, false, ◌&&◌, ◌||◌, &&-eq-true,
  Bool-cases, keep, is_empty, same_iff, Option, none, some, List, [], ◌∷◌, ◌++◌, map, arith, Bytes,
  same, same_refl, if◌then◌else◌, length, get_elem?, take, Option-cases, inl, inr, ||-eq-true, ltb,
}
use acx_contact_cli.Validation.{Environment, to_lower_ascii}
use acx_contact_cli.Model.{Contact, ContactBook}
use acx_contact_cli.World.{Platform, World}
use acx_contact_cli.Storage.Persist.{Storage}
use acx_contact_cli.Storage.Contacts.{
  failed, contact_not_found, begins_with, contains, matches, search_contacts, phone_key, position,
  remove_at, remove_contact, remove_known, assign_to, contact_at, delete_contact,
}
use acx_contact_cli.Storage.Keys.{Distinct, get_elem?-remove_at}
use acx_contact_cli.Storage.Invariant.{id_of, get_elem?-unmap, map-remove_at, map-set_same}
use acx_contact_cli.Storage.Outcomes.{position-get_elem?}

-- a text with the needle at some place
abbrev pub Has : Bytes → Bytes → Type 0
Has needle s = (front : Bytes) × (back : Bytes) × (s ≡ front ++ (needle ++ back))

begins_with-back :
    (needle s : Bytes) → begins_with needle s ≡ true → (back : Bytes) × (s ≡ needle ++ back)
unfolding same
begins_with-back [] s h = (s, refl)
begins_with-back (x ∷ needle) [] h = absurd (cc h)
begins_with-back (x ∷ needle) (c ∷ s) h =
    let (back, e) = begins_with-back needle s (ground arith) in
    let first : c ≡ x = ground arith in (back, cc (e, first))

begins_with-append : (needle back : Bytes) → begins_with needle (needle ++ back) ≡ true
begins_with-append needle back =
    ap (λ t. same t needle) (take-append needle back) ∙ same_refl needle
  where
    take-append : (a b : Bytes) → take (length a) (a ++ b) ≡ a
    take-append [] b = refl
    take-append (x ∷ a) b = ap (◌∷◌ x) (take-append a b)

found_at : (needle s : Bytes) → contains needle s ≡ true → Has needle s
unfolding contains
found_at [] s h = ([], s, refl)
found_at (x ∷ needle) [] h = absurd (cc h)
found_at (x ∷ needle) (c ∷ s) h =
    elim (||-eq-true (begins_with (x ∷ needle) (c ∷ s)) (contains (x ∷ needle) s) h) [
      | inl b ↦ (let (back, e) = begins_with-back (x ∷ needle) (c ∷ s) b in ([], back, e))
      | inr r ↦
          (let (front, back, e) = found_at (x ∷ needle) s r in (c ∷ front, back, ap (◌∷◌ c) e))
    ]

finds : (needle front back : Bytes) → contains needle (front ++ (needle ++ back)) ≡ true
unfolding contains same
finds [] [] [] = refl
finds [] [] (c ∷ back) = refl
finds (x ∷ needle) [] back =
    ap (λ t. t || contains (x ∷ needle) (needle ++ back)) (begins_with-append (x ∷ needle) back)
finds needle (c ∷ front) back = rw (finds needle front back) (ground arith)

contains_iff : (needle s : Bytes) → (contains needle s ≡ true) ↔ Has needle s
contains_iff needle s =
    (found_at needle s, λ (front, back, e). ap (contains needle) e ∙ finds needle front back)

-- the elements of a list with a property, in order
pub data Selects {A : Type 0} (P : A → Type 0) : List A → List A → Type 0 where
  none_left : Selects P [] []
  taken : {x : A} {xs ys : List A} → P x → Selects P xs ys → Selects P (x ∷ xs) (x ∷ ys)
  passed : {x : A} {xs ys : List A} → (P x → ⊥) → Selects P xs ys → Selects P (x ∷ xs) ys

Selects-keep :
    {A : Type 0} {P : A → Type 0} (p : A → Bool)
    → ((x : A) → (p x ≡ true) ↔ P x)
    → (xs : List A) → Selects P xs (keep p xs)
Selects-keep p h [] = none_left
Selects-keep p h (x ∷ xs) = elim (Bool-cases (p x)) [
  | inl e ↦ rw e (taken ((h x).0 e) (Selects-keep p h xs))
  | inr e ↦ rw e (passed (λ q. cc (e, (h x).1 q)) (Selects-keep p h xs))
]

-- a search term that is not given, or stands in a value
abbrev pub Admits : (Bytes → Bytes) → Bytes → Bytes → Type 0
Admits f term value = (term ≡ []) ⊎ Has (f term) (f value)

-- a contact that a search is for
pub record IsMatch (platform : Platform) (getenv : Environment) (name email phone id : Bytes)
    (c : Contact) : Type 0 where
  pub by_name : Admits to_lower_ascii name c.name
  pub by_email : Admits to_lower_ascii email c.email
  pub by_phone : Admits (phone_key platform getenv) phone c.phone
  pub by_id : (id ≡ []) ⊎ (c.id ≡ id)

empty_iff : (s : Bytes) → (is_empty s ≡ true) ↔ (s ≡ [])
empty_iff [] = (λ h. refl, λ h. refl)
empty_iff (c ∷ s) = (λ h. absurd (cc h), λ h. absurd (cc h))

either_iff :
    {P Q : Type 0} (a b : Bool) → (a ≡ true) ↔ P → (b ≡ true) ↔ Q → ((a || b) ≡ true) ↔ (P ⊎ Q)
either_iff true b p q = (λ h. inl (p.0 refl), λ x. refl)
either_iff false b p q =
    (λ h. inr (q.0 h), λ x. elim x [ inl y ↦ absurd (cc (p.1 y)) | inr y ↦ q.1 y ])

module _ (platform : Platform) (getenv : Environment) (name email phone id : Bytes) where
  admitted :
      (f : Bytes → Bytes) (term value : Bytes)
      → ((is_empty term || contains (f term) (f value)) ≡ true) ↔ Admits f term value
  admitted f term value =
      either_iff (is_empty term) (contains (f term) (f value)) (empty_iff term)
        (contains_iff (f term) (f value))

  matches_iff :
      (c : Contact)
      → (matches platform getenv name email phone id c ≡ true)
        ↔ IsMatch platform getenv name email phone id c
  unfolding matches
  matches_iff c = (
    λ h.
        let (n, h1) = &&-eq-true _ _ h in
        let (e, h2) = &&-eq-true _ _ h1 in
        let (p, i) = &&-eq-true _ _ h2 in
        record {
          by_name = (admitted to_lower_ascii name c.name).0 n;
          by_email = (admitted to_lower_ascii email c.email).0 e;
          by_phone = (admitted (phone_key platform getenv) phone c.phone).0 p;
          by_id = (either_iff (is_empty id) (same c.id id) (empty_iff id) (same_iff c.id id)).0 i;
        },
    λ m.
        let n = (admitted to_lower_ascii name c.name).1 m.by_name in
        let e = (admitted to_lower_ascii email c.email).1 m.by_email in
        let p = (admitted (phone_key platform getenv) phone c.phone).1 m.by_phone in
        let k =
          (either_iff (is_empty id) (same c.id id) (empty_iff id) (same_iff c.id id)).1 m.by_id in
        λ i. n i && (e i && (p i && k i)),
  )

  -- A search gives, in the order of the book, the contacts that have the given name and email as
  -- substrings, whatever the case of letters, the given phone as a substring of its normal form, and
  -- the given id as theirs, where a field that is not given excludes none; and it gives no others.
  pub search_contacts_lem :
      (book : ContactBook)
      → Selects
          (IsMatch platform getenv name email phone id)
          book.contacts
          (search_contacts platform getenv book name email phone id)
  unfolding search_contacts
  search_contacts_lem book =
      Selects-keep (matches platform getenv name email phone id) matches_iff book.contacts

-- no contact has an id that is at no position
position-none :
    (id : Bytes) (cs : List Contact)
    → ((i : ℕ) → get_elem? (map id_of cs) i ≢ some id)
    → position id cs ≡ none
position-none id cs h = elim (Option-cases (position id cs)) [
  | inl e ↦ e
  | inr (i, e) ↦ absurd (h i (position-get_elem? id cs i e))
]

remove_at_gone :
    (ids : List Bytes) (id : Bytes) (i : ℕ)
    → Distinct ids
    → get_elem? ids i ≡ some id
    → (j : ℕ) → get_elem? (remove_at i ids) j ≢ some id
remove_at_gone ids id i d h j e =
    let place = (if ltb j i then j else suc j) in
    let same_place : place ≡ i = d id place i (sym (get_elem?-remove_at ids i j) ∙ e) h in
    ground arith

module _ {D : Type 0} (print : D → Bytes) (platform : Platform) where
  same_ids :
      (book : ContactBook) (i : ℕ) (f : Contact → Contact) (o : Option Contact)
      → ((c : Contact) → (f c).id ≡ c.id)
      → get_elem? book.contacts i ≡ o
      → map id_of (assign_to platform book i f o).contacts ≡ map id_of book.contacts
  same_ids book i f none p e = refl
  same_ids book i f (some c) p e = map-set_same id_of book.contacts i c (f c) e (p c)

  removed :
      (w : World) (book : ContactBook) (id : Bytes) (i : ℕ)
      → Distinct (map id_of book.contacts)
      → get_elem? (map id_of book.contacts) i ≡ some id
      → position id (remove_contact platform w i book).contacts ≡ none
  unfolding remove_contact
  removed w book id i d h =
      let (c, (at_i, _)) = get_elem?-unmap id_of book.contacts i h in
      ap (λ o. position id (remove_known platform w i book o).contacts) at_i
      ∙ position-none id (remove_at i book.contacts) (λ j q.
        remove_at_gone (map id_of book.contacts) id i d h j
          (ap (λ ids. get_elem? ids j) (sym (map-remove_at id_of book.contacts i)) ∙ q))

  gone :
      (w : World) (book : ContactBook) (id : Bytes) (i : ℕ) (f : Contact → Contact)
      → ((c : Contact) → (f c).id ≡ c.id)
      → Distinct (map id_of book.contacts)
      → position id book.contacts ≡ some i
      → position id (remove_contact platform w i (contact_at platform book i f)).contacts ≡ none
  gone w book id i f p d e =
      let same = same_ids book i f (get_elem? book.contacts i) p refl in
      removed w (contact_at platform book i f) id i (rw same d)
        (rw same (position-get_elem? id book.contacts i e))

  -- after a deletion, refused or not, no contact has the id
  delete_contact-position :
      (st : Storage) (book : ContactBook) (id user : Bytes) (w : World)
      → Distinct (map id_of book.contacts)
      → position id (delete_contact print platform st book id user w).1.contacts ≡ none
  unfolding delete_contact
  delete_contact-position st book id user w d = elim (Option-cases (position id book.contacts)) [
    | inl q ↦ rw (q, delete_contact) q
    | inr (i, q) ↦ rw (q, delete_contact) (gone _ book id i _ (λ c. refl) d q)
  ]

  delete_unknown :
      (st : Storage) (book : ContactBook) (id user : Bytes) (w : World)
      → position id book.contacts ≡ none
      → (delete_contact print platform st book id user w).0 ≡ failed contact_not_found
  unfolding delete_contact
  delete_unknown st book id user w q = rw (q, delete_contact) refl

  -- Deleting the same id twice: the second time there is no such contact, where the ids of the book
  -- differ.
  pub delete_contact-delete_contact :
      (st : Storage) (book : ContactBook) (id user : Bytes) (w w' : World)
      → Distinct (map id_of book.contacts)
      → (delete_contact print platform st
          (delete_contact print platform st book id user w).1
          id
          user
          w').0
        ≡ failed contact_not_found
  delete_contact-delete_contact st book id user w w' d =
      delete_unknown st (delete_contact print platform st book id user w).1 id user w'
        (delete_contact-position st book id user w d)
