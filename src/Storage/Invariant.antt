-- ===== src/Storage/Invariant.antt =====
-- The invariant of a book between the operations of src/storage.cpp, and what each change of the
-- book does to it.
use acx_contact_cli.Prelude.{
  ℕ, zero, suc, ◌+◌, ◌≡◌, ◌≢◌, refl, ap, some, List, [], ◌∷◌, ◌++◌, map, Bytes, length, get_elem?,
  set, drop,
}
use acx_contact_cli.Validation.{Environment, to_lower_ascii}
use acx_contact_cli.Table.{Table, put}
use acx_contact_cli.Model.{Contact, ContactBook}
use acx_contact_cli.World.{Platform, World}
use acx_contact_cli.Index.{reindex}
use acx_contact_cli.Storage.Contacts.{remove_at, phone_key}
use acx_contact_cli.Storage.Keys.{InStep, Distinct, put_all}

abbrev pub id_of : Contact → Bytes
id_of c = c.id

abbrev pub email_key : Contact → Bytes
email_key c = to_lower_ascii c.email

abbrev pub number_key : Platform → Environment → Contact → Bytes
number_key platform getenv c = phone_key platform getenv c.phone

-- Both tables give exactly the positions of the contacts' keys, ids differ, and none is empty.
abbrev pub IsWellIndexed : Platform → Environment → ContactBook → Type 0
IsWellIndexed platform getenv book =
    InStep book.email_to_i (map email_key book.contacts)
    × InStep book.phone_to_i (map (number_key platform getenv) book.contacts)
    × Distinct (map id_of book.contacts)
    × ((i : ℕ) → get_elem? (map id_of book.contacts) i ≢ some [])

-- the normal form of a phone number is its own normal form
abbrev pub IsStable : Platform → Environment → Type 0
IsStable platform getenv =
    (phone : Bytes)
    → phone_key platform getenv (phone_key platform getenv phone) ≡ phone_key platform getenv phone

module _ (f : Contact → Bytes) where
  pub map-snoc : (cs : List Contact) (c : Contact) → map f (cs ++ c ∷ []) ≡ map f cs ++ f c ∷ []
  map-snoc [] c = refl
  map-snoc (x ∷ cs) c = ap (◌∷◌ (f x)) (map-snoc cs c)

  pub length-map : (cs : List Contact) → length (map f cs) ≡ length cs
  length-map [] = refl
  length-map (x ∷ cs) = ap suc (length-map cs)

  pub map-set :
      (cs : List Contact) (i : ℕ) (c : Contact) → map f (set cs i c) ≡ set (map f cs) i (f c)
  map-set [] i c = refl
  map-set (x ∷ cs) zero c = refl
  map-set (x ∷ cs) (suc i) c = ap (◌∷◌ (f x)) (map-set cs i c)

  pub map-remove_at : (cs : List Contact) (i : ℕ) → map f (remove_at i cs) ≡ remove_at i (map f cs)
  map-remove_at [] i = refl
  map-remove_at (x ∷ cs) zero = refl
  map-remove_at (x ∷ cs) (suc i) = ap (◌∷◌ (f x)) (map-remove_at cs i)

  pub map-drop : (cs : List Contact) (n : ℕ) → map f (drop n cs) ≡ drop n (map f cs)
  map-drop cs zero = refl
  map-drop [] (suc n) = refl
  map-drop (x ∷ cs) (suc n) = map-drop cs n

  pub get_elem?-map :
      (cs : List Contact) (i : ℕ) {c : Contact}
      → get_elem? cs i ≡ some c
      → get_elem? (map f cs) i ≡ some (f c)
  get_elem?-map [] i e = absurd (cc e)
  get_elem?-map (x ∷ cs) zero e = cc e
  get_elem?-map (x ∷ cs) (suc i) e = get_elem?-map cs i e

  pub get_elem?-unmap :
      (cs : List Contact) (i : ℕ) {k : Bytes}
      → get_elem? (map f cs) i ≡ some k
      → (c : Contact) × ((get_elem? cs i ≡ some c) × (f c ≡ k))
  get_elem?-unmap [] i e = absurd (cc e)
  get_elem?-unmap (x ∷ cs) zero e = (x, (refl, cc e))
  get_elem?-unmap (x ∷ cs) (suc i) e = get_elem?-unmap cs i e

  -- a value written over the same key
  pub map-set_same :
      (cs : List Contact) (i : ℕ) (c d : Contact)
      → get_elem? cs i ≡ some c
      → f d ≡ f c
      → map f (set cs i d) ≡ map f cs
  map-set_same [] i c d e s = refl
  map-set_same (x ∷ cs) zero c d e s = cc (e, s)
  map-set_same (x ∷ cs) (suc i) c d e s = ap (◌∷◌ (f x)) (map-set_same cs i c d e s)

module _ (platform : Platform) where
  -- the loop of the sources that indexes contacts
  pub reindex-put_all :
      (w : World) (cs : List Contact) (i : ℕ) (emails phones : Table)
      → reindex platform w i cs (emails, phones) ≡ (
        put_all i (map email_key cs) emails,
        put_all i (map (number_key platform w.getenv) cs) phones,
      )
  unfolding reindex
  reindex-put_all w [] i emails phones = refl
  reindex-put_all w (c ∷ cs) i emails phones =
      reindex-put_all w cs (i + 1) (put (email_key c) i emails)
        (put (number_key platform w.getenv c) i phones)
