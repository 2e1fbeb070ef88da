-- ===== src/Storage/Outcomes.antt =====
-- Adding a contact to a book and removing one keep the invariant.
use acx_contact_cli.Prelude.{
  ℕ, suc, ◌≡◌, ◌≢◌, sym, ap, ◌∙◌, Option, none, some, List, [], ◌∷◌, ◌++◌, map, arith, Bytes, same,
  same_iff, get_elem?, drop, Bool-cases, Option-cases, inl, inr,
}
use acx_contact_cli.Validation.{Environment}
use acx_contact_cli.Table.{find, erase}
use acx_contact_cli.Model.{Contact, ContactBook}
use acx_contact_cli.World.{Platform, World}
use acx_contact_cli.World.Ident.{uuid_text}
use acx_contact_cli.Storage.Contacts.{remove_known, position, remove_at, push_contact}
use acx_contact_cli.Storage.Keys.{
  Distinct, push_InStep, remove_InStep, remove_at-Distinct, get_elem?-snoc, get_elem?-remove_at,
}
use acx_contact_cli.Storage.Invariant.{
  id_of, email_key, number_key, IsWellIndexed, map-snoc, length-map, map-remove_at, map-drop,
  get_elem?-map, reindex-put_all,
}
use acx_contact_cli.Storage.Steps.{retable}

fresh-Distinct :
    (ids : List Bytes) (id : Bytes)
    → Distinct ids
    → ((i : ℕ) → get_elem? ids i ≢ some id)
    → Distinct (ids ++ id ∷ [])
fresh-Distinct ids id d f k i j p q =
    let a = get_elem?-snoc ids id i in
    let b = get_elem?-snoc ids id j in
    let old = d k i j in let fi = f i in let fj = f j in ground arith

module _ (platform : Platform) (getenv : Environment) where
  pub push_contact-IsWellIndexed :
      (book : ContactBook) (c : Contact)
      → find (email_key c) book.email_to_i ≡ none
      → find (number_key platform getenv c) book.phone_to_i ≡ none
      → c.id ≢ []
      → ((i : ℕ) → get_elem? (map id_of book.contacts) i ≢ some c.id)
      → IsWellIndexed platform getenv book
      → IsWellIndexed platform getenv (push_contact platform getenv c book)
  unfolding push_contact
  push_contact-IsWellIndexed book c e p n f (emails, phones, ids, named) =
      let key = number_key platform getenv in
      let ids' = map-snoc id_of book.contacts c in
      (
        retable _ (map-snoc email_key book.contacts c) (
            rw (← length-map email_key book.contacts)
              (push_InStep book.email_to_i (map email_key book.contacts) (email_key c) emails e)),
        retable _ (map-snoc key book.contacts c) (
            rw (← length-map key book.contacts)
              (push_InStep book.phone_to_i (map key book.contacts) (key c) phones p)),
        rw ids' (fresh-Distinct (map id_of book.contacts) c.id ids f),
        rw ids' (λ i q.
            (let a = get_elem?-snoc (map id_of book.contacts) c.id i in
              let old = named i in ground arith)),
      )

module _ (platform : Platform) where
  pub remove_known-IsWellIndexed :
      (w : World) (book : ContactBook) (i : ℕ) (o : Option Contact)
      → get_elem? book.contacts i ≡ o
      → IsWellIndexed platform w.getenv book
      → IsWellIndexed platform w.getenv (remove_known platform w i book o)
  remove_known-IsWellIndexed w book i none e h = h
  remove_known-IsWellIndexed w book i (some c) e (emails, phones, ids, named) =
      let key = number_key platform w.getenv in
      let tail = remove_at i book.contacts in
      let loop =
        reindex-put_all platform w (drop i tail) i (erase (email_key c) book.email_to_i)
          (erase (key c) book.phone_to_i) in
      (
        rw (loop, map-drop email_key tail i, map-remove_at email_key book.contacts i)
            (remove_InStep book.email_to_i (map email_key book.contacts) i (email_key c) emails
              (get_elem?-map email_key book.contacts i e)),
        rw (loop, map-drop key tail i, map-remove_at key book.contacts i)
            (remove_InStep book.phone_to_i (map key book.contacts) i (key c) phones
              (get_elem?-map key book.contacts i e)),
        rw (map-remove_at id_of book.contacts i)
            (remove_at-Distinct (map id_of book.contacts) i ids),
        rw (map-remove_at id_of book.contacts i)
            (λ j q. named _ (sym (get_elem?-remove_at (map id_of book.contacts) i j) ∙ q)),
      )

-- the first contact with an id has the id
pub position-get_elem? :
    (id : Bytes) (cs : List Contact) (i : ℕ)
    → position id cs ≡ some i
    → get_elem? (map id_of cs) i ≡ some id
unfolding position
position-get_elem? id [] i e = absurd (cc e)
position-get_elem? id (c ∷ cs) i e = elim (Bool-cases (same c.id id)) [
  | inl s ↦
      (let e' = rw s at e in
        let z : 0 ≡ i = cc e' in
        ap (get_elem? (map id_of (c ∷ cs))) (sym z) ∙ ap some ((same_iff c.id id).0 s))
  | inr s ↦ elim (Option-cases (position id cs)) [
    | inl p ↦ (let e' = rw (s, p) at e in absurd (cc e'))
    | inr (j, p) ↦
        (let e' = rw (s, p) at e in
          let z : suc j ≡ i = cc e' in
          ap (get_elem? (map id_of (c ∷ cs))) (sym z) ∙ position-get_elem? id cs j p)
  ]
]

dash_not_empty : (a b : Bytes) (c : ℕ) (r : Bytes) → a ++ (b ++ (c ∷ r)) ≢ []
dash_not_empty [] [] c r e = absurd (cc e)
dash_not_empty [] (x ∷ b) c r e = absurd (cc e)
dash_not_empty (x ∷ a) b c r e = absurd (cc e)

pub uuid_text-not_empty : (first second : ℕ) → uuid_text first second ≢ []
unfolding uuid_text
uuid_text-not_empty first second = dash_not_empty _ _ b'-' _
