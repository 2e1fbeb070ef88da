-- ===== src/Merge/Effect.antt =====
-- What merging and reading rows do to a book and to contacts.
use acx_contact_cli.Prelude.{
  ℕ, ◌+◌, ◌≡◌, ◌≢◌, refl, sym, ap, ◌∙◌, false, Option, none, some, List, [], ◌∷◌, Bytes, is_empty,
  Bool-cases, inl, inr, get_elem?,
}
use acx_contact_cli.Model.{Contact, ContactBook}
use acx_contact_cli.World.{Platform, World}
use acx_contact_cli.Merge.{
  skip, Operations, existing, reconcile, merge_at, merge_found, merge_contacts, fill_id,
  fill_created_at, fill,
}
use acx_contact_cli.Storage.Outcomes.{uuid_text-not_empty}

module _ (platform : Platform) (operations other : Operations) where
  same_found :
      (c : Contact) (o : Option ℕ) (s : ContactBook × World)
      → ((d : Contact) (t : ContactBook × World) → operations.add d t ≡ other.add d t)
      → merge_found platform operations skip c o s ≡ merge_found platform other skip c o s
  unfolding reconcile
  same_found c none s h = h c s
  same_found c (some i) s h = same_at (get_elem? s.0.contacts i)
    where
      same_at :
          (o : Option Contact)
          → merge_at platform operations skip c o s ≡ merge_at platform other skip c o s
      same_at none = refl
      same_at (some old) = refl

  -- Merging with the strategy to skip edits nothing: the result is the same for any two pairs of
  -- operations that add alike.
  pub merge_contacts_skip :
      (cs : List Contact) (s : ContactBook × World)
      → ((d : Contact) (t : ContactBook × World) → operations.add d t ≡ other.add d t)
      → merge_contacts platform operations skip cs s ≡ merge_contacts platform other skip cs s
  unfolding merge_contacts reconcile existing
  merge_contacts_skip [] s h = refl
  merge_contacts_skip (c ∷ cs) s h =
      ap (merge_contacts platform operations skip cs)
        (same_found c (existing platform operations skip c s) s h)
      ∙ merge_contacts_skip cs
          (merge_found platform other skip c (existing platform other skip c s) s) h

not_empty : (s : Bytes) → is_empty s ≡ false → s ≢ []
not_empty [] h e = absurd (cc h)
not_empty (c ∷ s) h e = absurd (cc e)

created_at_id :
    (platform : Platform) (c : Contact) (w : World) → (fill_created_at platform c w).0.id ≡ c.id
unfolding fill_created_at
created_at_id platform c w = elim (Bool-cases (is_empty c.created_at)) [
  | inl e ↦ rw e refl
  | inr e ↦ rw e refl
]

drawn_or_given : (platform : Platform) (c : Contact) (w : World) → (fill_id platform c w).0.id ≢ []
unfolding fill_id
drawn_or_given platform c w = elim (Bool-cases (is_empty c.id)) [
  | inl e ↦ rw e (uuid_text-not_empty (platform.random w.draws) (platform.random (w.draws + 1)))
  | inr e ↦ rw e (not_empty c.id e)
]

-- A contact read from a row has an id that is not empty, whatever the row gives.
pub fill-id : (platform : Platform) (c : Contact) (w : World) → (fill platform c w).0.id ≢ []
unfolding fill
fill-id platform c w q =
    drawn_or_given platform c w
      (sym (created_at_id platform (fill_id platform c w).0 (fill_id platform c w).1) ∙ q)
