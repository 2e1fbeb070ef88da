-- ===== src/Diff.antt =====
-- src/diff.cpp: the contacts that two books do not share, by id.
use acx_contact_cli.Prelude.{
  ◌≡◌, refl, Bool, ◌&&◌, Option, none, some, List, [], ◌∷◌, ◌++◌, Bytes, codes, same, same_refl,
  before, if◌then◌else◌,
}
use acx_contact_cli.Json.Value.{Json, string, array, object}
use acx_contact_cli.Json.Text.{dump}
use acx_contact_cli.Model.{Contact, ContactBook, map_of, items_of}

-- std::map<std::string, Contact>, its entries by ascending key
abbrev pub ById : Type 0
ById = List (Bytes × Contact)

-- `m[c.id] = c`
unfoldable pub enter : Contact → ById → ById
enter c [] = (c.id, c) ∷ []
enter c ((k, d) ∷ m) =
    let rest = enter c m in
    if same k c.id
    then (k, c) ∷ m
    else if before c.id k
    then (c.id, c) ∷ (k, d) ∷ m
    else (k, d) ∷ rest

-- `index`, later contacts over earlier ones
unfoldable pub index_onto : List Contact → ById → ById
index_onto [] m = m
index_onto (c ∷ cs) m = index_onto cs (enter c m)

abbrev pub index : ContactBook → ById
index b = index_onto b.contacts []

unfoldable pub at_id : Bytes → ById → Option Contact
at_id id [] = none
at_id id ((k, c) ∷ m) = let rest = at_id id m in if same k id then some c else rest

-- `ids.insert`, in a std::set
unfoldable pub insert : Bytes → List Bytes → List Bytes
insert id [] = id ∷ []
insert id (k ∷ ids) =
    let rest = insert id ids in
    if same k id then k ∷ ids else if before id k then id ∷ k ∷ ids else k ∷ rest

unfoldable pub insert_all : ById → List Bytes → List Bytes
insert_all [] ids = ids
insert_all ((k, c) ∷ m) ids = insert_all m (insert k ids)

-- the three lists of the result
pub record Changes (D : Type 0) : Type 0 where
  pub added : List (Json D)
  pub removed : List (Json D)
  pub changed : List (Json D)

abbrev pub same_fields : Contact → Contact → Bool
same_fields a b =
    same a.name b.name && (same a.email b.email && (same a.phone b.phone && same a.note b.note))

module _ {D : Type 0} where
  abbrev pub pair : Bytes → Bytes → Json D
  pair a b = array (items_of (string a ∷ string b ∷ []))

  -- a field of `ch`, where it differs
  abbrev pub field : Bytes → Bytes → Bytes → List (Bytes × Json D) → List (Bytes × Json D)
  field name a b rest = if same a b then rest else (name, pair a b) ∷ rest

  unfoldable pub change : Bytes → Contact → Contact → List (Json D)
  change id a b =
      if same_fields a b
      then []
      else object (
          map_of (
            (codes "id", string id)
            ∷ field (codes "name") a.name b.name (
                field (codes "email") a.email b.email
                  (field (codes "phone") a.phone b.phone (field (codes "note") a.note b.note [])))))
        ∷ []

  -- the body of the loop; an id in neither map does not come to it
  unfoldable pub compare_id : Bytes → Option Contact → Option Contact → Changes D → Changes D
  compare_id id none none r = r
  compare_id id (some a) none r = record r { removed = string id ∷ r.removed }
  compare_id id none (some b) r = record r { added = string id ∷ r.added }
  compare_id id (some a) (some b) r = record r { changed = change id a b ++ r.changed }

  unfoldable pub compare_ids : ById → ById → List Bytes → Changes D
  compare_ids a b [] = record { added = []; removed = []; changed = [] }
  compare_ids a b (id ∷ ids) = compare_id id (at_id id a) (at_id id b) (compare_ids a b ids)

  unfoldable pub diff_books : ContactBook → ContactBook → Changes D
  diff_books a b = compare_ids (index a) (index b) (insert_all (index b) (insert_all (index a) []))

  abbrev pub no_changes : Changes D
  no_changes = record { added = []; removed = []; changed = [] }

  same_contact : (id : Bytes) (o : Option Contact) → compare_id id o o no_changes ≡ no_changes
  unfolding compare_id change
  same_contact id none = refl
  same_contact id (some c) =
      rw (same_refl c.name, same_refl c.email, same_refl c.phone, same_refl c.note) refl

  same_maps : (m : ById) (ids : List Bytes) → compare_ids m m ids ≡ no_changes
  unfolding compare_ids
  same_maps m [] = refl
  same_maps m (id ∷ ids) = rw (same_maps m ids) (same_contact id (at_id id m))

  -- A book does not differ from itself, whatever ids its contacts have.
  pub diff_books_self : (b : ContactBook) → diff_books b b ≡ no_changes
  unfolding diff_books
  diff_books_self b = same_maps (index b) (insert_all (index b) (insert_all (index b) []))

module _ {D : Type 0} (print : D → Bytes) where
  unfoldable pub diff_books_json : ContactBook → ContactBook → Bytes
  unfolding diff_books
  diff_books_json a b =
      let r = diff_books {D = D} a b in
      dump print 0 (
        object (
          map_of (
            (codes "added", array (items_of r.added))
            ∷ (codes "removed", array (items_of r.removed))
            ∷ (codes "changed", array (items_of r.changed))
            ∷ [])))
