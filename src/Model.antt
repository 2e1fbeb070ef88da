-- ===== src/Model.antt =====
-- src/model.hpp and src/model.cpp: contacts, their JSON form, and the book in memory.
pub mod RoundTrip
use acx_contact_cli.Prelude.{
  ℕ, Option, none, some, List, [], ◌∷◌, map, Bytes, codes, same, if◌then◌else◌,
}
use acx_contact_cli.Table.{Table}
use acx_contact_cli.Json.Value.{
  Json, string, array, object, Items, nil, item, Members, end, assign, lookup,
}
use acx_contact_cli.Json.Parser.{Result, ok, err, ◌>>=◌, bad_variant_access, out_of_range}

pub record HistoryEntry : Type 0 where
  pub timestamp : Bytes
  pub user : Bytes
  pub action : Bytes

pub record Contact : Type 0 where
  pub id : Bytes
  pub name : Bytes
  pub email : Bytes
  pub phone : Bytes
  pub note : Bytes
  pub created_at : Bytes
  pub history : List HistoryEntry

pub record ContactBook : Type 0 where
  pub contacts : List Contact
  pub email_to_i : Table
  pub phone_to_i : Table

module _ {D : Type 0} where
  -- a std::map from its initialiser list, whose keys all differ here
  unfoldable pub map_of : List (Bytes × Json D) → Members D
  unfolding assign
  map_of [] = end
  map_of ((k, v) ∷ rest) = assign k v (map_of rest)

  unfoldable pub items_of : List (Json D) → Items D
  items_of [] = nil
  items_of (j ∷ js) = item j (items_of js)

  -- std::get
  unfoldable pub get_object : Json D → Result (Members D)
  get_object (object m) = ok m
  get_object _ = err bad_variant_access

  unfoldable pub get_string : Json D → Result Bytes
  get_string (string s) = ok s
  get_string _ = err bad_variant_access

  unfoldable pub get_array : Json D → Result (Items D)
  get_array (array vs) = ok vs
  get_array _ = err bad_variant_access

  -- std::map::at
  unfoldable pub at : Members D → Bytes → Result (Json D)
  unfolding lookup
  at m key = elim (lookup key m) [ some v ↦ ok v | none ↦ err out_of_range ]

  abbrev pub string_at : Members D → Bytes → Result Bytes
  string_at m key = do v ← at m key; get_string v

  unfoldable pub entry_to_json : HistoryEntry → Json D
  unfolding map_of
  entry_to_json h = object (
      map_of (
        (codes "timestamp", string h.timestamp)
        ∷ (codes "user", string h.user)
        ∷ (codes "action", string h.action)
        ∷ []))

  unfoldable pub entry_from_json : Json D → Result HistoryEntry
  unfolding get_object get_string at
  entry_from_json j = do
    o ← get_object j
    timestamp ← string_at o (codes "timestamp")
    user ← string_at o (codes "user")
    action ← string_at o (codes "action")
    ok (record { timestamp = timestamp; user = user; action = action })

  unfoldable pub to_json : Contact → Json D
  unfolding map_of items_of entry_to_json
  to_json c = object (
      map_of (
        (codes "id", string c.id)
        ∷ (codes "name", string c.name)
        ∷ (codes "email", string c.email)
        ∷ (codes "phone", string c.phone)
        ∷ (codes "note", string c.note)
        ∷ (codes "created_at", string c.created_at)
        ∷ (codes "history", array (items_of (map entry_to_json c.history)))
        ∷ []))

  -- the loop over the history
  unfoldable pub history_from : Items D → Result (List HistoryEntry)
  unfolding entry_from_json
  history_from nil = ok []
  history_from (item j js) = do h ← entry_from_json j; hs ← history_from js; ok (h ∷ hs)

  unfoldable pub from_json : Json D → Result Contact
  unfolding get_object get_string get_array at history_from
  from_json j = do
    o ← get_object j
    id ← string_at o (codes "id")
    name ← string_at o (codes "name")
    email ← string_at o (codes "email")
    phone ← string_at o (codes "phone")
    note ← string_at o (codes "note")
    created_at ← string_at o (codes "created_at")
    rows ← at o (codes "history")
    entries ← get_array rows
    history ← history_from entries
    ok (record {
      id = id;
      name = name;
      email = email;
      phone = phone;
      note = note;
      created_at = created_at;
      history = history;
    })
