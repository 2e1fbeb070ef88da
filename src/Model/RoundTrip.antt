-- ===== src/Model/RoundTrip.antt =====
-- src/model.cpp: a contact read from its JSON form is the contact.
use acx_contact_cli.Prelude.{◌≡◌, refl, List, [], ◌∷◌, map}
use acx_contact_cli.Json.Parser.{ok}
use acx_contact_cli.Model.{
  HistoryEntry, Contact, items_of, entry_to_json, entry_from_json, to_json, history_from, from_json,
}

module _ (D : Type 0) where
  entry_from_json-to_json : (h : HistoryEntry) → entry_from_json (entry_to_json {D = D} h) ≡ ok h
  unfolding entry_from_json entry_to_json
  entry_from_json-to_json h = refl

  history_from-to_json :
      (hs : List HistoryEntry) → history_from (items_of (map (entry_to_json {D = D}) hs)) ≡ ok hs
  unfolding history_from items_of
  history_from-to_json [] = refl
  history_from-to_json (h ∷ hs) = rw (entry_from_json-to_json h, history_from-to_json hs)

  -- A contact read from its JSON form is the contact, its whole history included.
  pub from_json-to_json : (c : Contact) → from_json (to_json {D = D} c) ≡ ok c
  unfolding from_json to_json
  from_json-to_json c = rw (history_from-to_json c.history)
