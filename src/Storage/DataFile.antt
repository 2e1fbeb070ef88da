-- ===== src/Storage/DataFile.antt =====
-- What the data file of src/storage.cpp says: the text of `save` is read back by `load`'s parser as
-- the same contacts, and the offsets kept in the disk index are those of their lines.
use acx_contact_cli.Prelude.{
  ℕ, zero, suc, ◌+◌, ◌≡◌, refl, sym, ap, ◌∙◌, true, Option, some, List, [], ◌∷◌, ◌++◌, map, arith,
  Bytes, length, get_elem?, drop, all, before, append_assoc, length-append, codes,
}
use acx_contact_cli.Json.Value.{assign}
use acx_contact_cli.Json.Text.{dump_jsonl}
use acx_contact_cli.Json.Parser.{ok, ◌>>=◌}
use acx_contact_cli.Json.Strings.{survives}
use acx_contact_cli.Json.Render.{
  IsClean, string_clean, array_clean, object_clean, AreClean, nil_clean, item_clean, end_clean,
  member_clean,
}
use acx_contact_cli.Json.Lines.{parse_jsonl, AllClean, parse_jsonl-dump_jsonl}
use acx_contact_cli.Model.{HistoryEntry, Contact, to_json, items_of, entry_to_json, map_of}
use acx_contact_cli.Model.RoundTrip.{from_json-to_json}
use acx_contact_cli.World.{Platform}
use acx_contact_cli.DiskIndex.{Entry}
use acx_contact_cli.Storage.Persist.{data_text, line_of, offsets_of, contacts_from}

-- entries and contacts whose fields hold no control byte that JSON text loses
abbrev pub AllPlain : List HistoryEntry → Type 0
AllPlain [] = Unit
AllPlain (h ∷ hs) =
    (all survives h.timestamp ≡ true)
    × (all survives h.user ≡ true)
    × (all survives h.action ≡ true)
    × AllPlain hs

abbrev pub IsPlain : Contact → Type 0
IsPlain c =
    (all survives c.id ≡ true)
    × (all survives c.name ≡ true)
    × (all survives c.email ≡ true)
    × (all survives c.phone ≡ true)
    × (all survives c.note ≡ true)
    × (all survives c.created_at ≡ true)
    × AllPlain c.history

abbrev pub ArePlain : List Contact → Type 0
ArePlain [] = Unit
ArePlain (c ∷ cs) = IsPlain c × ArePlain cs

module _ {D : Type 0} (print : D → Bytes) (stod : Bytes → Option D) where
  entries_clean :
      (hs : List HistoryEntry) → AllPlain hs → AreClean print stod (items_of (map entry_to_json hs))
  unfolding items_of entry_to_json map_of before assign
  entries_clean [] p = nil_clean
  entries_clean (h ∷ hs) (t, u, a, p) =
      item_clean _ _
        (object_clean _ (
          member_clean (codes "action") _ _ refl (string_clean _ a) (refl, (refl, tt))
            (member_clean (codes "timestamp") _ _ refl (string_clean _ t) (refl, tt)
              (member_clean (codes "user") _ _ refl (string_clean _ u) tt end_clean))))
        (entries_clean hs p)

  pub contact-IsClean : (c : Contact) → IsPlain c → IsClean print stod (to_json c)
  unfolding to_json map_of before assign
  contact-IsClean c (i, n, e, p, o, t, h) = object_clean _ (
      member_clean (codes "created_at") _ _ refl (string_clean _ t)
        (refl, (refl, (refl, (refl, (refl, (refl, tt))))))
        (member_clean (codes "email") _ _ refl (string_clean _ e)
          (refl, (refl, (refl, (refl, (refl, tt)))))
          (member_clean (codes "history") _ _ refl (array_clean _ (entries_clean c.history h))
            (refl, (refl, (refl, (refl, tt))))
            (member_clean (codes "id") _ _ refl (string_clean _ i) (refl, (refl, (refl, tt)))
              (member_clean (codes "name") _ _ refl (string_clean _ n) (refl, (refl, tt))
                (member_clean (codes "note") _ _ refl (string_clean _ o) (refl, tt)
                  (member_clean (codes "phone") _ _ refl (string_clean _ p) tt end_clean)))))))

  contacts_clean : (cs : List Contact) → ArePlain cs → AllClean print stod (map to_json cs)
  contacts_clean [] p = tt
  contacts_clean (c ∷ cs) (p, q) = (contact-IsClean c p, contacts_clean cs q)

  contacts_from-to_json : (cs : List Contact) → contacts_from {D = D} (map to_json cs) ≡ ok cs
  unfolding contacts_from
  contacts_from-to_json [] = refl
  contacts_from-to_json (c ∷ cs) = rw (from_json-to_json D c, contacts_from-to_json cs) refl

  data_text-dump_jsonl :
      (platform : Platform) (cs : List Contact)
      → data_text print platform cs ≡ dump_jsonl print (map to_json cs)
  unfolding data_text dump_jsonl
  data_text-dump_jsonl platform [] = refl
  data_text-dump_jsonl platform (c ∷ cs) =
      ap (λ r. line_of print platform c ++ (b'\n' ∷ r)) (data_text-dump_jsonl platform cs)

  -- Parsing the text that `save` writes gives the contacts back, in order and with their histories,
  -- where no field of theirs holds a control byte that JSON text loses.
  pub contacts_from-data_text :
      (platform : Platform) (cs : List Contact)
      → ArePlain cs
      → (parse_jsonl stod (data_text print platform cs) >>= contacts_from) ≡ ok cs
  contacts_from-data_text platform cs p =
      ap (λ t. parse_jsonl stod t >>= contacts_from) (data_text-dump_jsonl platform cs)
      ∙ ap (λ r. r >>= contacts_from)
          (parse_jsonl-dump_jsonl print stod (map to_json cs) (contacts_clean cs p))
      ∙ contacts_from-to_json cs

drop-length : (a b : Bytes) → drop (length a) (a ++ b) ≡ b
drop-length [] b = refl
drop-length (x ∷ a) b = drop-length a b

module _ {D : Type 0} (print : D → Bytes) (platform : Platform) (key : Contact → Bytes) where
  -- The entry at a position belongs to the contact there, and its offset is where the contact's line begins.
  abbrev pub Located : Bytes → List Contact → ℕ → Entry → Type 0
  Located text cs i e =
      (c : Contact) × (rest : Bytes) × (get_elem? cs i ≡ some c)
      × (e.0 ≡ key c)
      × (drop e.1 text ≡ line_of print platform c ++ (b'\n' ∷ rest))

  located :
      (front : Bytes) (cs : List Contact) (i : ℕ) (e : Entry)
      → get_elem? (offsets_of print platform key (length front) cs) i ≡ some e
      → Located (front ++ data_text print platform cs) cs i e
  unfolding offsets_of data_text
  located front [] i e h = absurd (cc h)
  located front (c ∷ cs) zero e h =
      let same_entry : (key c, length front) ≡ e = cc h in
      (
        c,
        data_text print platform cs,
        refl,
        sym (ap (λ x. x.0) same_entry),
        ap (λ n. drop n (front ++ data_text print platform (c ∷ cs)))
              (sym (ap (λ x. x.1) same_entry))
            ∙ drop-length front _,
      )
  located front (c ∷ cs) (suc i) e h =
      let line = line_of print platform c in
      let longer = length-append front (line ++ b'\n' ∷ []) in
      let ended = length-append line (b'\n' ∷ []) in
      let size : length front + length line + 1 ≡ length (front ++ (line ++ b'\n' ∷ [])) =
        omega arith in
      let text : (front ++ (line ++ b'\n' ∷ [])) ++ data_text print platform cs
          ≡ front ++ (line ++ (b'\n' ∷ data_text print platform cs)) =
        append_assoc front (line ++ b'\n' ∷ []) (data_text print platform cs)
        ∙ ap (λ r. front ++ r) (append_assoc line (b'\n' ∷ []) (data_text print platform cs)) in
      let (d, rest, at_i, key_i, q) =
        located (front ++ (line ++ b'\n' ∷ [])) cs i e
          (ap (λ n. get_elem? (offsets_of print platform key n cs) i) (sym size) ∙ h) in
      (d, rest, at_i, key_i, ap (drop e.1) (sym text) ∙ q)

  -- The entries that `save` puts into the disk index: the one at a position has the key of the
  -- contact at that position, and its offset is where the contact's line begins in the data file.
  pub offsets_of-Located :
      (cs : List Contact) (i : ℕ) (e : Entry)
      → get_elem? (offsets_of print platform key 0 cs) i ≡ some e
      → Located (data_text print platform cs) cs i e
  offsets_of-Located cs i e h = located [] cs i e h
