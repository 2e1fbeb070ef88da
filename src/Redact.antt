-- ===== src/Redact.antt =====
-- src/policy.cpp and src/redact.cpp: what of a contact is masked before it is shown.
pub mod Masks
use acx_contact_cli.Prelude.{
  ℕ, ◌+◌, ◌-◌, Bool, true, false, ◌&&◌, ◌||◌, Option, none, some, List, [], ◌∷◌, ◌++◌, map, Bytes,
  codes, isalpha, isdigit, ltb, leb, ◌==◌, if◌then◌else◌, length, keep,
}
use acx_contact_cli.Json.Value.{Json, bool, object, Members, lookup}
use acx_contact_cli.Json.Parser.{Result, ok, err, parse}
use acx_contact_cli.Model.{Contact, ContactBook}
use acx_contact_cli.World.{World, read_file}

pub record Policy : Type 0 where
  pub redact_name : Bool
  pub redact_email : Bool
  pub redact_phone : Bool

-- the loop of `mask_name`, with its flag
unfoldable pub name_mask : Bool → Bytes → Bytes
name_mask first [] = []
name_mask first (c ∷ s) =
    let rest = name_mask false s in
    let same = name_mask first s in
    if isalpha c then (if first then c ∷ rest else b'*' ∷ rest) else c ∷ same

unfoldable pub mask_name : Bytes → Bytes
unfolding name_mask
mask_name s = name_mask true s

-- the loop of `mask_email` and the rest from the at sign on; `none` where there is no at sign
unfoldable pub mask_user : Bytes → Option Bytes
mask_user [] = none
mask_user (c ∷ s) =
    let rest = mask_user s in
    if c == b'@' then some (c ∷ s) else elim rest [ none ↦ none | some t ↦ some (b'*' ∷ t) ]

unfoldable pub mask_email : Bytes → Bytes
unfolding mask_user
mask_email [] = []
mask_email (c ∷ s) =
    if c == b'@' then c ∷ s else elim (mask_user s) [ none ↦ c ∷ s | some t ↦ c ∷ t ]

-- the loop of `mask_phone`, with `to_mask`
unfoldable pub digit_mask : ℕ → Bytes → Bytes
digit_mask to_mask [] = []
digit_mask to_mask (c ∷ s) =
    let less = digit_mask (to_mask - 1) s in
    let same = digit_mask to_mask s in
    if isdigit c then (if ltb 0 to_mask then b'x' ∷ less else c ∷ same) else c ∷ same

unfoldable pub is_phone_byte : ℕ → Bool
is_phone_byte c = isdigit c || c == b'+'

unfoldable pub mask_phone : Bytes → Bytes
unfolding digit_mask is_phone_byte
mask_phone s =
    let d = keep is_phone_byte s in
    let digits = length (keep isdigit d) in if leb digits 4 then d else digit_mask (digits - 4) d

unfoldable pub redact_contact : Policy → Contact → Contact
unfolding mask_name mask_email mask_phone
redact_contact p c = record c {
  name = (if p.redact_name then mask_name c.name else c.name);
  email = (if p.redact_email then mask_email c.email else c.email);
  phone = (if p.redact_phone then mask_phone c.phone else c.phone);
}

unfoldable pub redact_book : Policy → ContactBook → ContactBook
unfolding redact_contact
redact_book p book = record book { contacts = map (redact_contact p) book.contacts }
