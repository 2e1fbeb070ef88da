-- ===== src/Storage/Import.antt =====
-- The JSON Lines branch of `import_data` and `fast_search_one`, in src/storage.cpp.
use acx_contact_cli.Prelude.{
  ℕ, ◌≡◌, refl, sym, ap, ◌∙◌, Bool, true, false, not, ◌&&◌, ◌||◌, Option, none, some, List, [], ◌∷◌,
  ◌++◌, append-nil, append_assoc, Bytes, codes, ltb, ◌==◌, if◌then◌else◌, length, drop, is_empty,
  Bool-cases, inl, inr,
}
use acx_contact_cli.Validation.{Environment, to_lower_ascii}
use acx_contact_cli.Json.Parser.{Result, ok, err, ◌>>=◌, parse}
use acx_contact_cli.Json.Lines.{parse_jsonl}
use acx_contact_cli.Model.{Contact, ContactBook, from_json}
use acx_contact_cli.Sha256.{sha256_hex}
use acx_contact_cli.World.{Platform, World, read_file, file_exists_nonempty}
use acx_contact_cli.DiskIndex.{valid_for_data_hash, lookup_email, lookup_phone}
use acx_contact_cli.Storage.Persist.{Storage, save, env_on, contacts_from}
use acx_contact_cli.Storage.Contacts.{email_exists, phone_exists, phone_key, push_contact}

module _ (platform : Platform) (getenv : Environment) where
  -- a row: a duplicate is passed over
  unfoldable pub import_row : Contact → ContactBook → ContactBook
  import_row c book =
      if email_exists book c.email [] || phone_exists platform getenv book c.phone []
      then book
      else push_contact platform getenv c book

  unfoldable pub import_rows : List Contact → ContactBook → ContactBook
  import_rows [] book = book
  import_rows (c ∷ cs) book = import_rows cs (import_row c book)

module _ {D : Type 0} (print : D → Bytes) (stod : Bytes → Option D) (platform : Platform) where
  -- saving at the end, which a dry run leaves out
  abbrev pub save_imported : Storage → ContactBook → World → Bool × World
  save_imported st book w = elim (w.getenv (codes "ACX_DRY_RUN")) [
    | some _ ↦ (true, w)
    | none ↦ save print platform st book w
  ]

  -- The branch of `import_data`; an exception of the parser leaves it. The rows are converted first
  -- here; the sources convert each when it comes to it, and an exception loses the book either way.
  unfoldable pub import_jsonl :
      Storage → ContactBook → Bytes → World → Result (ContactBook × Bool × World)
  import_jsonl st book in_file w = do
    cs ← parse_jsonl stod (read_file in_file w) >>= contacts_from
    let book' = import_rows platform w.getenv cs book in
        (let (saved, w') = save_imported st book' w in ok (book', saved, w'))

  -- the bytes in front of the first newline
  unfoldable pub first_line : Bytes → Bytes
  first_line [] = []
  first_line (c ∷ s) = let rest = first_line s in if c == b'\n' then [] else c ∷ rest

  -- the offset of a key in the disk index, the email's before the phone's
  abbrev pub offset_of : Bytes → Bytes → World → Option ℕ
  offset_of email phone w =
      if not (is_empty email)
      then lookup_email (to_lower_ascii email) w
      else if not (is_empty phone)
      then lookup_phone (phone_key platform w.getenv phone) w
      else none

  -- the contact on the line at an offset
  abbrev pub contact_on : Bytes → ℕ → Option Contact
  contact_on text off =
      if ltb off (length text)
      then elim (parse stod (first_line (drop off text)) >>= from_json) [
        | ok c ↦ some c
        | err e ↦ none
      ]
      else none

  -- `none` where the search falls back to the whole book
  unfoldable pub fast_search_one : Storage → Bytes → Bytes → World → Option Contact
  unfolding first_line
  fast_search_one st email phone w =
      let text = read_file st.data_file w in
      if env_on (w.getenv (codes "ACX_FAST_SEARCH"))
        && (file_exists_nonempty st.data_file w && valid_for_data_hash (sha256_hex text) w)
      then elim (offset_of email phone w) [ none ↦ none | some off ↦ contact_on text off ]
      else none

-- what a row is, by the test
import_row_cases :
    (platform : Platform) (getenv : Environment) (c : Contact) (book : ContactBook) (t : Bool)
    → (email_exists book c.email [] || phone_exists platform getenv book c.phone []) ≡ t
    → import_row platform getenv c book ≡ (if t then book else push_contact platform getenv c book)
unfolding import_row
import_row_cases platform getenv c book t e = rw e refl

-- Importing contacts leaves those of the book where they are and adds others, if any, behind them.
pub import_rows-append :
    (platform : Platform) (getenv : Environment) (cs : List Contact) (book : ContactBook)
    → (added : List Contact) × ((import_rows platform getenv cs book).contacts
        ≡ book.contacts ++ added)
unfolding import_rows push_contact
import_rows-append platform getenv [] book = ([], sym (append-nil book.contacts))
import_rows-append platform getenv (c ∷ cs) book =
    let after = λ (b : ContactBook). (import_rows platform getenv cs b).contacts in
    elim (Bool-cases
      (email_exists book c.email [] || phone_exists platform getenv book c.phone [])) [
        | inl d ↦
            (let (added, e) = import_rows-append platform getenv cs book in
              (added, ap after (import_row_cases platform getenv c book true d) ∙ e))
        | inr d ↦
            (let (added, e) =
                import_rows-append platform getenv cs (push_contact platform getenv c book) in
              (
                c ∷ added,
                ap after (import_row_cases platform getenv c book false d)
                    ∙ (e ∙ append_assoc book.contacts (c ∷ []) added),
              ))
      ]
