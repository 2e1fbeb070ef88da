-- ===== src/Tests/Setting.antt =====
-- The concrete surroundings of the tests: a machine whose writes succeed, a build without the phone
-- library and zstd, a dry run, and numbers that are natural numbers in decimal.
use acx_contact_cli.Prelude.{
  ℕ, ◌+◌, ◌-◌, ◌*◌, ◌≢◌, true, Option, none, some, [], ◌∷◌, Bytes, codes, same, if◌then◌else◌, map,
  get_elem?,
}
use acx_contact_cli.Validation.{Environment, without_library}
use acx_contact_cli.Validation.Phone.{normalize_phone_idem}
use acx_contact_cli.Table.{find}
use acx_contact_cli.Model.{Contact, ContactBook}
use acx_contact_cli.World.{Platform, World, written}
use acx_contact_cli.Index.{decimal}
use acx_contact_cli.Storage.Persist.{Storage}
use acx_contact_cli.Storage.Contacts.{add_contact}
use acx_contact_cli.Storage.Invariant.{IsWellIndexed, IsStable, id_of}
use acx_contact_cli.Storage.Handlers.{drawn_id, add_contact-IsWellIndexed}

abbrev value_of : ℕ → Bytes → Option ℕ
value_of n [] = some n
value_of n (c ∷ s) = value_of (n * 10 + (c - b'0')) s

-- reading a decimal number
abbrev pub read_decimal : Bytes → Option ℕ
read_decimal s = value_of 0 s

abbrev pub demo : Platform
demo = record {
  phone_library = without_library;
  clock = λ n. codes "2024-01-01T00:00:00Z";
  random = λ n. 0x0123_4567_89AB_CDEF + n;
  stoull = read_decimal;
  writing = λ p. written;
  renames = λ p q. true;
  sort_by_key = λ es. es;
  zstd = λ s. none;
  stamp_byte = 0;
  process_id = codes "77";
  seconds = λ n. codes "1700000000";
}

abbrev pub dry : Environment
dry k = if same k (codes "ACX_DRY_RUN") then some [] else none

abbrev pub day : World
day = record { getenv = dry; files = λ p. none; ticks = 0; draws = 0 }

abbrev pub store : Storage
store = record {
  data_file = codes "acx-data.json";
  backup_dir = codes "backups";
  audit_log = codes "acx-audit.log";
}

abbrev pub no_book : ContactBook
no_book = record { contacts = []; email_to_i = []; phone_to_i = [] }

abbrev pub ann : Contact
ann = record {
  id = codes "1-a";
  name = codes "Ann Lee";
  email = codes "ann@ex.com";
  phone = codes "+15551234567";
  note = codes "likes \"tea\"";
  created_at = codes "2024-01-01T00:00:00Z";
  history =
      record {
        timestamp = codes "2024-01-01T00:00:00Z";
        user = codes "me";
        action = codes "created";
      }
      ∷ [];
}

abbrev pub bob : Contact
bob = record ann {
  id = codes "2-b";
  name = codes "Bob Ray";
  email = codes "bob@ex.com";
  phone = codes "+15557654321";
}

pub stable : IsStable demo dry
stable phone = normalize_phone_idem dry phone

pub no_book-IsWellIndexed : IsWellIndexed demo dry no_book
unfolding find
no_book-IsWellIndexed = (
  λ k i. (λ e. absurd (cc e), λ e. absurd (cc e)),
  λ k i. (λ e. absurd (cc e), λ e. absurd (cc e)),
  λ k i j p q. absurd (cc p),
  λ i e. absurd (cc e),
)

pub no_book-fresh : (i : ℕ) → get_elem? (map id_of no_book.contacts) i ≢ some (drawn_id demo day)
no_book-fresh i e = absurd (cc e)

-- the book after the first contact
abbrev pub one_book : ContactBook
one_book =
    (add_contact decimal demo store no_book (codes "Ann Lee") (codes "Ann@ex.com")
      (codes "555 123 4567") [] (codes "me") [] day).2

pub one_book-IsWellIndexed : IsWellIndexed demo dry one_book
one_book-IsWellIndexed =
    add_contact-IsWellIndexed decimal demo store no_book (codes "Ann Lee") (codes "Ann@ex.com")
      (codes "555 123 4567") [] (codes "me") [] day stable no_book-fresh no_book-IsWellIndexed
