-- ===== src/Storage/Parallel.antt =====
-- `import_data_parallel` of src/storage.cpp, with `env_int` and `env_size` of src/utils.cpp, on the
-- threads of Pool. What a worker does between two locks is one step: reading and judging a line, the
-- test for a duplicate under `dedup_mu`, and the append under `out_mu`. The clock and the random
-- numbers are read within the first of them.
pub mod Unique
pub mod Ends
use acx_contact_cli.Prelude.{
  ℕ, zero, suc, ◌+◌, Bool, true, false, not, ◌&&◌, ◌||◌, Option, none, some, List, [], ◌∷◌, ◌++◌,
  map, Bytes, codes, same, length, ltb, ◌==◌, take, drop, if◌then◌else◌,
}
use acx_contact_cli.Validation.{
  Environment, to_lower_ascii, is_valid_name, is_valid_email, is_valid_phone,
}
use acx_contact_cli.Table.{holds}
use acx_contact_cli.Utils.{lines}
use acx_contact_cli.Json.Parser.{Result, ok, err, ◌>>=◌, parse}
use acx_contact_cli.Model.{Contact, ContactBook, from_json}
use acx_contact_cli.World.{Platform, World}
use acx_contact_cli.Merge.{fill, parse_csv_line_basic}
use acx_contact_cli.Pool.{System}
use acx_contact_cli.Pool.Drained.{launched}
use acx_contact_cli.Storage.Contacts.{phone_key}
use acx_contact_cli.Storage.Persist.{Storage, save}
use acx_contact_cli.Storage.Import.{save_imported}

pub record LineTask : Type 0 where
  pub seq : ℕ
  pub line : Bytes

-- what the threads share, but for the queue
pub record Gathered : Type 0 where
  pub seen_email : List Bytes
  pub seen_phone : List Bytes
  pub outv : List (ℕ × Contact)
  pub world : World

-- where a worker stands with a task: at the size test, at the first lock, at the second
pub data Stage : Type 0 where
  taken : LineTask → Stage
  judged : ℕ → Contact → Stage
  unique : ℕ → Contact → Stage

-- `env_int` with std::stoi, `none` where it throws; a negative number, which the caller raises to 1, is 0
unfoldable pub env_int : (Bytes → Option ℕ) → Bytes → ℕ → World → ℕ
env_int stoi name default w = elim (w.getenv name) [
  | none ↦ default
  | some v ↦ elim (stoi v) [ some n ↦ n | none ↦ default ]
]

unfoldable pub env_size : Platform → Bytes → ℕ → World → ℕ
env_size platform name default w = elim (w.getenv name) [
  | none ↦ default
  | some v ↦ elim (platform.stoull v) [ some n ↦ n | none ↦ default ]
]

-- `std::max(1, …)`
unfoldable pub workers : (Bytes → Option ℕ) → ℕ → World → ℕ
unfolding env_int
workers stoi hardware_concurrency w =
    let n = env_int stoi (codes "ACX_IMPORT_WORKERS") hardware_concurrency w in
    if n == 0 then 1 else n

-- the lines that the producer pushes, from a number on
unfoldable pub tasks : ℕ → List Bytes → List LineTask
tasks seq [] = []
tasks seq (line ∷ rest) = record { seq = seq; line = line } ∷ tasks (seq + 1) rest

-- the lines behind the header of a CSV file, and as many as ACX_IMPORT_MAX allows
unfoldable pub line_tasks : Bytes → ℕ → Bytes → List LineTask
unfolding tasks lines same
line_tasks fmt max_lines content =
    let rows = if same fmt (codes "csv") then drop 1 (lines content) else lines content in
    tasks 0 (if max_lines == 0 then rows else take max_lines rows)

module _ (platform : Platform) (getenv : Environment) where
  abbrev pub email_key : Contact → Bytes
  email_key c = to_lower_ascii c.email

  abbrev pub number_key : Contact → Bytes
  number_key c = phone_key platform getenv c.phone

  -- the validations of a worker
  unfoldable pub is_valid_contact : Contact → Bool
  unfolding is_valid_name is_valid_email is_valid_phone
  is_valid_contact c =
      is_valid_name c.name
      && (is_valid_email c.email && is_valid_phone platform.phone_library getenv c.phone)

  -- `initialize dedup sets from existing book`
  abbrev pub initial : ContactBook → World → Gathered
  initial book w = record {
    seen_email = map email_key book.contacts;
    seen_phone = map number_key book.contacts;
    outv = [];
    world = w;
  }

  -- the section of `dedup_mu`
  unfoldable pub dedup : ℕ → Contact → Gathered → Gathered × Option Stage
  unfolding holds
  dedup seq c a =
      if holds (email_key c) a.seen_email || holds (number_key c) a.seen_phone then (a, none) else (
        record a {
          seen_email = email_key c ∷ a.seen_email;
          seen_phone = number_key c ∷ a.seen_phone;
        },
        some (unique seq c),
      )

  -- behind the reading of a line, which may have thrown
  abbrev pub judge : ℕ → Gathered → Option (Contact × World) → Gathered × Option Stage
  judge seq a none = (a, none)
  judge seq a (some (c, w)) =
      (record a { world = w }, if is_valid_contact c then some (judged seq c) else none)

  module _ {D : Type 0} (stod : Bytes → Option D) (fmt : Bytes) (max_record : ℕ) where
    unfoldable pub read_line : Bytes → World → Option (Contact × World)
    unfolding fill parse_csv_line_basic same
    read_line line w =
        if same fmt (codes "jsonl")
        then elim (parse stod line >>= from_json) [ ok c ↦ some (fill platform c w) | err e ↦ none ]
        else parse_csv_line_basic platform line w

    -- a step of the body of `worker`
    unfoldable pub work : Gathered → Stage → Gathered × Option Stage
    unfolding read_line is_valid_contact dedup
    work a (taken t) =
        if ltb max_record (length t.line)
        then (a, none)
        else judge t.seq a (read_line t.line a.world)
    work a (judged seq c) = dedup seq c a
    work a (unique seq c) = (record a { outv = a.outv ++ (seq, c) ∷ [] }, none)

-- the threads before their first step, `none` where the input cannot be opened
unfoldable pub import_threads :
    Platform → ℕ → ContactBook → Bytes → Bytes → World → Option (System Gathered LineTask Stage)
unfolding env_size line_tasks
import_threads platform count book fmt in_file w = elim (w.files in_file) [
  | none ↦ none
  | some content ↦ some (
      launched count (initial platform w.getenv book w)
        (line_tasks fmt (env_size platform (codes "ACX_IMPORT_MAX") 0 w) content))
]

-- the book once the threads have been joined; `sort` is std::sort by the numbers of the lines
unfoldable pub gathered_book :
    (List (ℕ × Contact) → List (ℕ × Contact)) → ContactBook → Gathered → ContactBook
gathered_book sort book a = record book {
  contacts = book.contacts ++ map (λ (kv : ℕ × Contact). kv.1) (sort a.outv);
}

-- `import_data_parallel` from there on
abbrev pub finish_import :
    {D : Type 0}
    → (D → Bytes)
    → (Bytes → Option D)
    → Platform
    → (List (ℕ × Contact) → List (ℕ × Contact))
    → Storage
    → ContactBook
    → Gathered
    → ContactBook × Bool × World
finish_import print stod platform sort st book a =
    let book' = gathered_book sort book a in
    let (saved, w') = save_imported print stod platform st book' a.world in (book', saved, w')
