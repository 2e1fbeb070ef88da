-- ===== src/World.antt =====
-- What the program shares with its surroundings, and the file operations of src/utils.cpp.
-- `Platform` is what no source of the repository defines: the operating system's answers, the
-- clock, the random numbers and the libraries. `World` is the state: environment, files, and how
-- often the clock and the random numbers have been read.
pub mod Ident
pub mod Atomic
use acx_contact_cli.Prelude.{
  ℕ, ◌+◌, Bool, true, false, not, Option, none, some, List, [], ◌∷◌, ◌++◌, Bytes, codes, same,
  if◌then◌else◌, take, is_empty,
}
use acx_contact_cli.Validation.{Environment, PhoneLibrary}

-- how a std::ofstream fares that is opened on a path and written to once: `truncated` is a write that
-- fails at once, `lost` one whose bytes fail to reach the file when the stream is closed, which the
-- sources test for no longer
pub data Writing : Type 0 where
  refused : Writing
  truncated : ℕ → Writing
  lost : ℕ → Writing
  written : Writing

pub record Platform : Type 0 where
  pub phone_library : PhoneLibrary
  -- the text of the n-th reading of the clock, in the format of `now_iso8601_utc`
  pub clock : ℕ → Bytes
  -- the n-th 64-bit random number
  pub random : ℕ → ℕ
  -- std::stoull, `none` where it throws
  pub stoull : Bytes → Option ℕ
  -- the outcome of writing to a path, and whether a path can be renamed to another
  pub writing : Bytes → Writing
  pub renames : Bytes → Bytes → Bool
  -- std::sort of entries by key
  pub sort_by_key : List (Bytes × ℕ) → List (Bytes × ℕ)
  -- zstd's compression, `none` in a build without it or where it fails
  pub zstd : Bytes → Option Bytes
  -- the byte of the empty character literal in `Storage::backup_last`
  pub stamp_byte : ℕ
  -- getpid, and std::time at the n-th reading of the clock, both printed
  pub process_id : Bytes
  pub seconds : ℕ → Bytes

abbrev pub Files : Type 0
Files = Bytes → Option Bytes

pub record World : Type 0 where
  pub getenv : Environment
  pub files : Files
  pub ticks : ℕ
  pub draws : ℕ

abbrev pub update : Files → Bytes → Option Bytes → Files
update files p content q = if same p q then content else files q

abbrev pub set_file : Bytes → Option Bytes → World → World
set_file p content w = record w { files = update w.files p content }

-- `read_file`: nothing where there is no file
unfoldable pub read_file : Bytes → World → Bytes
read_file p w = elim (w.files p) [ some content ↦ content | none ↦ [] ]

unfoldable pub file_exists_nonempty : Bytes → World → Bool
unfolding read_file
file_exists_nonempty p w = not (is_empty (read_file p w))

module _ (platform : Platform) where
  -- opening a path for writing and writing to it once; the test is made before the stream is closed
  unfoldable pub write_stream : Bytes → Bytes → World → Bool × World
  write_stream p content w = elim (platform.writing p) [
    | refused ↦ (false, w)
    | truncated n ↦ (false, set_file p (some (take n content)) w)
    | lost n ↦ (true, set_file p (some (take n content)) w)
    | written ↦ (true, set_file p (some content) w)
  ]

  -- appending a text to a file
  unfoldable pub append_stream : Bytes → Bytes → World → Bool × World
  unfolding write_stream read_file
  append_stream p text w = write_stream p (read_file p w ++ text) w

  -- `copy_file_to`; the destination is opened, and emptied, also where there is no source
  unfoldable pub copy_file_to : Bytes → Bytes → World → Bool × World
  unfolding write_stream
  copy_file_to src dst w = elim (w.files src) [
    | some content ↦ write_stream dst content w
    | none ↦ (false, (write_stream dst [] w).1)
  ]

  abbrev pub temporary : Bytes → Bytes
  temporary p = p ++ codes ".tmp"

  -- the part behind the first stream
  unfoldable pub install : Bytes → Bytes → World → Bool × World
  unfolding copy_file_to
  install p tmp w =
      if platform.renames tmp p
      then (true, set_file p (w.files tmp) (set_file tmp none w))
      else (let (copied, w') = copy_file_to tmp p w in
          if copied then (true, set_file tmp none w') else (false, w'))

  unfoldable pub write_file_atomic : Bytes → Bytes → World → Bool × World
  unfolding write_stream install
  write_file_atomic p content w =
      let (sent, w') = write_stream (temporary p) content w in
      if sent then install p (temporary p) w' else (false, w')

  -- `now_iso8601_utc`
  unfoldable pub now_iso8601_utc : World → Bytes × World
  now_iso8601_utc w = (platform.clock w.ticks, record w { ticks = w.ticks + 1 })
