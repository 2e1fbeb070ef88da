-- ===== src/Cli.antt =====
-- src/cli.cpp: what its line tools share. A path argument that is a null pointer or an empty text is
-- an empty text here. Messages on the error stream are left out; what a tool prints on standard
-- output is part of its outcome. The accessors of JSON values that jsonl.hpp does not declare
-- (`is_object`, `as_object`, `is_string`, `as_string`) are read as tests and `std::get` on the variant.
pub mod Seen
pub mod Distinct
pub mod Counts
pub mod Rewrite
pub mod Emailed
pub mod Threads
pub mod Trimmed
pub mod Normal
pub mod Sampled
pub mod Emails
pub mod Atomic
pub mod Args
pub mod Digest
use acx_contact_cli.Prelude.{
  ◌+◌, Bool, true, false, not, Option, none, some, List, [], ◌∷◌, ◌++◌, map, Bytes, codes, isdigit,
  isspace, tolower, is_empty, keep, if◌then◌else◌,
}
use acx_contact_cli.Json.Value.{Json, null, bool, number, string, array, object, Members, lookup}
use acx_contact_cli.Json.Parser.{Result, ok, err, parse}
use acx_contact_cli.World.{
  Platform, World, Writing, refused, truncated, lost, written, Files, set_file, update,
  write_stream, read_file,
}

-- `enum ExitCode`
pub data ExitCode : Type 0 where
  ex_ok ex_fail ex_usage ex_io ex_validation : ExitCode

pub record Outcome : Type 0 where
  pub code : ExitCode
  pub printed : Bytes
  pub world : World

-- `(target_path && *target_path) ? target_path : …`, with the path of ACX_DATA_FILE or a fixed one
unfoldable pub input_path : Bytes → World → Bytes
input_path [] w = elim (w.getenv (codes "ACX_DATA_FILE")) [
  | some p ↦ p
  | none ↦ codes "acx-data.jsonl"
]
input_path (c ∷ cs) w = c ∷ cs

-- `(out_path && *out_path) ? out_path : …`
unfoldable pub output_path : Bytes → Bytes → Bytes
output_path [] otherwise = otherwise
output_path (c ∷ cs) otherwise = c ∷ cs

-- `if (line.empty()) continue;` over all lines
abbrev pub filled : List Bytes → List Bytes
filled = keep (λ line. not (is_empty line))

-- `acc += line; acc += "\n"` for each line
unfoldable pub text_of : List Bytes → Bytes
text_of [] = []
text_of (line ∷ rest) = line ++ (b'\n' ∷ text_of rest)

module _ {D : Type 0} where
  abbrev pub as_text : Option (Json D) → Option Bytes
  as_text none = none
  as_text (some null) = none
  as_text (some (bool b)) = none
  as_text (some (number d)) = none
  as_text (some (string s)) = some s
  as_text (some (array a)) = none
  as_text (some (object m)) = none

  -- `json_get_string`, with the text it assigns to `out`
  unfoldable pub json_get_string : Json D → Bytes → Option Bytes
  unfolding lookup
  json_get_string (object m) key = as_text (lookup key m)
  json_get_string null key = none
  json_get_string (bool b) key = none
  json_get_string (number d) key = none
  json_get_string (string s) key = none
  json_get_string (array a) key = none

-- the mode of a std::ofstream: opening empties the file
unfoldable pub open_output : Platform → Bytes → World → Bool × World
open_output platform p w = elim (platform.writing p) [
  | refused ↦ (false, w)
  | truncated n ↦ (true, set_file p (some []) w)
  | lost n ↦ (true, set_file p (some []) w)
  | written ↦ (true, set_file p (some []) w)
]

-- the temporary file of `atomic_write_all`
unfoldable pub temporary_name : Platform → Bytes → World → Bytes
temporary_name platform p w =
    p ++ (codes ".tmp." ++ (platform.process_id ++ (b'.' ∷ platform.seconds w.ticks)))

-- what a std::ofstream leaves in a file whose state nobody asks for
unfoldable pub pour : Platform → Bytes → Bytes → World → Bool × World
unfolding open_output write_stream
pour platform p content w =
    let (opened, w') = open_output platform p w in
    if opened then (true, (write_stream platform p content w').1) else (false, w')

-- `atomic_write_all` behind the choice of the temporary file
unfoldable pub write_over : Platform → Bytes → Bytes → Bytes → World → Bool × World
unfolding pour
write_over platform tmp p content w =
    let (opened, w') = pour platform tmp content w in
    if opened
    then (if platform.renames tmp p
        then (true, set_file p (w'.files tmp) (set_file tmp none w'))
        else (false, w'))
    else (false, w')

-- `atomic_write_all`
unfoldable pub atomic_write_all : Platform → Bytes → Bytes → World → Bool × World
unfolding temporary_name write_over
atomic_write_all platform p content w =
    write_over platform (temporary_name platform p w) p content (record w { ticks = w.ticks + 1 })
