-- ===== src/Cli/Seen.antt =====
-- `acx_dedupe_cmd` and `acx_merge_cmd` of src/cli.cpp: lines whose key was met before are dropped.
use acx_contact_cli.Prelude.{
  ℕ, ◌+◌, true, false, Option, none, some, List, [], ◌∷◌, ◌++◌, Bytes, codes, is_empty,
  if◌then◌else◌,
}
use acx_contact_cli.Table.{holds}
use acx_contact_cli.Utils.{lines}
use acx_contact_cli.Json.Parser.{ok, err, parse}
use acx_contact_cli.World.{Platform, World, read_file, write_stream}
use acx_contact_cli.Cli.{
  ex_ok, ex_io, Outcome, input_path, output_path, filled, text_of, json_get_string, open_output,
  atomic_write_all,
}

-- the lines that are written, and the counters
pub record Kept : Type 0 where
  pub out : List Bytes
  pub kept : ℕ
  pub dropped : ℕ

abbrev pub keeping : Bytes → Kept → Kept
keeping line r = record { out = line ∷ r.out; kept = r.kept + 1; dropped = r.dropped }

abbrev pub dropping : Kept → Kept
dropping r = record r { dropped = r.dropped + 1 }

module _ {D : Type 0} (stod : Bytes → Option D) where
  -- the key of a line in `acx_dedupe_cmd`; `none` where the parser throws
  unfoldable pub dedupe_key : Bytes → Option Bytes
  unfolding json_get_string
  dedupe_key line = elim (parse stod line) [
    | ok j ↦ elim (json_get_string j (codes "email")) [ some email ↦ some email | none ↦ some line ]
    | err e ↦ none
  ]

  -- the key of a line in `acx_merge_cmd`, which takes an empty email for none
  unfoldable pub merge_key : Bytes → Option Bytes
  unfolding json_get_string
  merge_key line = elim (parse stod line) [
    | ok j ↦ elim (json_get_string j (codes "email")) [
      | some email ↦ (if is_empty email then some line else some email)
      | none ↦ some line
    ]
    | err e ↦ none
  ]

-- the loop over the lines that are not empty, with the keys met so far
module _ (key_of : Bytes → Option Bytes) where
  unfoldable pub distinct_lines : List Bytes → List Bytes → Kept
  unfolding holds
  distinct_lines [] seen = record { out = []; kept = 0; dropped = 0 }
  distinct_lines (line ∷ rest) seen = elim (key_of line) [
    | none ↦ keeping line (distinct_lines rest seen)
    | some key ↦ elim (holds key seen) [
      | true ↦ dropping (distinct_lines rest seen)
      | false ↦ keeping line (distinct_lines rest (key ∷ seen))
    ]
  ]

module _ {D : Type 0} (stod : Bytes → Option D) (platform : Platform) where
  -- the loop of `acx_dedupe_cmd` over a text
  abbrev pub dedupe_text : Bytes → Kept
  dedupe_text s = distinct_lines (dedupe_key stod) (filled (lines s)) []

  -- the part behind the opening of the two files
  abbrev pub dedupe_into : Bytes → Bytes → World → Outcome
  dedupe_into path out w = record {
    code = ex_ok;
    printed = [];
    world = (write_stream platform out (text_of (dedupe_text (read_file path w)).out) w).1;
  }

  unfoldable pub acx_dedupe_cmd : Bytes → Bytes → World → Outcome
  unfolding input_path output_path open_output write_stream read_file text_of distinct_lines lines
      dedupe_key
  acx_dedupe_cmd target_path out_path w =
      let path = input_path target_path w in
      let out = output_path out_path (codes "acx-dedupe.jsonl") in
      elim (w.files path) [
        | none ↦ record { code = ex_io; printed = []; world = w }
        | some content ↦
            (let (opened, w') = open_output platform out w in
              if opened
              then dedupe_into path out w'
              else record { code = ex_io; printed = []; world = w' })
      ]

  -- the lines of the files that can be opened, in the order of the arguments
  unfoldable pub merge_lines : List Bytes → World → List Bytes
  unfolding lines
  merge_lines [] w = []
  merge_lines (file ∷ files) w = elim (w.files file) [
    | none ↦ merge_lines files w
    | some content ↦ filled (lines content) ++ merge_lines files w
  ]

  unfoldable pub acx_merge_cmd : List Bytes → Bytes → World → Outcome
  unfolding output_path merge_lines distinct_lines merge_key text_of atomic_write_all
  acx_merge_cmd files out_path w =
      let out = output_path out_path (codes "acx-merged.jsonl") in
      let acc = text_of (distinct_lines (merge_key stod) (merge_lines files w) []).out in
      let (sent, w') = atomic_write_all platform out acc w in
      if sent
      then record { code = ex_ok; printed = []; world = w' }
      else record { code = ex_io; printed = []; world = w' }
