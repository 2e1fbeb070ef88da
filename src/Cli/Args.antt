-- ===== src/Cli/Args.antt =====
-- `parse` of src/cli.cpp, and the commands that check a digest. `std::map` is a list of its entries.
use acx_contact_cli.Prelude.{
  ◌≡◌, refl, arith, Bool, false, ◌&&◌, Option, none, some, List, [], ◌∷◌, ◌++◌, Bytes, codes, same,
  same_iff, is_empty, drop, length, ltb, ◌-◌, ◌==◌, if◌then◌else◌,
}
use acx_contact_cli.Json.Parser.{starts_with}
use acx_contact_cli.Utils.{lines}
use acx_contact_cli.Sha256.Header.{hash_stream}
use acx_contact_cli.World.{World}
use acx_contact_cli.Cli.{ex_ok, ex_fail, ex_usage, ex_io, Outcome, input_path}
use acx_contact_cli.Cli.Rewrite.{lower}

-- `struct Args`; no code sets the flag `json`
pub record Args : Type 0 where
  pub cmd : Bytes
  pub kv : List (Bytes × Bytes)
  pub json : Bool

-- `kv[key] = value`
unfoldable pub set_value : Bytes → Bytes → List (Bytes × Bytes) → List (Bytes × Bytes)
unfolding same
set_value key value [] = (key, value) ∷ []
set_value key value ((k, v) ∷ kv) =
    let rest = set_value key value kv in if same key k then (key, value) ∷ kv else (k, v) ∷ rest

unfoldable pub value_of : Bytes → List (Bytes × Bytes) → Option Bytes
unfolding same
value_of key [] = none
value_of key ((k, v) ∷ kv) = let rest = value_of key kv in if same key k then some v else rest

-- the loop over the arguments; an option takes the next argument, whatever it is
unfoldable pub parse_options : List Bytes → List (Bytes × Bytes) → List (Bytes × Bytes)
unfolding set_value same
parse_options [] kv = kv
parse_options (s ∷ []) kv =
    if same s (codes "--yes") then set_value (codes "yes") (codes "1") kv else kv
parse_options (s ∷ t ∷ rest) kv =
    let with_value = parse_options rest (set_value (drop 2 s) t kv) in
    let without = parse_options (t ∷ rest) kv in
    if starts_with (codes "--") s then with_value else without

-- `parse`, on the arguments behind the program's name
unfoldable pub parse_args : List Bytes → Args
unfolding parse_options
parse_args [] = record { cmd = codes "help"; kv = []; json = false }
parse_args (cmd ∷ options) = record { cmd = cmd; kv = parse_options options []; json = false }

-- `hash_file`: nothing where the file cannot be opened
unfoldable pub hash_file : Bytes → World → Bytes
unfolding hash_stream
hash_file p w = elim (w.files p) [ some content ↦ hash_stream content | none ↦ [] ]

-- the digest as it is printed, and the error where there is none
unfoldable pub hash_outcome : Bool → Bytes → Bytes → World → Outcome
hash_outcome json_mode path h w =
    if is_empty h then record { code = ex_io; printed = []; world = w } else record {
      code = ex_ok;
      printed =
          if json_mode
          then codes "{\"file\":\"" ++ (path ++ (codes "\",\"sha256\":\"" ++ (h ++ codes "\"}\n")))
          else h ++ (codes "  " ++ (path ++ codes "\n"));
      world = w;
    }

unfoldable pub acx_hash_file_cmd : Bool → Bytes → World → Outcome
unfolding hash_file input_path hash_outcome
acx_hash_file_cmd json_mode target_path w =
    let path = input_path target_path w in hash_outcome json_mode path (hash_file path w) w

-- the text up to the first space
unfoldable pub first_word : Bytes → Bytes
first_word [] = []
first_word (c ∷ s) = let rest = first_word s in if c == b' ' then [] else c ∷ rest

-- `std::getline` once, on a string that stays empty where there is no line
abbrev pub first_of : List Bytes → Bytes
first_of [] = []
first_of (line ∷ rest) = line

-- `s.size()>7 && s.rfind(".sha256")==s.size()-7`
abbrev pub is_digest_file : Bytes → Bool
is_digest_file s = ltb 7 (length s) && same (drop (length s - 7) s) (codes ".sha256")

-- the comparison, and the line that is printed
unfoldable pub compare_digest : Bytes → Bytes → Bytes → World → Outcome
unfolding lower same
compare_digest path h expected w =
    let matching = same (lower h) (lower expected) in
    record {
      code = (if matching then ex_ok else ex_fail);
      printed =
          h
          ++ (codes "  "
              ++ (path
                  ++ (codes "  ["
                      ++ ((if matching then codes "OK" else codes "MISMATCH") ++ codes "]\n"))));
      world = w;
    }

-- the digest is the argument, or stands in the file that it names
unfoldable pub checksum_against : Bytes → Bytes → Bytes → World → Outcome
unfolding compare_digest first_word lines same
checksum_against path h s w =
    if is_digest_file s
    then elim (w.files s) [
      | none ↦ record { code = ex_io; printed = []; world = w }
      | some content ↦ compare_digest path h (first_word (first_of (lines content))) w
    ]
    else compare_digest path h s w

-- behind the digest of the file
unfoldable pub checksum_of : Bytes → Bytes → Bytes → World → Outcome
unfolding checksum_against
checksum_of path h expected_or_file w =
    if is_empty h
    then record { code = ex_io; printed = []; world = w }
    else if is_empty expected_or_file
    then record { code = ex_usage; printed = []; world = w }
    else checksum_against path h expected_or_file w

-- `acx_checksum_cmd`, a null pointer being `none` for the file and empty for the digest
unfoldable pub acx_checksum_cmd : Option Bytes → Bytes → World → Outcome
unfolding hash_file checksum_of
acx_checksum_cmd none expected_or_file w = record { code = ex_usage; printed = []; world = w }
acx_checksum_cmd (some path) expected_or_file w =
    checksum_of path (hash_file path w) expected_or_file w

-- Every option with a value behind it is found under its name, where no other option follows it: the
-- last one wins.
pub value_of-set_value :
    (key k value : Bytes) (kv : List (Bytes × Bytes))
    → value_of key (set_value k value kv) ≡ (if same key k then some value else value_of key kv)
unfolding value_of set_value
value_of-set_value key k value [] = refl
value_of-set_value key k value ((j, v) ∷ kv) =
    ground (arith, value_of-set_value key k value kv, same_iff key k, same_iff key j, same_iff k j)
