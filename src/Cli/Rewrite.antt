-- ===== src/Cli/Rewrite.antt =====
-- `acx_redact_cmd`, `acx_normalize_cmd`, `acx_grep_cmd` and `acx_sample_cmd` of src/cli.cpp, with the
-- string helpers above them: each writes a text made of the lines of another.
use acx_contact_cli.Prelude.{
  ℕ, ◌+◌, ◌-◌, Bool, true, false, ◌&&◌, ◌||◌, Option, none, some, List, [], ◌∷◌, ◌++◌, map, Bytes,
  codes, isdigit, isspace, tolower, is_empty, keep, length, replicate, set, ◌==◌, ltb, take,
  if◌then◌else◌,
}
use acx_contact_cli.Utils.{lines}
use acx_contact_cli.Json.Value.{
  Json, null, bool, number, string, array, object, Members, lookup, assign,
}
use acx_contact_cli.Json.Text.{dump}
use acx_contact_cli.Json.Parser.{ok, err, parse}
use acx_contact_cli.World.{Platform, World, read_file, write_stream}
use acx_contact_cli.Cli.{
  ex_ok, ex_io, ex_usage, Outcome, input_path, output_path, filled, text_of, as_text,
  json_get_string, open_output, atomic_write_all,
}

-- `ltrim`
unfoldable pub ltrim : Bytes → Bytes
unfolding isspace
ltrim [] = []
ltrim (c ∷ s) = let rest = ltrim s in if isspace c then rest else c ∷ s

-- `rtrim`
unfoldable pub rtrim : Bytes → Bytes
unfolding isspace
rtrim [] = []
rtrim (c ∷ s) = let rest = rtrim s in if is_empty rest && isspace c then [] else c ∷ rest

unfoldable pub trim : Bytes → Bytes
unfolding ltrim rtrim
trim s = rtrim (ltrim s)

unfoldable pub lower : Bytes → Bytes
unfolding tolower
lower s = map tolower s

-- the loop of `phone_digits`, with the flag `o.empty()`
unfoldable pub phone_bytes : Bool → Bytes → Bytes
unfolding isdigit
phone_bytes first [] = []
phone_bytes first (c ∷ s) =
    let later = phone_bytes false s in
    let same = phone_bytes first s in if isdigit c || (c == b'+' && first) then c ∷ later else same

unfoldable pub phone_digits : Bytes → Bytes
unfolding phone_bytes
phone_digits s = phone_bytes true s

-- `mask_email`: the part in front of the at sign, and the part behind it
unfoldable pub at_sign : Bytes → Option (Bytes × Bytes)
at_sign [] = none
at_sign (c ∷ s) =
    let later = at_sign s in
    if c == b'@'
    then some ([], s)
    else elim later [ none ↦ none | some (user, dom) ↦ some (c ∷ user, dom) ]

-- `user.substr(user.size()-1)`, for a text that is not empty
unfoldable pub last_byte : Bytes → Bytes
last_byte [] = []
last_byte (c ∷ []) = c ∷ []
last_byte (c ∷ d ∷ s) = last_byte (d ∷ s)

unfoldable pub mask_user : Bytes → Bytes
unfolding last_byte
mask_user user =
    if ltb 2 (length user)
    then take 1 user ++ (replicate (length user - 2) b'*' ++ last_byte user)
    else replicate (length user) b'*'

unfoldable pub mask_email : Bytes → Bytes
unfolding at_sign mask_user
mask_email e = elim (at_sign e) [
  | none ↦ replicate (length e) b'*'
  | some (user, dom) ↦ mask_user user ++ (b'@' ∷ dom)
]

unfoldable pub mask_phone : Bytes → Bytes
unfolding isdigit
mask_phone [] = []
mask_phone (c ∷ s) = let rest = mask_phone s in if isdigit c then b'*' ∷ rest else c ∷ rest

-- `if (it!=m.end() && it->second.is_string()) it->second = J::Value(f(it->second.as_string()));`
unfoldable pub rewrite_member : {D : Type 0} → (Bytes → Bytes) → Bytes → Members D → Members D
unfolding assign lookup
rewrite_member f key m = elim (as_text (lookup key m)) [
  | some s ↦ assign key (string (f s)) m
  | none ↦ m
]

module _ {D : Type 0} where
  -- the two masks of `acx_redact_cmd`
  unfoldable pub redact_members : Members D → Members D
  unfolding rewrite_member mask_email mask_phone
  redact_members m =
      rewrite_member mask_phone (codes "phone") (rewrite_member mask_email (codes "email") m)

  -- the three normalisations of `acx_normalize_cmd`
  unfoldable pub normalize_members : Members D → Members D
  unfolding rewrite_member trim lower phone_digits
  normalize_members m =
      rewrite_member phone_digits (codes "phone") (
        rewrite_member (λ s. lower (trim s)) (codes "email") (rewrite_member trim (codes "name") m))

-- `res[j] = line;`, which writes behind the vector where `j` is not below its size
unfoldable pub write_at : List Bytes → ℕ → Bytes → Option (List Bytes)
write_at res j line = if ltb j (length res) then some (set res j line) else none

-- the loop of `acx_sample_cmd`; `draw count` is a value of the distribution from 0 to `count`
module _ (draw : ℕ → ℕ) where
  -- its body for a line, behind the test for an empty one
  unfoldable pub sample_line : ℕ → Bytes → ℕ → List Bytes → Option (List Bytes)
  unfolding write_at
  sample_line n line count res =
      if ltb count n
      then some (res ++ line ∷ [])
      else if ltb (draw count) n
      then write_at res (draw count) line
      else some res

  unfoldable pub sample_loop : ℕ → List Bytes → ℕ → List Bytes → Option (List Bytes)
  unfolding sample_line
  sample_loop n [] count res = some res
  sample_loop n (line ∷ rest) count res = elim (sample_line n line count res) [
    | none ↦ none
    | some res' ↦ sample_loop n rest (count + 1) res'
  ]

-- a line of which an object is rewritten, and every other kept as it is
module _ {D : Type 0} (print : D → Bytes) (stod : Bytes → Option D) where
  abbrev pub rewritten : (Members D → Members D) → Bytes → Json D → Bytes
  rewritten f line (object m) = dump print 0 (object (f m))
  rewritten f line null = line
  rewritten f line (bool b) = line
  rewritten f line (number d) = line
  rewritten f line (string s) = line
  rewritten f line (array a) = line

  unfoldable pub rewrite_line : (Members D → Members D) → Bytes → Bytes
  rewrite_line f line = elim (parse stod line) [ ok j ↦ rewritten f line j | err e ↦ line ]

  module _ (platform : Platform) where
    abbrev pub redact_into : Bytes → Bytes → World → Outcome
    redact_into path out w = record {
      code = ex_ok;
      printed = [];
      world =
          (write_stream platform out
            (text_of (map (rewrite_line redact_members) (filled (lines (read_file path w))))) w).1;
    }

    unfoldable pub acx_redact_cmd : Bytes → Bytes → World → Outcome
    unfolding input_path output_path open_output write_stream read_file text_of lines rewrite_line
        redact_members
    acx_redact_cmd in_path out_path w =
        let path = input_path in_path w in
        let out = output_path out_path (codes "acx-redacted.jsonl") in
        elim (w.files path) [
          | none ↦ record { code = ex_io; printed = []; world = w }
          | some content ↦
              (let (opened, w') = open_output platform out w in
                if opened
                then redact_into path out w'
                else record { code = ex_io; printed = []; world = w' })
        ]

    -- `if (!atomic_write_all(out, acc)) …`
    unfoldable pub deliver : Bytes → Bytes → World → Outcome
    unfolding atomic_write_all
    deliver out acc w =
        let (sent, w') = atomic_write_all platform out acc w in
        if sent
        then record { code = ex_ok; printed = []; world = w' }
        else record { code = ex_io; printed = []; world = w' }

    -- an empty line stays
    abbrev pub normalize_line : Bytes → Bytes
    normalize_line [] = []
    normalize_line (c ∷ s) = rewrite_line normalize_members (c ∷ s)

    unfoldable pub acx_normalize_cmd : Bytes → Bytes → World → Outcome
    unfolding input_path output_path text_of lines rewrite_line normalize_members deliver
    acx_normalize_cmd in_path out_path w =
        let path = input_path in_path w in
        let out = output_path out_path (codes "acx-normalized.jsonl") in
        elim (w.files path) [
          | none ↦ record { code = ex_io; printed = []; world = w }
          | some content ↦ deliver out (text_of (map normalize_line (lines content))) w
        ]

    -- `std::regex_search` with the pattern of `acx_grep_cmd`, none where the pattern is refused
    module _ (regex_search : Bytes → Option (Bytes → Bool)) where
      abbrev pub found_in : (Bytes → Bool) → Option Bytes → Bool
      found_in search none = false
      found_in search (some s) = search s

      unfoldable pub matches : (Bytes → Bool) → Bytes → Bool
      unfolding json_get_string
      matches search line = elim (parse stod line) [
        | ok j ↦
            found_in search (json_get_string j (codes "name"))
            || found_in search (json_get_string j (codes "email"))
        | err e ↦ false
      ]

      -- `none` where the construction of the expression throws, out of the command
      unfoldable pub acx_grep_cmd : Bytes → Bytes → Bytes → World → Option Outcome
      unfolding input_path output_path text_of lines matches deliver
      acx_grep_cmd in_path out_path [] w = some record { code = ex_usage; printed = []; world = w }
      acx_grep_cmd in_path out_path (c ∷ cs) w = elim (regex_search (c ∷ cs)) [
        | none ↦ none
        | some search ↦
            (let path = input_path in_path w in
              let out = output_path out_path (codes "acx-grep.jsonl") in
              elim (w.files path) [
                | none ↦ some record { code = ex_io; printed = []; world = w }
                | some content ↦
                    some (deliver out (text_of (keep (matches search) (filled (lines content)))) w)
              ])
      ]

    -- `none` is a write behind the vector
    unfoldable pub acx_sample_cmd : (ℕ → ℕ) → Bytes → Bytes → ℕ → World → Option Outcome
    unfolding input_path output_path text_of lines sample_loop deliver
    acx_sample_cmd draw in_path out_path n w =
        let path = input_path in_path w in
        let out = output_path out_path (codes "acx-sample.jsonl") in
        elim (w.files path) [
          | none ↦ some (record { code = ex_io; printed = []; world = w })
          | some content ↦ elim (sample_loop draw n (filled (lines content)) 0 []) [
            | none ↦ none
            | some res ↦ some (deliver out (text_of res) w)
          ]
        ]
