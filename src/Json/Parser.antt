-- ===== src/Json/Parser.antt =====
-- The parser of src/jsonl.cpp. Every exception is a `Failure`; `out_of_fuel` is the model's own,
-- and Json/Fuel shows that the fuel of `parse` never runs out.
use acx_contact_cli.Prelude.{
  ℕ, zero, suc, ◌+◌, ◌*◌, Bool, true, false, ◌||◌, Option, none, some, [], ◌∷◌, Bytes, codes,
  isspace, isdigit, ◌==◌, if◌then◌else◌, length, take, drop, same,
}
use acx_contact_cli.Json.Value.{
  Json, null, bool, number, string, array, object, Items, nil, item, Members, end, assign,
}

pub data Failure : Type 0 where
  expected_string expected_comma_or_bracket expected_colon expected_comma_or_brace : Failure
  unexpected_end invalid_json bad_number out_of_fuel : Failure
  -- std::get on another alternative, and std::map::at on a missing key
  bad_variant_access out_of_range : Failure

pub data Result {ℓ} (A : Type ℓ) : Type ℓ where
  ok : A → Result A
  err : Failure → Result A

infixl 5 ◌>>=◌
abbrev pub ◌>>=◌ {ℓ κ} : {A : Type ℓ} {B : Type κ} → Result A → (A → Result B) → Result B
ok a >>= f = f a
err e >>= f = err e

unfoldable pub skip_ws : Bytes → Bytes
unfolding isspace
skip_ws [] = []
skip_ws (c ∷ s) = let rest = skip_ws s in if isspace c then rest else c ∷ s

-- the switch over the byte behind a backslash, but for 'u'
unfoldable pub unescape : ℕ → ℕ
unescape e =
    if e == b'b'
    then 8
    else if e == b'f'
    then 12
    else if e == b'n'
    then 10
    else if e == b'r'
    then 13
    else if e == b't'
    then 9
    else e

abbrev pub prepend : ℕ → Bytes × Bytes → Bytes × Bytes
prepend c (out, rest) = (c ∷ out, rest)

-- The loop of `parse_string`: the text read and the bytes left. The counter is that of the loop
-- that passes over the digits of an escape with 'u'.
unfoldable pub string_body : ℕ → Bytes → Bytes × Bytes
unfolding unescape
string_body k [] = ([], [])
string_body (suc k) (c ∷ s) = string_body k s
string_body zero (c ∷ []) = if c == b'"' || c == b'\\' then ([], []) else (c ∷ [], [])
string_body zero (c ∷ e ∷ s) =
    let plain = prepend c (string_body zero (e ∷ s)) in
    let raw = string_body 4 s in
    let escaped = prepend (unescape e) (string_body zero s) in
    if c == b'"'
    then ([], e ∷ s)
    else if c == b'\\'
    then (if e == b'u' then raw else escaped)
    else plain

unfoldable pub parse_string : Bytes → Result (Bytes × Bytes)
unfolding string_body
parse_string [] = err expected_string
parse_string (c ∷ s) = if c == b'"' then ok (string_body zero s) else err expected_string

unfoldable pub is_number_byte : ℕ → Bool
unfolding isdigit
is_number_byte c = isdigit c || c == b'-' || c == b'+' || c == b'.' || c == b'e' || c == b'E'

-- the scan of `parse_number`: the bytes of the number and those left
unfoldable pub number_bytes : Bytes → Bytes × Bytes
unfolding is_number_byte
number_bytes [] = ([], [])
number_bytes (c ∷ s) =
    let more = prepend c (number_bytes s) in if is_number_byte c then more else ([], c ∷ s)

-- `s.substr(i, w.size()) == w`
abbrev pub starts_with : Bytes → Bytes → Bool
starts_with w s = same (take (length w) s) w

module _ {D : Type 0} (stod : Bytes → Option D) where
  unfoldable pub parse_number : Bytes → Result (D × Bytes)
  unfolding number_bytes
  parse_number s =
      let (text, rest) = number_bytes s in
      elim (stod text) [ some d ↦ ok (d, rest) | none ↦ err bad_number ]

  -- `parse_array` behind its bracket, given the loop
  unfoldable pub array_body : (Bytes → Result (Items D × Bytes)) → Bytes → Result (Json D × Bytes)
  array_body items [] = do (vs, rest) ← items []; ok (array vs, rest)
  array_body items (c ∷ s) =
      if c == b']' then ok (array nil, s) else do (vs, rest) ← items (c ∷ s); ok (array vs, rest)

  -- `parse_object` behind its brace, given the loop
  unfoldable pub object_body :
      (Bytes → Result (Members D × Bytes)) → Bytes → Result (Json D × Bytes)
  object_body members [] = do (m, rest) ← members []; ok (object m, rest)
  object_body members (c ∷ s) =
      if c == b'}' then ok (object end, s) else do (m, rest) ← members (c ∷ s); ok (object m, rest)

  -- `parse_value` behind the white space
  unfoldable pub value_at :
      (Bytes → Result (Items D × Bytes))
      → (Bytes → Result (Members D × Bytes))
      → Bytes
      → Result (Json D × Bytes)
  unfolding parse_string parse_number array_body object_body skip_ws
  value_at items members [] = err unexpected_end
  value_at items members (c ∷ s) =
      if c == b'"'
      then (do (text, rest) ← parse_string (c ∷ s); ok (string text, rest))
      else if c == b'{'
      then object_body members (skip_ws s)
      else if c == b'['
      then array_body items (skip_ws s)
      else if starts_with (codes "true") (c ∷ s)
      then ok (bool true, drop 3 s)
      else if starts_with (codes "false") (c ∷ s)
      then ok (bool false, drop 4 s)
      else if starts_with (codes "null") (c ∷ s)
      then ok (null, drop 3 s)
      else if c == b'-' || c == b'+' || isdigit c
      then (do (d, rest) ← parse_number (c ∷ s); ok (number d, rest))
      else err invalid_json

  -- behind an element: a comma goes on, a bracket ends
  unfoldable pub after_item :
      (Bytes → Result (Items D × Bytes)) → Json D → Bytes → Result (Items D × Bytes)
  after_item again v [] = err expected_comma_or_bracket
  after_item again v (c ∷ s) =
      if c == b','
      then (do (vs, rest) ← again s; ok (item v vs, rest))
      else if c == b']'
      then ok (item v nil, s)
      else err expected_comma_or_bracket

  -- behind a member, with the map that has it
  unfoldable pub after_member :
      (Members D → Bytes → Result (Members D × Bytes))
      → Members D
      → Bytes
      → Result (Members D × Bytes)
  after_member again m [] = err expected_comma_or_brace
  after_member again m (c ∷ s) =
      if c == b',' then again m s else if c == b'}' then ok (m, s) else err expected_comma_or_brace

  -- `if (s[i] != ':') throw …; ++i; skip_ws(s,i);`
  unfoldable pub expect_colon : Bytes → Result Bytes
  expect_colon [] = err expected_colon
  expect_colon (c ∷ s) = if c == b':' then ok (skip_ws s) else err expected_colon

  unfoldable mutual
    unfolding skip_ws value_at after_item after_member expect_colon parse_string assign

    pub parse_value : ℕ → Bytes → Result (Json D × Bytes)
    parse_value zero s = err out_of_fuel
    parse_value (suc f) s = value_at (parse_items f) (parse_members f end) (skip_ws s)

    -- the loop of `parse_array`
    pub parse_items : ℕ → Bytes → Result (Items D × Bytes)
    parse_items zero s = err out_of_fuel
    parse_items (suc f) s = do
      (v, rest) ← parse_value f (skip_ws s)
      after_item (parse_items f) v (skip_ws rest)

    -- the loop of `parse_object`, with its map
    pub parse_members : ℕ → Members D → Bytes → Result (Members D × Bytes)
    parse_members zero m s = err out_of_fuel
    parse_members (suc f) m s = do
      (key, behind) ← parse_string (skip_ws s)
      from ← expect_colon (skip_ws behind)
      (v, rest) ← parse_value f from
      after_member (parse_members f) (assign key v m) (skip_ws rest)

  -- `J::parse(const std::string&)`, which leaves what follows the value
  unfoldable pub parse : Bytes → Result (Json D)
  unfolding parse_value
  parse s = do (v, rest) ← parse_value (2 * length s + 1) s; ok v
