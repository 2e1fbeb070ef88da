-- ===== src/Json/Text.antt =====
-- `J::escape` and `dump_impl` of src/jsonl.cpp.
use acx_contact_cli.Prelude.{
  ℕ, ◌+◌, ◌*◌, ◌/◌, ◌%◌, Bool, true, false, List, [], ◌∷◌, ◌++◌, Bytes, codes, ltb, ◌==◌,
  if◌then◌else◌, replicate,
}
use acx_contact_cli.Json.Value.{
  Json, null, bool, number, string, array, object, Items, nil, item, Members, end, member,
}

unfoldable pub hex_digit : ℕ → ℕ
hex_digit n = if ltb n 10 then b'0' + n else 87 + n

-- one round of the loop; std::hex with width 4 and fill '0' below 0x20
unfoldable pub escape_byte : ℕ → Bytes
unfolding hex_digit
escape_byte c =
    if c == b'"'
    then b'\\' ∷ b'"' ∷ []
    else if c == b'\\'
    then b'\\' ∷ b'\\' ∷ []
    else if c == b'\n'
    then b'\\' ∷ b'n' ∷ []
    else if c == b'\r'
    then b'\\' ∷ b'r' ∷ []
    else if c == b'\t'
    then b'\\' ∷ b't' ∷ []
    else if ltb c 0x20
    then b'\\' ∷ b'u' ∷ b'0' ∷ b'0' ∷ hex_digit (c / 16) ∷ hex_digit (c % 16) ∷ []
    else c ∷ []

unfoldable pub escape : Bytes → Bytes
unfolding escape_byte
escape [] = []
escape (c ∷ s) = escape_byte c ++ escape s

unfoldable pub quoted : Bytes → Bytes
unfolding escape
quoted s = b'"' ∷ (escape s ++ b'"' ∷ [])

-- `if (indent) o << std::string(level*indent, ' ')`
unfoldable pub padding : ℕ → ℕ → Bytes
padding indent level = if indent == 0 then [] else replicate (level * indent) b' '

-- `if (indent) o << "\n"`
unfoldable pub newline : ℕ → Bytes
newline indent = if indent == 0 then [] else b'\n' ∷ []

-- `":" << (indent ? " " : "")`
unfoldable pub colon : ℕ → Bytes
colon indent = if indent == 0 then b':' ∷ [] else b':' ∷ b' ' ∷ []

module _ {D : Type 0} where
  unfoldable pub no_items : Items D → Bool
  no_items nil = true
  no_items (item v vs) = false

  unfoldable pub no_members : Members D → Bool
  no_members end = true
  no_members (member k v m) = false

-- `if (i+1<a.size()) o << ","`, given that nothing follows
unfoldable pub comma : Bool → Bytes
comma last = if last then [] else b',' ∷ []

-- `if (!a.empty() && indent)` and what it writes
unfoldable pub unless : Bool → Bytes → Bytes
unless empty s = if empty then [] else s

module _ {D : Type 0} (print : D → Bytes) (indent : ℕ) where
  unfoldable mutual
    unfolding quoted padding newline colon no_items no_members comma unless

    pub dump_impl : Json D → ℕ → Bytes
    dump_impl null level = codes "null"
    dump_impl (bool b) level = if b then codes "true" else codes "false"
    dump_impl (number d) level = print d
    dump_impl (string s) level = quoted s
    dump_impl (array vs) level =
        b'['
        ∷ (unless (no_items vs) (newline indent)
            ++ (dump_items vs level ++ (unless (no_items vs) (padding indent level) ++ b']' ∷ [])))
    dump_impl (object m) level =
        b'{'
        ∷ (unless (no_members m) (newline indent)
            ++ (dump_members m level
                ++ (unless (no_members m) (padding indent level) ++ b'}' ∷ [])))

    pub dump_items : Items D → ℕ → Bytes
    dump_items nil level = []
    dump_items (item v vs) level =
        padding indent (level + 1)
        ++ (dump_impl v (level + 1)
            ++ (comma (no_items vs) ++ (newline indent ++ dump_items vs level)))

    pub dump_members : Members D → ℕ → Bytes
    dump_members end level = []
    dump_members (member k v m) level =
        padding indent (level + 1)
        ++ (quoted k
            ++ (colon indent
                ++ (dump_impl v (level + 1)
                    ++ (comma (no_members m) ++ (newline indent ++ dump_members m level)))))

-- `J::dump`
module _ {D : Type 0} (print : D → Bytes) where
  unfoldable pub dump : ℕ → Json D → Bytes
  unfolding dump_impl
  dump indent j = dump_impl print indent j 0

  unfoldable pub dump_jsonl : List (Json D) → Bytes
  unfolding dump
  dump_jsonl [] = []
  dump_jsonl (j ∷ js) = dump 0 j ++ (b'\n' ∷ dump_jsonl js)
