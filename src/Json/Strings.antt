-- ===== src/Json/Strings.antt =====
-- What the text of a string reads back as: src/jsonl.cpp's `escape` against `parse_string`.
use acx_contact_cli.Prelude.{
  ℕ, zero, ◌≡◌, refl, ap, ◌∙◌, Bool, true, false, not, ◌||◌, [], ◌∷◌, ◌++◌, arith, Bytes, isspace,
  ltb, ◌==◌, all, keep, Bool-cases, inl, inr, append_assoc, if◌then◌else◌,
}
use acx_contact_cli.Json.Text.{escape_byte, escape, quoted}
use acx_contact_cli.Json.Parser.{ok, skip_ws, prepend, string_body, parse_string}

-- the control bytes with an escape of their own, and all that is no control byte
abbrev pub survives : ℕ → Bool
survives c = not (ltb c 0x20) || (c == b'\n' || (c == b'\r' || c == b'\t'))

string_body_stop : (t : Bytes) → string_body zero (b'"' ∷ t) ≡ ([], t)
unfolding string_body
string_body_stop [] = refl
string_body_stop (e ∷ t) = refl

string_body_plain :
    (c : ℕ) (t : Bytes)
    → (c == b'"') ≡ false
    → (c == b'\\') ≡ false
    → string_body zero (c ∷ t) ≡ prepend c (string_body zero t)
unfolding string_body
string_body_plain c [] p q = rw (p, q)
string_body_plain c (e ∷ t) p q = rw (p, q)

-- one escaped byte reads back as itself, or is lost
string_body-escape_byte :
    (c : ℕ) (t : Bytes)
    → string_body zero (escape_byte c ++ t)
      ≡ (if survives c then prepend c (string_body zero t) else string_body zero t)
unfolding string_body escape_byte
string_body-escape_byte c t = ground (arith, string_body_plain c t)

string_body-escape :
    (s rest : Bytes) → string_body zero (escape s ++ (b'"' ∷ rest)) ≡ (keep survives s, rest)
unfolding escape
string_body-escape [] rest = string_body_stop rest
string_body-escape (c ∷ s) rest =
    ap (string_body zero) (append_assoc (escape_byte c) (escape s) (b'"' ∷ rest))
    ∙ string_body-escape_byte c (escape s ++ (b'"' ∷ rest))
    ∙ elim (Bool-cases (survives c)) [
      | inl h ↦ rw h (rw (string_body-escape s rest))
      | inr h ↦ rw h (string_body-escape s rest)
    ]

-- A string written by `escape` between quotation marks is read back without the control bytes that
-- have no escape of their own, and with every other byte in place, whatever follows it.
pub parse_string-quoted :
    (s rest : Bytes) → parse_string (quoted s ++ rest) ≡ ok (keep survives s, rest)
unfolding parse_string quoted
parse_string-quoted s rest =
    ap ok
      (ap (string_body zero) (append_assoc (escape s) (b'"' ∷ []) rest) ∙ string_body-escape s rest)

pub keep-all : (s : Bytes) → all survives s ≡ true → keep survives s ≡ s
keep-all [] h = refl
keep-all (c ∷ s) h = elim (Bool-cases (survives c)) [
  | inl p ↦ rw p (ap (◌∷◌ c) (keep-all s (ground arith)))
  | inr p ↦ absurd (ground arith)
]

pub skip_ws-append : (w s : Bytes) → all isspace w ≡ true → skip_ws (w ++ s) ≡ skip_ws s
unfolding skip_ws
skip_ws-append [] s h = refl
skip_ws-append (c ∷ w) s h = ground (arith, skip_ws-append w s)

pub skip_ws_solid : (c : ℕ) (s : Bytes) → isspace c ≡ false → skip_ws (c ∷ s) ≡ c ∷ s
unfolding skip_ws
skip_ws_solid c s h = rw h
