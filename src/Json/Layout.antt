-- ===== src/Json/Layout.antt =====
-- Facts on the pieces of text that src/jsonl.cpp's `dump_impl` writes, as its parser meets them.
use acx_contact_cli.Prelude.{
  ℕ, zero, suc, ◌*◌, ◌≡◌, refl, ap, ◌∙◌, sym, Bool, true, false, not, ◌||◌, Option, [], ◌∷◌, ◌++◌,
  arith, Bytes, isspace, isdigit, ◌==◌, all, Bool-cases, inl, inr, replicate, &&-eq-true,
}
use acx_contact_cli.Json.Value.{Json}
use acx_contact_cli.Json.Text.{quoted, padding, newline}
use acx_contact_cli.Json.Parser.{skip_ws, is_number_byte, number_bytes}
use acx_contact_cli.Json.Strings.{skip_ws-append, skip_ws_solid}
use acx_contact_cli.Json.Render.{
  onto, IsClean, null_clean, bool_clean, number_clean, string_clean, array_clean, object_clean,
}

abbrev pub stops : Bytes → Bool
stops [] = true
stops (c ∷ s) = not (is_number_byte c)

-- a text that begins with neither white space nor a closing bracket
pub record Head (s : Bytes) : Type 0 where
  pub first : ℕ
  pub others : Bytes
  pub shape : s ≡ first ∷ others
  pub solid : isspace first ≡ false
  pub no_bracket : (first == b']') ≡ false

pub Head-skip_ws : (w s : Bytes) → all isspace w ≡ true → Head s → skip_ws (w ++ s) ≡ s
Head-skip_ws w s h k =
    skip_ws-append w s h ∙ ap skip_ws k.shape ∙ skip_ws_solid k.first k.others k.solid ∙ sym k.shape

pub Head-of : (c : ℕ) (s : Bytes) → isspace c ≡ false → (c == b']') ≡ false → Head (c ∷ s)
Head-of c s p q = record { first = c; others = s; shape = refl; solid = p; no_bracket = q }

starts_solid :
    (c : ℕ)
    → (c == b'-' || (c == b'+' || isdigit c)) ≡ true
    → (isspace c ≡ false) × ((c == b']') ≡ false)
unfolding isspace isdigit
starts_solid c h = (ground arith, ground arith)

module _ {D : Type 0} (print : D → Bytes) (stod : Bytes → Option D) (indent : ℕ) where
  pub onto-Head :
      {j : Json D}
      → IsClean print stod j
      → (level : ℕ) (r : Bytes) → Head (onto print indent j level r)
  unfolding onto isspace quoted
  onto-Head null_clean level r = Head-of b'n' _ refl refl
  onto-Head (bool_clean true) level r = Head-of b't' _ refl refl
  onto-Head (bool_clean false) level r = Head-of b'f' _ refl refl
  onto-Head (number_clean d h) level r =
      let (s, b) = starts_solid h.first h.starts in
      record {
        first = h.first;
        others = h.others ++ r;
        shape = rw h.shape;
        solid = s;
        no_bracket = b;
      }
  onto-Head (string_clean s h) level r = Head-of b'"' _ refl refl
  onto-Head (array_clean vs h) level r = Head-of b'[' _ refl refl
  onto-Head (object_clean m h) level r = Head-of b'{' _ refl refl

pub number_bytes-append :
    (s r : Bytes) → all is_number_byte s ≡ true → stops r ≡ true → number_bytes (s ++ r) ≡ (s, r)
unfolding number_bytes
number_bytes-append [] [] h k = refl
number_bytes-append [] (c ∷ r) h k = ground arith
number_bytes-append (c ∷ s) r h k =
    let (p, q) = &&-eq-true (is_number_byte c) _ h in rw (p, number_bytes-append s r q k)

all-isspace-replicate : (n : ℕ) → all isspace (replicate n b' ') ≡ true
unfolding isspace
all-isspace-replicate zero = refl
all-isspace-replicate (suc n) = all-isspace-replicate n

all-append :
    (s t : Bytes) → all isspace s ≡ true → all isspace t ≡ true → all isspace (s ++ t) ≡ true
all-append [] t h k = k
all-append (c ∷ s) t h k = let (p, q) = &&-eq-true (isspace c) _ h in rw (p, all-append s t q k)

pub newline-space : (indent : ℕ) → all isspace (newline indent) ≡ true
unfolding newline isspace
newline-space indent = elim (Bool-cases (indent == 0)) [ inl e ↦ rw e | inr e ↦ rw e ]

pub padding-space : (indent level : ℕ) → all isspace (padding indent level) ≡ true
unfolding padding
padding-space indent level = elim (Bool-cases (indent == 0)) [
  | inl e ↦ rw e
  | inr e ↦ rw e (all-isspace-replicate (level * indent))
]

pub gap_space : (indent level : ℕ) → all isspace (newline indent ++ padding indent level) ≡ true
gap_space indent level =
    all-append (newline indent) (padding indent level) (newline-space indent)
      (padding-space indent level)

-- what stands behind the last element of an array or object
pub close_stops :
    (indent level c : ℕ) (r : Bytes)
    → is_number_byte c ≡ false
    → stops (newline indent ++ (padding indent level ++ (c ∷ r))) ≡ true
unfolding newline padding is_number_byte
close_stops indent level c r h = elim (Bool-cases (indent == 0)) [
  | inl e ↦ rw e (ground arith)
  | inr e ↦ rw e
]
