-- ===== src/Json/Lines.antt =====
-- `parse_jsonl` and `dump_jsonl` of src/jsonl.cpp: one value to a line.
use acx_contact_cli.Prelude.{
  ℕ, ◌+◌, ◌≡◌, refl, ap, ◌∙◌, Bool, true, false, not, Option, List, [], ◌∷◌, ◌++◌, arith, Bytes,
  ◌==◌, all, is_empty, append-nil, if◌then◌else◌, &&-eq-true,
}
use acx_contact_cli.Utils.{lines}
use acx_contact_cli.Utils.Split.{free_of, lines-append}
use acx_contact_cli.Json.Value.{Json, Items, Members}
use acx_contact_cli.Json.Text.{
  escape_byte, escape, quoted, padding, newline, colon, no_items, no_members, comma, unless,
  dump_impl, dump, dump_jsonl,
}
use acx_contact_cli.Json.Parser.{Result, ok, ◌>>=◌, is_number_byte, parse}
use acx_contact_cli.Json.Render.{
  onto, onto_items, onto_members, dump_impl-onto, IsClean, null_clean, bool_clean, number_clean,
  string_clean, array_clean, object_clean, AreClean, nil_clean, item_clean, MembersAreClean,
  end_clean, member_clean,
}
use acx_contact_cli.Json.RoundTrip.{parse-dump}

module _ {D : Type 0} (stod : Bytes → Option D) where
  -- the loop of `parse_jsonl` over its lines; an exception leaves it
  unfoldable pub parse_lines : List Bytes → Result (List (Json D))
  parse_lines [] = ok []
  parse_lines (line ∷ rest) =
      if is_empty line
      then parse_lines rest
      else (do j ← parse stod line; js ← parse_lines rest; ok (j ∷ js))

  unfoldable pub parse_jsonl : Bytes → Result (List (Json D))
  unfolding parse_lines lines
  parse_jsonl s = parse_lines (lines s)

free-append :
    (s t : Bytes) → free_of b'\n' s ≡ true → free_of b'\n' t ≡ true → free_of b'\n' (s ++ t) ≡ true
free-append [] t h k = k
free-append (c ∷ s) t h k =
    let (p, q) = &&-eq-true (not (c == b'\n')) _ h in rw (p, free-append s t q k)

escape_byte-free : (c : ℕ) → free_of b'\n' (escape_byte c) ≡ true
unfolding escape_byte
escape_byte-free c = ground arith

escape-free : (s : Bytes) → free_of b'\n' (escape s) ≡ true
unfolding escape
escape-free [] = refl
escape-free (c ∷ s) = free-append (escape_byte c) (escape s) (escape_byte-free c) (escape-free s)

quoted-free : (s : Bytes) → free_of b'\n' (quoted s) ≡ true
unfolding quoted
quoted-free s = free-append (escape s) _ (escape-free s) refl

number-free : (s : Bytes) → all is_number_byte s ≡ true → free_of b'\n' s ≡ true
unfolding is_number_byte
number-free [] h = refl
number-free (c ∷ s) h =
    let (p, q) = &&-eq-true (is_number_byte c) _ h in rw (number-free s q) (ground (arith, p))

-- with no indentation the white space is empty, and a comma may stand
skip_unless :
    (b : Bool) (r : Bytes) → free_of b'\n' r ≡ true → free_of b'\n' (unless b [] ++ r) ≡ true
unfolding unless
skip_unless true r h = h
skip_unless false r h = h

skip_comma : (b : Bool) (r : Bytes) → free_of b'\n' r ≡ true → free_of b'\n' (comma b ++ r) ≡ true
unfolding comma
skip_comma true r h = h
skip_comma false r h = h

module _ {D : Type 0} (print : D → Bytes) (stod : Bytes → Option D) where
  -- with no indentation
  mutual
    unfolding onto newline padding colon

    onto-free :
        {j : Json D}
        → IsClean print stod j
        → (level : ℕ) (r : Bytes) → free_of b'\n' r ≡ true
        → free_of b'\n' (onto print 0 j level r) ≡ true
    onto-free null_clean level r h = h
    onto-free (bool_clean true) level r h = h
    onto-free (bool_clean false) level r h = h
    onto-free (number_clean d n) level r h =
        free-append (print d) r (number-free (print d) n.bytes) h
    onto-free (string_clean t c) level r h = free-append (quoted t) r (quoted-free t) h
    onto-free (array_clean vs c) level r h =
        skip_unless (no_items vs) _ (items-free c level _ (skip_unless (no_items vs) _ h))
    onto-free (object_clean m c) level r h =
        skip_unless (no_members m) _ (members-free c level _ (skip_unless (no_members m) _ h))

    items-free :
        {vs : Items D}
        → AreClean print stod vs
        → (level : ℕ) (r : Bytes) → free_of b'\n' r ≡ true
        → free_of b'\n' (onto_items print 0 vs level r) ≡ true
    items-free nil_clean level r h = h
    items-free (item_clean v vs cv cvs) level r h =
        onto-free cv (level + 1) _ (skip_comma (no_items vs) _ (items-free cvs level r h))

    members-free :
        {m : Members D}
        → MembersAreClean print stod m
        → (level : ℕ) (r : Bytes) → free_of b'\n' r ≡ true
        → free_of b'\n' (onto_members print 0 m level r) ≡ true
    members-free end_clean level r h = h
    members-free (member_clean k v m ck cv am cm) level r h =
        free-append (quoted k) _ (quoted-free k)
          (onto-free cv (level + 1) _ (skip_comma (no_members m) _ (members-free cm level r h)))

  -- values that are all clean
  abbrev pub AllClean : List (Json D) → Type 0
  AllClean [] = Unit
  AllClean (j ∷ js) = IsClean print stod j × AllClean js

  dump-free : {j : Json D} → IsClean print stod j → free_of b'\n' (dump print 0 j) ≡ true
  unfolding dump
  dump-free {j} c =
      rw (← append-nil (dump_impl print 0 j 0), dump_impl-onto print 0 j 0 [])
        (onto-free c 0 [] refl)

  parsed_line : (line : Bytes) {j : Json D} → parse stod line ≡ ok j → is_empty line ≡ false
  parsed_line [] p = unfold parse in absurd (cc p)
  parsed_line (c ∷ line) p = refl

  parse_lines_cons :
      (line : Bytes) (rest : List Bytes) (j : Json D)
      → parse stod line ≡ ok j
      → parse_lines stod (line ∷ rest) ≡ (parse_lines stod rest >>= λ js. ok (j ∷ js))
  unfolding parse_lines
  parse_lines_cons line rest j p = rw (parsed_line line p, p)

  -- Reading a JSON Lines text back gives the values that were written, in order, where each is
  -- clean: its numbers readable, its strings free of the lost control bytes, its keys ascending.
  pub parse_jsonl-dump_jsonl :
      (js : List (Json D)) → AllClean js → parse_jsonl stod (dump_jsonl print js) ≡ ok js
  unfolding parse_jsonl dump_jsonl
  parse_jsonl-dump_jsonl [] c = refl
  parse_jsonl-dump_jsonl (j ∷ js) c =
      ap (parse_lines stod) (lines-append (dump print 0 j) (dump_jsonl print js) (dump-free c.0))
      ∙ parse_lines_cons (dump print 0 j) (lines (dump_jsonl print js)) j
          (parse-dump print stod 0 c.0)
      ∙ rw (parse_jsonl-dump_jsonl js c.1)
