-- ===== src/Json/Shapes.antt =====
-- src/jsonl.cpp: the parser on each shape of value, given the parts.
use acx_contact_cli.Prelude.{
  ℕ, suc, ◌≡◌, refl, ap, ◌∙◌, sym, Bool, true, false, ◌||◌, Option, [], ◌∷◌, ◌++◌, arith, Bytes,
  codes, isspace, isdigit, ◌==◌, all, append_assoc, if◌then◌else◌, same,
}
use acx_contact_cli.Json.Value.{
  null, bool, number, string, array, object, Items, nil, item, Members, end, member,
}
use acx_contact_cli.Json.Text.{quoted, padding, newline, no_items, no_members, comma}
use acx_contact_cli.Json.Parser.{
  Result, ok, ◌>>=◌, skip_ws, parse_string, is_number_byte, parse_number, array_body, object_body,
  value_at, parse_value, parse_items, parse_members,
}
use acx_contact_cli.Json.Strings.{
  survives, parse_string-quoted, keep-all, skip_ws-append, skip_ws_solid,
}
use acx_contact_cli.Json.Render.{onto, onto_items, onto_members, IsReadable, number_clean}
use acx_contact_cli.Json.Layout.{
  stops, Head, Head-of, Head-skip_ws, onto-Head, number_bytes-append, newline-space, padding-space,
  gap_space, close_stops,
}

module _ {D : Type 0} (print : D → Bytes) (stod : Bytes → Option D) (indent : ℕ) where
  -- what stands behind an element of an array, and behind a member of an object
  abbrev pub items_tail : Items D → ℕ → Bytes → Bytes
  items_tail vs level r =
      comma (no_items vs)
      ++ (newline indent ++ onto_items print indent vs level (padding indent level ++ (b']' ∷ r)))

  abbrev pub members_tail : Members D → ℕ → Bytes → Bytes
  members_tail m level r =
      comma (no_members m)
      ++ (newline indent ++ onto_members print indent m level (padding indent level ++ (b'}' ∷ r)))

  pub items_tail-stops :
      (vs : Items D) (level : ℕ) (r : Bytes) → stops (items_tail vs level r) ≡ true
  unfolding comma no_items onto is_number_byte
  items_tail-stops nil level r = close_stops indent level b']' r refl
  items_tail-stops (item v vs) level r = refl

  pub members_tail-stops :
      (m : Members D) (level : ℕ) (r : Bytes) → stops (members_tail m level r) ≡ true
  unfolding comma no_members onto is_number_byte
  members_tail-stops end level r = close_stops indent level b'}' r refl
  members_tail-stops (member k v m) level r = refl

  pub skip_gap :
      (level c : ℕ) (r : Bytes)
      → isspace c ≡ false
      → skip_ws (newline indent ++ (padding indent level ++ (c ∷ r))) ≡ c ∷ r
  skip_gap level c r h =
      skip_ws-append (newline indent) _ (newline-space indent)
      ∙ skip_ws-append (padding indent level) _ (padding-space indent level)
      ∙ skip_ws_solid c r h

  pub gap :
      (level : ℕ) (s : Bytes)
      → newline indent ++ (padding indent level ++ s)
        ≡ (newline indent ++ padding indent level) ++ s
  gap level s = sym (append_assoc (newline indent) (padding indent level) s)

  pub parse_value-suc :
      (f : ℕ) (s : Bytes)
      → parse_value stod (suc f) s
        ≡ value_at stod (parse_items stod f) (parse_members stod f end) (skip_ws s)
  unfolding parse_value
  parse_value-suc f s = refl

  pub array_body_ok :
      (items : Bytes → Result (Items D × Bytes)) (s r : Bytes) (vs : Items D)
      → Head s
      → items s ≡ ok (vs, r)
      → array_body stod items s ≡ ok (array vs, r)
  unfolding array_body
  array_body_ok items s r vs k q =
      ap (array_body stod items) k.shape ∙ rw (k.no_bracket) (rw (← k.shape) (rw q))

  pub array_ok :
      (f level : ℕ) (s r : Bytes) (vs : Items D)
      → Head s
      → parse_items stod f s ≡ ok (vs, r)
      → parse_value stod (suc f) (b'[' ∷ (newline indent ++ (padding indent level ++ s)))
        ≡ ok (array vs, r)
  unfolding parse_value value_at isspace skip_ws
  array_ok f level s r vs k q =
      ap (λ x. array_body stod (parse_items stod f) (skip_ws x)) (gap level s)
      ∙ ap (array_body stod (parse_items stod f))
          (Head-skip_ws (newline indent ++ padding indent level) s (gap_space indent level) k)
      ∙ array_body_ok (parse_items stod f) s r vs k q

  pub quoted-Head : (k x : Bytes) → Head (quoted k ++ x)
  unfolding quoted isspace
  quoted-Head k x = Head-of b'"' _ refl refl

  pub object_body_ok :
      (members : Bytes → Result (Members D × Bytes)) (k x r : Bytes) (m : Members D)
      → members (quoted k ++ x) ≡ ok (m, r)
      → object_body stod members (quoted k ++ x) ≡ ok (object m, r)
  unfolding object_body quoted
  object_body_ok members k x r m q = rw q

  pub object_ok :
      (f level : ℕ) (k x r : Bytes) (m : Members D)
      → parse_members stod f end (quoted k ++ x) ≡ ok (m, r)
      → parse_value stod
          (suc f)
          (b'{' ∷ (newline indent ++ (padding indent level ++ (quoted k ++ x))))
        ≡ ok (object m, r)
  unfolding parse_value value_at isspace skip_ws
  object_ok f level k x r m q =
      ap (λ x. object_body stod (parse_members stod f end) (skip_ws x)) (gap level (quoted k ++ x))
      ∙ ap (object_body stod (parse_members stod f end)) (
          Head-skip_ws (newline indent ++ padding indent level) (quoted k ++ x)
            (gap_space indent level) (quoted-Head k x))
      ∙ object_body_ok (parse_members stod f end) k x r m q

  pub value_at_number :
      (items : Bytes → Result (Items D × Bytes)) (members : Bytes → Result (Members D × Bytes))
      (c : ℕ) (s : Bytes)
      → (c == b'-' || (c == b'+' || isdigit c)) ≡ true
      → value_at stod items members (c ∷ s)
        ≡ (parse_number stod (c ∷ s) >>= λ x. ok (number x.0, x.1))
  unfolding value_at same isdigit
  value_at_number items members c s h = ground arith

  pub parse_number_ok :
      (d : D) (r : Bytes)
      → IsReadable print stod d
      → stops r ≡ true
      → parse_number stod (print d ++ r) ≡ ok (d, r)
  unfolding parse_number
  parse_number_ok d r n h =
      rw (number_bytes-append (print d) r n.bytes h, parse_number, n.reads)
        (rw (number_bytes-append (print d) r n.bytes h))

  pub number_ok :
      (f : ℕ) (d : D) (r : Bytes)
      → IsReadable print stod d
      → stops r ≡ true
      → parse_value stod (suc f) (print d ++ r) ≡ ok (number d, r)
  number_ok f d r n h =
      parse_value-suc f (print d ++ r)
      ∙ ap (value_at stod (parse_items stod f) (parse_members stod f end))
          (Head-skip_ws [] (print d ++ r) refl (number-Head d r n) ∙ ap (λ x. x ++ r) n.shape)
      ∙ value_at_number (parse_items stod f) (parse_members stod f end) n.first (n.others ++ r)
          n.starts
      ∙ ap (λ x. parse_number stod (x ++ r) >>= λ x. ok (number x.0, x.1)) (sym n.shape)
      ∙ rw (parse_number_ok d r n h)
    where
      number-Head : (d : D) (r : Bytes) → IsReadable print stod d → Head (print d ++ r)
      number-Head d r n = unfold onto in onto-Head print stod 0 (number_clean d n) 0 r

  pub value_at_string :
      (items : Bytes → Result (Items D × Bytes)) (members : Bytes → Result (Members D × Bytes))
      (t r : Bytes)
      → value_at stod items members (quoted t ++ r)
        ≡ (parse_string (quoted t ++ r) >>= λ x. ok (string x.0, x.1))
  unfolding value_at quoted
  value_at_string items members t r = refl

  pub string_ok :
      (f : ℕ) (t r : Bytes)
      → all survives t ≡ true
      → parse_value stod (suc f) (quoted t ++ r) ≡ ok (string t, r)
  string_ok f t r c =
      parse_value-suc f (quoted t ++ r)
      ∙ ap (value_at stod (parse_items stod f) (parse_members stod f end))
          (Head-skip_ws [] (quoted t ++ r) refl (quoted-Head t r))
      ∙ value_at_string (parse_items stod f) (parse_members stod f end) t r
      ∙ rw (parse_string-quoted t r, keep-all t c)

  pub null_ok : (f : ℕ) (r : Bytes) → parse_value stod (suc f) (codes "null" ++ r) ≡ ok (null, r)
  unfolding parse_value isspace
  null_ok f r = refl

  pub bool_ok :
      (f : ℕ) (b : Bool) (r : Bytes)
      → parse_value stod (suc f) ((if b then codes "true" else codes "false") ++ r) ≡ ok (bool b, r)
  unfolding parse_value isspace
  bool_ok f true r = refl
  bool_ok f false r = refl

  pub empty_ok :
      (f : ℕ) (r : Bytes)
      → (parse_value stod (suc f) (b'[' ∷ b']' ∷ r) ≡ ok (array nil, r))
        × (parse_value stod (suc f) (b'{' ∷ b'}' ∷ r) ≡ ok (object end, r))
  unfolding parse_value isspace
  empty_ok f r = (refl, refl)
