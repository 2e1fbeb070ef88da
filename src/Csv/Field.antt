-- ===== src/Csv/Field.antt =====
-- How src/csv.cpp scans one field that `csv_escape` of src/storage.cpp wrote.
use acx_contact_cli.Prelude.{
  ℕ, ◌≡◌, refl, ap, ◌∙◌, Bool, true, false, not, ◌&&◌, ◌||◌, [], ◌∷◌, ◌++◌, arith, Bytes, ◌==◌, all,
  append_assoc, append-nil, Bool-cases, inl, inr, &&-eq-true, sym,
}
use acx_contact_cli.Csv.{Scan, push, next_is, scan, is_special, double_quotes, csv_escape}

-- A field that comes back: where it holds a carriage return, it is quoted for another reason.
abbrev pub is_safe : Bytes → Bool
is_safe s = all (λ c. not (c == b'\r')) s || not (all (λ c. not (is_special c)) s)

abbrev plain_byte : ℕ → Bool
plain_byte c = not (is_special c) && not (c == b'\r')

scan_plain :
    (f rest : Bytes) (s : Scan)
    → s.in_quotes ≡ false
    → all plain_byte f ≡ true
    → scan false s (f ++ rest) ≡ scan false (record s { field = s.field ++ f }) rest
unfolding scan
scan_plain [] rest s q h = rw append-nil
scan_plain (c ∷ f) rest s q h =
    let (p, t) = &&-eq-true (plain_byte c) _ h in
    ground (arith, scan_plain f rest (push s c), append_assoc s.field (c ∷ []) f)

scan_quoted :
    (f rest : Bytes) (s : Scan)
    → s.in_quotes ≡ true
    → next_is b'"' rest ≡ false
    → scan false s (double_quotes f ++ (b'"' ∷ rest))
      ≡ scan false (record s { field = s.field ++ f; in_quotes = false }) rest
unfolding scan double_quotes
scan_quoted [] rest s q h = rw (q, h, append-nil)
scan_quoted (c ∷ f) rest s q h =
    ground (arith, scan_quoted f rest (push s c), append_assoc s.field (c ∷ []) f)

plain_all :
    (f : Bytes)
    → all (λ c. not (is_special c)) f ≡ true
    → all (λ c. not (c == b'\r')) f ≡ true
    → all plain_byte f ≡ true
plain_all [] h k = refl
plain_all (c ∷ f) h k =
    let (p, t) = &&-eq-true (not (is_special c)) _ h in
    let (q, u) = &&-eq-true (not (c == b'\r')) _ k in rw (p, q) (plain_all f t u)

or_left : (a b : Bool) → b ≡ true → (a || not b) ≡ true → a ≡ true
or_left a b h k = ground arith

-- A field written by `csv_escape` is scanned to its bytes, and the scan stands outside quotation
-- marks behind it, where the field is safe and no quotation mark follows.
pub scan-csv_escape :
    (f rest : Bytes) (s : Scan)
    → s.in_quotes ≡ false
    → is_safe f ≡ true
    → next_is b'"' rest ≡ false
    → scan false s (csv_escape f ++ rest) ≡ scan false (record s { field = s.field ++ f }) rest
unfolding csv_escape
scan-csv_escape f rest s q h n = elim (Bool-cases (all (λ c. not (is_special c)) f)) [
  | inl e ↦ rw e (scan_plain f rest s q (plain_all f e (no_return e)))
  | inr e ↦ rw e (
      quote_first s q (double_quotes f ++ b'"' ∷ [])
      ∙ ap (scan false (record s { in_quotes = true }))
          (append_assoc (double_quotes f) (b'"' ∷ []) rest)
      ∙ scan_quoted f rest (record s { in_quotes = true }) refl n
      ∙ ap (λ b. scan false (record s { field = s.field ++ f; in_quotes = b }) rest) (sym q))
]
  where
    no_return : all (λ c. not (is_special c)) f ≡ true → all (λ c. not (c == b'\r')) f ≡ true
    no_return e = or_left _ _ e h

    quote_first :
        (s : Scan)
        → s.in_quotes ≡ false
        → (t : Bytes)
        → scan false s (b'"' ∷ (t ++ rest)) ≡ scan false (record s { in_quotes = true }) (t ++ rest)
    quote_first s q t = unfold scan in (rw q)
