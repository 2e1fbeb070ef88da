-- ===== src/Csv/RoundTrip.antt =====
-- src/csv.cpp reads back the rows that are written with `csv_escape`, commas and newlines, but not
-- with a newline behind the last row, which is how `export_data` of src/storage.cpp writes them.
use acx_contact_cli.Prelude.{
  ℕ, ◌≡◌, ◌≢◌, refl, ap, ◌∙◌, true, false, List, [], ◌∷◌, ◌++◌, arith, Bytes, ◌==◌, all,
  append_assoc, append-nil, &&-eq-true, sym, length,
}
use acx_contact_cli.Csv.{Scan, scan, initial, finish, same_width, csv_parse_rfc4180, csv_escape}
use acx_contact_cli.Csv.Field.{is_safe, scan-csv_escape}

-- one row, and the rows each with a newline behind it
abbrev pub row_text : List Bytes → Bytes
row_text [] = []
row_text (f ∷ []) = csv_escape f
row_text (f ∷ g ∷ fs) = csv_escape f ++ (b',' ∷ row_text (g ∷ fs))

abbrev pub rows_text : List (List Bytes) → Bytes
rows_text [] = []
rows_text (r ∷ rows) = row_text r ++ (b'\n' ∷ rows_text rows)

-- the scan between two fields
abbrev at : List (List Bytes) → List Bytes → Scan
at out row = record { out = out; row = row; field = []; in_quotes = false }

scan_comma :
    (out : List (List Bytes)) (row : List Bytes) (f rest : Bytes)
    → scan false (record { out = out; row = row; field = f; in_quotes = false }) (b',' ∷ rest)
      ≡ scan false (at out (row ++ f ∷ [])) rest
unfolding scan
scan_comma out row f rest = refl

scan_newline :
    (out : List (List Bytes)) (row : List Bytes) (f rest : Bytes)
    → scan false (record { out = out; row = row; field = f; in_quotes = false }) (b'\n' ∷ rest)
      ≡ scan false (at (out ++ (row ++ f ∷ []) ∷ []) []) rest
unfolding scan
scan_newline out row f rest = refl

scan_row :
    (out : List (List Bytes)) (row fs : List Bytes) (rest : Bytes)
    → fs ≢ []
    → all is_safe fs ≡ true
    → scan false (at out row) (row_text fs ++ (b'\n' ∷ rest))
      ≡ scan false (at (out ++ (row ++ fs) ∷ []) []) rest
scan_row out row [] rest n h = absurd (n refl)
scan_row out row (f ∷ []) rest n h =
    scan-csv_escape f (b'\n' ∷ rest) (at out row) refl (&&-eq-true (is_safe f) _ h).0 refl
    ∙ scan_newline out row f rest
scan_row out row (f ∷ g ∷ fs) rest n h =
    let (p, q) = &&-eq-true (is_safe f) _ h in
    ap (scan false (at out row))
      (append_assoc (csv_escape f) (b',' ∷ row_text (g ∷ fs)) (b'\n' ∷ rest))
    ∙ scan-csv_escape f (b',' ∷ (row_text (g ∷ fs) ++ (b'\n' ∷ rest))) (at out row) refl p refl
    ∙ scan_comma out row f (row_text (g ∷ fs) ++ (b'\n' ∷ rest))
    ∙ scan_row out (row ++ f ∷ []) (g ∷ fs) rest (λ e. cc) q
    ∙ ap (λ r. scan false (at (out ++ r ∷ []) []) rest) (append_assoc row (f ∷ []) (g ∷ fs))

finish_row :
    (out : List (List Bytes)) (row fs : List Bytes)
    → fs ≢ []
    → all is_safe fs ≡ true
    → finish (scan false (at out row) (row_text fs)) ≡ out ++ (row ++ fs) ∷ []
finish_row out row [] n h = absurd (n refl)
finish_row out row (f ∷ []) n h =
    ap (λ t. finish (scan false (at out row) t)) (sym (append-nil (csv_escape f)))
    ∙ ap finish (scan-csv_escape f [] (at out row) refl (&&-eq-true (is_safe f) _ h).0 refl)
    ∙ unfold scan in refl
finish_row out row (f ∷ g ∷ fs) n h =
    let (p, q) = &&-eq-true (is_safe f) _ h in
    ap finish (
      scan-csv_escape f (b',' ∷ row_text (g ∷ fs)) (at out row) refl p refl
      ∙ scan_comma out row f (row_text (g ∷ fs)))
    ∙ finish_row out (row ++ f ∷ []) (g ∷ fs) (λ e. cc) q
    ∙ ap (λ r. out ++ r ∷ []) (append_assoc row (f ∷ []) (g ∷ fs))

-- Rows that can be written: each has a field, and its fields are safe.
abbrev pub AllWritable : List (List Bytes) → Type 0
AllWritable [] = Unit
AllWritable (r ∷ rows) = (r ≢ []) × (all is_safe r ≡ true) × AllWritable rows

scan_rows :
    (out rows : List (List Bytes)) (rest : Bytes)
    → AllWritable rows
    → scan false (at out []) (rows_text rows ++ rest) ≡ scan false (at (out ++ rows) []) rest
scan_rows out [] rest w = rw append-nil
scan_rows out (r ∷ rows) rest w =
    ap (scan false (at out [])) (append_assoc (row_text r) (b'\n' ∷ rows_text rows) rest)
    ∙ scan_row out [] r (rows_text rows ++ rest) w.0 w.1
    ∙ scan_rows (out ++ r ∷ []) rows rest w.2
    ∙ ap (λ o. scan false (at o []) rest) (append_assoc out (r ∷ []) rows)

finish_rows :
    (rows : List (List Bytes)) (last : List Bytes)
    → AllWritable rows
    → last ≢ []
    → all is_safe last ≡ true
    → finish (scan false initial (rows_text rows ++ row_text last)) ≡ rows ++ last ∷ []
finish_rows rows last w n h =
    ap finish (scan_rows [] rows (row_text last) w) ∙ finish_row rows [] last n h

-- Rows written with `csv_escape`, a comma between fields and a newline between rows are read back
-- as they are, and are accepted exactly when they all have the first row's width, where every row
-- has a field and a field with a carriage return also has a comma, a quotation mark or a newline.
pub csv_parse-rows_text :
    (rows : List (List Bytes)) (last : List Bytes)
    → AllWritable rows
    → last ≢ []
    → all is_safe last ≡ true
    → csv_parse_rfc4180 (rows_text rows ++ row_text last)
      ≡ (rows ++ last ∷ [], same_width (rows ++ last ∷ []))
unfolding csv_parse_rfc4180
csv_parse-rows_text rows last w n h = ap (λ r. (r, same_width r)) (finish_rows rows last w n h)

same_width_last :
    (w : ℕ) (rows : List (List Bytes))
    → (1 == w) ≡ false
    → all (λ x. length x == w) (rows ++ ([] ∷ []) ∷ []) ≡ false
same_width_last w [] h = rw h
same_width_last w (r ∷ rows) h = ground (arith, same_width_last w rows h)

-- A text in which a newline stands behind every row, the last one too, is refused as having an
-- inconsistent column count, where its first row does not have exactly one field and all its rows
-- can be written.
pub csv_parse_refuses_export :
    (first : List Bytes) (rows : List (List Bytes))
    → AllWritable (first ∷ rows)
    → (length first == 1) ≡ false
    → (csv_parse_rfc4180 (rows_text (first ∷ rows))).1 ≡ false
unfolding csv_parse_rfc4180
csv_parse_refuses_export first rows w h =
    ap (λ t. same_width (finish (scan false initial t)))
      (sym (append-nil (rows_text (first ∷ rows))))
    ∙ ap (λ s. same_width (finish s)) (scan_rows [] (first ∷ rows) [] w)
    ∙ unfold scan in (same_width_last (length first) (first ∷ rows) (flip_test (length first) h))
  where
    flip_test : (n : ℕ) → (n == 1) ≡ false → (1 == n) ≡ false
    flip_test n h = ground arith
