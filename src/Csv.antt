-- ===== src/Csv.antt =====
-- src/csv.cpp: the parser after RFC 4180, as a state machine with one byte of lookahead; and
-- `csv_escape` of src/storage.cpp, which writes what it reads. (In the source two string literals of
-- `csv_escape` have lost the backslash before a quotation mark; they are read with it.)
pub mod Field
pub mod RoundTrip
use acx_contact_cli.Prelude.{
  ℕ, zero, suc, Bool, true, false, not, ◌&&◌, ◌||◌, Option, none, some, List, [], ◌∷◌, ◌++◌, Bytes,
  ◌==◌, if◌then◌else◌, length, all,
}

-- the local variables of the loop
pub record Scan : Type 0 where
  pub out : List (List Bytes)
  pub row : List Bytes
  pub field : Bytes
  pub in_quotes : Bool

abbrev pub push : Scan → ℕ → Scan
push s c = record s { field = s.field ++ c ∷ [] }

-- `row.push_back(field); field.clear();`
abbrev pub end_field : Scan → Scan
end_field s = record s { row = s.row ++ s.field ∷ []; field = [] }

-- `row.push_back(field); field.clear(); out.push_back(row); row.clear();`
abbrev pub end_row : Scan → Scan
end_row s = record s { out = s.out ++ (s.row ++ s.field ∷ []) ∷ []; row = []; field = [] }

-- `i+1<input.size() && input[i+1]==c`
abbrev pub next_is : ℕ → Bytes → Bool
next_is c [] = false
next_is c (d ∷ rest) = d == c

-- One round at the byte `c` with `rest` behind it; the flag says that the round takes the next byte
-- too.
unfoldable pub step : Scan → ℕ → Bytes → Scan × Bool
step s c rest =
    if s.in_quotes
    then (if c == b'"'
        then (if next_is b'"' rest
            then (push s b'"', true)
            else (record s { in_quotes = false }, false))
        else (push s c, false))
    else if c == b'"'
    then (record s { in_quotes = true }, false)
    else if c == b','
    then (end_field s, false)
    else if c == b'\r'
    then (end_row s, next_is b'\n' rest)
    else if c == b'\n'
    then (end_row s, false)
    else (push s c, false)

-- the loop; the flag says that its first byte has been taken
unfoldable pub scan : Bool → Scan → Bytes → Scan
unfolding step
scan skip s [] = s
scan true s (c ∷ rest) = scan false s rest
scan false s (c ∷ rest) = let (s', skip) = step s c rest in scan skip s' rest

abbrev pub initial : Scan
initial = record { out = []; row = []; field = []; in_quotes = false }

-- `row.push_back(field); if (!row.empty()) out.push_back(row);`
abbrev pub finish : Scan → List (List Bytes)
finish s = s.out ++ (s.row ++ s.field ∷ []) ∷ []

-- the check that all rows have the width of the first
abbrev pub same_width : List (List Bytes) → Bool
same_width [] = true
same_width (r ∷ rows) = all (λ x. length x == length r) (r ∷ rows)

-- the rows, and the result: false is the error "Inconsistent column count"
unfoldable pub csv_parse_rfc4180 : Bytes → List (List Bytes) × Bool
unfolding scan
csv_parse_rfc4180 input = let rows = finish (scan false initial input) in (rows, same_width rows)

abbrev pub is_special : ℕ → Bool
is_special c = c == b',' || (c == b'"' || c == b'\n')

-- every quotation mark twice
unfoldable pub double_quotes : Bytes → Bytes
double_quotes [] = []
double_quotes (c ∷ s) =
    let rest = double_quotes s in if c == b'"' then b'"' ∷ b'"' ∷ rest else c ∷ rest

unfoldable pub csv_escape : Bytes → Bytes
unfolding double_quotes
csv_escape s = if all (λ c. not (is_special c)) s then s else b'"' ∷ (double_quotes s ++ b'"' ∷ [])
