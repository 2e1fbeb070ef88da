-- ===== src/Validation.antt =====
-- src/validation.cpp: the field validators and the two normalisers that make index keys.
-- The regular expression of `is_valid_email` is read as a backtracking match of its parts.
-- `std::getenv` and the libphonenumber build enter as arguments.
pub mod Name
pub mod Email
pub mod Phone
use acx_contact_cli.Prelude.{
  ℕ, ◌+◌, Bool, true, false, ◌&&◌, ◌||◌, Option, none, some, List, [], ◌∷◌, ◌++◌, map, Bytes, codes,
  same, isalpha, isdigit, isspace, tolower, ltb, leb, ◌==◌, if◌then◌else◌, length, all, keep,
  is_empty,
}

-- the bytes that the loop of `is_valid_name` passes over besides letters
unfoldable pub is_name_mark : ℕ → Bool
unfolding isspace
is_name_mark c = isspace c || c == b'-' || c == b'\''

-- the loop of `is_valid_name`, with its counter
unfoldable pub name_loop : ℕ → Bytes → Bool
unfolding is_name_mark isalpha
name_loop letters [] = leb 2 letters
name_loop letters (c ∷ cs) =
    let counted = name_loop (letters + 1) cs in
    let passed = name_loop letters cs in
    if isalpha c then counted else if is_name_mark c then passed else false

unfoldable pub is_valid_name : Bytes → Bool
unfolding name_loop
is_valid_name name = if ltb (length name) 2 then false else name_loop 0 name

-- [A-Za-z0-9._%+-]
unfoldable pub is_local_byte : ℕ → Bool
unfolding isalpha isdigit
is_local_byte c =
    isalpha c || isdigit c || c == b'.' || c == b'_' || c == b'%' || c == b'+' || c == b'-'

-- [A-Za-z0-9.-]
unfoldable pub is_domain_byte : ℕ → Bool
unfolding isalpha isdigit
is_domain_byte c = isalpha c || isdigit c || c == b'.' || c == b'-'

-- [A-Za-z]{2,}$
unfoldable pub match_tld : Bytes → Bool
unfolding isalpha
match_tld s = leb 2 (length s) && all isalpha s

-- [A-Za-z0-9.-]+\.[A-Za-z]{2,}$ ; the flag says that the class has matched a byte
unfoldable pub match_domain : Bool → Bytes → Bool
unfolding is_domain_byte match_tld
match_domain seen [] = false
match_domain seen (c ∷ cs) =
    (seen && (c == b'.' && match_tld cs)) || (is_domain_byte c && match_domain true cs)

-- ^[A-Za-z0-9._%+-]+@ and the rest of the pattern
unfoldable pub match_local : Bool → Bytes → Bool
unfolding is_local_byte match_domain
match_local seen [] = false
match_local seen (c ∷ cs) =
    (seen && (c == b'@' && match_domain false cs)) || (is_local_byte c && match_local true cs)

unfoldable pub is_valid_email : Bytes → Bool
unfolding match_local
is_valid_email email = match_local false email

unfoldable pub to_lower_ascii : Bytes → Bytes
unfolding tolower
to_lower_ascii s = map tolower s

-- std::getenv
abbrev pub Environment : Type 0
Environment = Bytes → Option Bytes

unfoldable pub env_default_country : Environment → Bytes
env_default_country getenv = elim (getenv (codes "ACX_DEFAULT_COUNTRY")) [
  | some v ↦ v
  | none ↦ codes "US"
]

unfoldable pub country_code : Bytes → Bytes
unfolding same
country_code country =
    if same country (codes "MX")
    then codes "+52"
    else if same country (codes "US")
    then codes "+1"
    else if same country (codes "GB")
    then codes "+44"
    else if same country (codes "ES")
    then codes "+34"
    else if same country (codes "BR")
    then codes "+55"
    else codes "+1"

abbrev pub digits_of : Bytes → Bytes
digits_of = keep isdigit

-- `phone.size()>0 && phone[0]=='+'`
abbrev pub starts_with_plus : Bytes → Bool
starts_with_plus [] = false
starts_with_plus (c ∷ cs) = c == b'+'

unfoldable pub normalize_phone_e164 : Bytes → Bytes → Bytes
unfolding country_code isdigit
normalize_phone_e164 phone country =
    let d = digits_of phone in
    if is_empty d
    then d
    else if starts_with_plus phone
    then b'+' ∷ d
    else if leb 10 (length d)
    then country_code country ++ d
    else d

-- libphonenumber's Parse and Format to E.164, given a region and a number: `none` where parsing
-- fails, or where the program is built without the library.
abbrev pub PhoneLibrary : Type 0
PhoneLibrary = Bytes → Bytes → Option Bytes

abbrev pub without_library : PhoneLibrary
without_library region phone = none

unfoldable pub normalize_phone : PhoneLibrary → Environment → Bytes → Bytes
unfolding normalize_phone_e164 env_default_country
normalize_phone library getenv phone = elim (library (env_default_country getenv) phone) [
  | some e164 ↦ e164
  | none ↦ normalize_phone_e164 phone (env_default_country getenv)
]

unfoldable pub is_valid_phone : PhoneLibrary → Environment → Bytes → Bool
unfolding normalize_phone
is_valid_phone library getenv phone = leb 10 (length (normalize_phone library getenv phone))
