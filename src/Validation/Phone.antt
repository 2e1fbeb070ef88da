-- ===== src/Validation/Phone.antt =====
-- The normalisers of src/validation.cpp are idempotent, as index keys need.
use acx_contact_cli.Prelude.{
  ℕ, ◌≡◌, refl, sym, ap, ◌∙◌, Bool, true, false, [], ◌∷◌, ◌++◌, arith, Bytes, codes, isdigit,
  tolower, leb, length, is_empty, Bool-cases, if◌then◌else◌, inl, inr,
}
use acx_contact_cli.Validation.{
  to_lower_ascii, country_code, digits_of, starts_with_plus, normalize_phone_e164, without_library,
  Environment, env_default_country, normalize_phone,
}

tolower_idem : (c : ℕ) → tolower (tolower c) ≡ tolower c
unfolding tolower
tolower_idem c = ground arith

-- Lowering a text twice is lowering it once.
pub to_lower_ascii_idem : (s : Bytes) → to_lower_ascii (to_lower_ascii s) ≡ to_lower_ascii s
unfolding to_lower_ascii
to_lower_ascii_idem [] = refl
to_lower_ascii_idem (c ∷ s) = cc (tolower_idem c, to_lower_ascii_idem s)

digits_of_idem : (s : Bytes) → digits_of (digits_of s) ≡ digits_of s
digits_of_idem [] = refl
digits_of_idem (c ∷ s) = elim (Bool-cases (isdigit c)) [
  | inl d ↦ rw (d, d) (ap (◌∷◌ c) (digits_of_idem s))
  | inr n ↦ rw n (digits_of_idem s)
]

plus_not_first : (s : Bytes) → starts_with_plus (digits_of s) ≡ false
plus_not_first [] = refl
plus_not_first (c ∷ s) = elim (Bool-cases (isdigit c)) [
  | inl d ↦ rw d (unfold isdigit in ground arith)
  | inr n ↦ rw n (plus_not_first s)
]

-- a country code is a plus sign and at least one digit
record IsCode (c : Bytes) : Type 0 where
  tail : Bytes
  shape : c ≡ b'+' ∷ tail
  digits : digits_of tail ≡ tail
  found : is_empty tail ≡ false

IsCode-if : (b : Bool) (x y : Bytes) → IsCode x → IsCode y → IsCode (if b then x else y)
IsCode-if true x y p q = p
IsCode-if false x y p q = q

country_code-IsCode : (country : Bytes) → IsCode (country_code country)
unfolding country_code isdigit
country_code-IsCode country =
    IsCode-if _ _ _ (record { tail = codes "52"; shape = refl; digits = refl; found = refl })
      (IsCode-if _ _ _ us (
        IsCode-if _ _ _ (record { tail = codes "44"; shape = refl; digits = refl; found = refl })
          (IsCode-if _ _ _ (record { tail = codes "34"; shape = refl; digits = refl; found = refl })
            (IsCode-if _ _ _
              (record { tail = codes "55"; shape = refl; digits = refl; found = refl }) us))))
  where
    us : IsCode (codes "+1")
    us = record { tail = codes "1"; shape = refl; digits = refl; found = refl }

digits_of-append : (s t : Bytes) → digits_of (s ++ t) ≡ digits_of s ++ digits_of t
digits_of-append [] t = refl
digits_of-append (c ∷ s) t = elim (Bool-cases (isdigit c)) [
  | inl d ↦ rw d (ap (◌∷◌ c) (digits_of-append s t))
  | inr n ↦ rw n (digits_of-append s t)
]

is_empty-append : (s t : Bytes) → is_empty s ≡ false → is_empty (s ++ t) ≡ false
is_empty-append [] t h = absurd (cc)
is_empty-append (c ∷ s) t h = refl

-- what is in international form stays as it is
normalize_international :
    (d country : Bytes)
    → digits_of d ≡ d
    → is_empty d ≡ false
    → normalize_phone_e164 (b'+' ∷ d) country ≡ b'+' ∷ d
unfolding normalize_phone_e164
normalize_international d country h e = rw (h, e)

normalize_short :
    (d country : Bytes)
    → digits_of d ≡ d
    → starts_with_plus d ≡ false
    → leb 10 (length d) ≡ false
    → normalize_phone_e164 d country ≡ d
unfolding normalize_phone_e164
normalize_short d country h p l = rw h (ground (arith, p, l))

normalize_national :
    (d country : Bytes)
    → digits_of d ≡ d
    → normalize_phone_e164 (country_code country ++ d) country ≡ country_code country ++ d
normalize_national d country h =
    let k = country_code-IsCode country in
    rw (k.shape) (
      normalize_international (k.tail ++ d) country (digits_of-append k.tail d ∙ rw (k.digits, h))
        (is_empty-append k.tail d k.found))

-- the four branches: nothing to keep, international, national, too short for a code
data Normalized (phone country : Bytes) : Type 0 where
  plain :
      starts_with_plus (digits_of phone) ≡ false
      → leb 10 (length (digits_of phone)) ≡ false
      → normalize_phone_e164 phone country ≡ digits_of phone
      → Normalized phone country
  international :
      is_empty (digits_of phone) ≡ false
      → normalize_phone_e164 phone country ≡ b'+' ∷ digits_of phone
      → Normalized phone country
  national :
      normalize_phone_e164 phone country ≡ country_code country ++ digits_of phone
      → Normalized phone country

length-is_empty : (s : Bytes) → is_empty s ≡ true → leb 10 (length s) ≡ false
length-is_empty [] h = refl
length-is_empty (c ∷ s) h = absurd (cc)

normalize-Normalized : (phone country : Bytes) → Normalized phone country
unfolding normalize_phone_e164
normalize-Normalized phone country = elim (Bool-cases (is_empty (digits_of phone))) [
  | inl e ↦ plain (plus_not_first phone) (length-is_empty _ e) (rw e refl)
  | inr e ↦ elim (Bool-cases (starts_with_plus phone)) [
    | inl p ↦ international e (rw (e, p) refl)
    | inr p ↦ elim (Bool-cases (leb 10 (length (digits_of phone)))) [
      | inl l ↦ national (rw (e, p, l) refl)
      | inr l ↦ plain (plus_not_first phone) l (rw (e, p, l) refl)
    ]
  ]
]

-- Normalising a number to its E.164-like form twice is normalising it once, in every country.
pub normalize_phone_e164_idem :
    (phone country : Bytes)
    → normalize_phone_e164 (normalize_phone_e164 phone country) country
      ≡ normalize_phone_e164 phone country
normalize_phone_e164_idem phone country = go (normalize-Normalized phone country)
  where
    d : Bytes
    d = digits_of phone

    again : Bytes → Bytes
    again s = normalize_phone_e164 s country

    go : Normalized phone country → again (again phone) ≡ again phone
    go (plain p l q) = ap again q ∙ normalize_short d country (digits_of_idem phone) p l ∙ sym q
    go (international e q) =
        ap again q ∙ normalize_international d country (digits_of_idem phone) e ∙ sym q
    go (national q) = ap again q ∙ normalize_national d country (digits_of_idem phone) ∙ sym q

-- In a build without the phone library, normalising a phone number twice is normalising it once.
pub normalize_phone_idem :
    (getenv : Environment) (phone : Bytes)
    → normalize_phone without_library getenv (normalize_phone without_library getenv phone)
      ≡ normalize_phone without_library getenv phone
unfolding normalize_phone
normalize_phone_idem getenv phone = normalize_phone_e164_idem phone (env_default_country getenv)
