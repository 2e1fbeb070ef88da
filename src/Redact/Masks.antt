-- ===== src/Redact/Masks.antt =====
-- What the masks of src/policy.cpp leave to see.
use acx_contact_cli.Prelude.{
  ℕ, suc, ◌-◌, ◌≤◌, ◌≡◌, refl, ap, ◌∙◌, Bool, true, false, [], ◌∷◌, arith, Bytes, isalpha, isdigit,
  ltb, leb, if◌then◌else◌, length, keep, Bool-cases, inl, inr,
}
use acx_contact_cli.Redact.{name_mask, mask_name, digit_mask, is_phone_byte, mask_phone}

letters_left :
    (first : Bool) (s : Bytes)
    → length (keep isalpha (name_mask first s)) ≤ (if first then 1 else 0)
unfolding name_mask isalpha
letters_left first [] = ground arith
letters_left first (c ∷ s) = ground (arith, letters_left false s, letters_left first s)

name_mask-length : (first : Bool) (s : Bytes) → length (name_mask first s) ≡ length s
unfolding name_mask
name_mask-length first [] = refl
name_mask-length first (c ∷ s) = ground (arith, name_mask-length false s, name_mask-length first s)

-- A masked name has as many bytes as the name and shows at most one letter of it.
pub mask_name-letters :
    (s : Bytes) → (length (mask_name s) ≡ length s) × (length (keep isalpha (mask_name s)) ≤ 1)
unfolding mask_name
mask_name-letters s = (name_mask-length true s, letters_left true s)

digits_left :
    (n : ℕ) (s : Bytes)
    → n ≤ length (keep isdigit s)
    → length (keep isdigit (digit_mask n s)) ≡ length (keep isdigit s) - n
unfolding digit_mask isdigit
digits_left n [] h = omega arith
digits_left n (c ∷ s) h = elim (Bool-cases (isdigit c)) [
  | inr e ↦ rw (e, e) (digits_left n s (let h' = rw e at h in h'))
  | inl e ↦ elim (Bool-cases (ltb 0 n)) [
    | inl p ↦
        (let h' = rw e at h in rw (e, p) (digits_left (n - 1) s (ground arith) ∙ ground arith))
    | inr p ↦
        (let h' = rw e at h in
          let z : n ≡ 0 = ground arith in
          rw (e, p, e) (ap suc (digits_left n s (omega arith)) ∙ omega arith))
  ]
]

phone_digits : (s : Bytes) → keep isdigit (keep is_phone_byte s) ≡ keep isdigit s
unfolding is_phone_byte
phone_digits [] = refl
phone_digits (c ∷ s) = ground (arith, phone_digits s)

-- A masked phone shows all its digits where there are at most four, and exactly four otherwise.
pub mask_phone-digits :
    (s : Bytes)
    → length (keep isdigit (mask_phone s))
      ≡ (if leb (length (keep isdigit s)) 4 then length (keep isdigit s) else 4)
unfolding mask_phone
mask_phone-digits s =
    let d = keep is_phone_byte s in
    elim (Bool-cases (leb (length (keep isdigit s)) 4)) [
      | inl e ↦ rw (phone_digits s, e, phone_digits s) refl
      | inr e ↦
          rw (phone_digits s, e)
            (digits_left (length (keep isdigit s) - 4) d (ground (arith, phone_digits s))
              ∙ ground (arith, phone_digits s))
    ]
