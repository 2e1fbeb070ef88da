-- ===== src/Cli/Trimmed.antt =====
-- The string helpers of `acx_normalize_cmd` in src/cli.cpp.
use acx_contact_cli.Prelude.{
  ℕ, ◌≡◌, refl, ap, ◌∙◌, arith, Bool, false, ◌&&◌, ◌||◌, [], ◌∷◌, Bytes, isdigit, isspace, tolower,
  is_empty, ◌==◌, Bool-cases, inl, inr,
}
use acx_contact_cli.Validation.{to_lower_ascii}
use acx_contact_cli.Validation.Phone.{to_lower_ascii_idem}
use acx_contact_cli.Cli.Rewrite.{ltrim, rtrim, trim, lower, phone_bytes}

rtrim_idem : (s : Bytes) → rtrim (rtrim s) ≡ rtrim s
unfolding rtrim
rtrim_idem [] = refl
rtrim_idem (c ∷ s) = elim (Bool-cases (is_empty (rtrim s) && isspace c)) [
  | inl e ↦ rw (e, rtrim) refl
  | inr e ↦ rw (e, rtrim) (rw (rtrim_idem s) (rw e refl))
]

ltrim-rtrim : (s : Bytes) → ltrim (rtrim (ltrim s)) ≡ rtrim (ltrim s)
unfolding ltrim
ltrim-rtrim [] = unfold rtrim in refl
ltrim-rtrim (c ∷ s) = elim (Bool-cases (isspace c)) [
  | inl e ↦ rw e (ltrim-rtrim s)
  | inr e ↦ rw e (unfold rtrim in ground (arith, e))
]

pub trim_idem : (s : Bytes) → trim (trim s) ≡ trim s
unfolding trim
trim_idem s = ap rtrim (ltrim-rtrim s) ∙ rtrim_idem (ltrim s)

isspace-tolower : (c : ℕ) → isspace (tolower c) ≡ isspace c
unfolding isspace tolower
isspace-tolower c = ground arith

ltrim-lower : (s : Bytes) → ltrim (lower s) ≡ lower (ltrim s)
unfolding ltrim lower
ltrim-lower [] = refl
ltrim-lower (c ∷ s) = elim (Bool-cases (isspace c)) [
  | inl e ↦ rw (isspace-tolower c) (rw e (ltrim-lower s))
  | inr e ↦ rw (isspace-tolower c) (rw e refl)
]

is_empty-map : (s : Bytes) → is_empty (lower s) ≡ is_empty s
unfolding lower
is_empty-map [] = refl
is_empty-map (c ∷ s) = refl

rtrim-lower : (s : Bytes) → rtrim (lower s) ≡ lower (rtrim s)
unfolding rtrim lower
rtrim-lower [] = refl
rtrim-lower (c ∷ s) = elim (Bool-cases (is_empty (rtrim s) && isspace c)) [
  | inl e ↦
      rw (ap is_empty (rtrim-lower s) ∙ is_empty-map (rtrim s)) (rw (isspace-tolower c) (rw e refl))
  | inr e ↦
      rw (ap is_empty (rtrim-lower s) ∙ is_empty-map (rtrim s))
        (rw (isspace-tolower c) (rw e (ap (◌∷◌ (tolower c)) (rtrim-lower s))))
]

lower_idem : (s : Bytes) → lower (lower s) ≡ lower s
unfolding lower
lower_idem s = unfold to_lower_ascii in (to_lower_ascii_idem s)

trim-lower : (s : Bytes) → trim (lower s) ≡ lower (trim s)
unfolding trim
trim-lower s = ap rtrim (ltrim-lower s) ∙ rtrim-lower (ltrim s)

pub lower-trim_idem : (s : Bytes) → lower (trim (lower (trim s))) ≡ lower (trim s)
lower-trim_idem s =
    ap lower (trim-lower (trim s)) ∙ lower_idem (trim (trim s)) ∙ ap lower (trim_idem s)

pub phone_bytes_idem :
    (first : Bool) (s : Bytes) → phone_bytes first (phone_bytes first s) ≡ phone_bytes first s
unfolding phone_bytes
phone_bytes_idem first [] = refl
phone_bytes_idem first (c ∷ s) = elim (Bool-cases (isdigit c || (c == b'+' && first))) [
  | inl e ↦ rw (e, phone_bytes) (rw e (ap (◌∷◌ c) (phone_bytes_idem false s)))
  | inr e ↦ rw (e, phone_bytes) (phone_bytes_idem first s)
]
