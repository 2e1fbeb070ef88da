-- ===== src/Cli/Normal.antt =====
-- The members that `acx_normalize_cmd` and `acx_redact_cmd` of src/cli.cpp rewrite.
use acx_contact_cli.Prelude.{
  ◌≡◌, refl, ap, ◌∙◌, sym, arith, Bool, true, false, Option, none, some, Bytes, codes, same,
  same_iff, if◌then◌else◌, Bool-cases, inl, inr,
}
use acx_contact_cli.Json.Value.{
  Json, null, bool, number, string, array, object, Members, end, member, lookup, assign,
}
use acx_contact_cli.Cli.{as_text}
use acx_contact_cli.Cli.Rewrite.{
  trim, lower, phone_digits, mask_phone, mask_email, rewrite_member, normalize_members,
  redact_members,
}
use acx_contact_cli.Cli.Trimmed.{trim_idem, lower-trim_idem, phone_bytes_idem}

-- the rewriting of one member, seen from every key
abbrev only : Bytes → Bytes → (Bytes → Bytes) → Bytes → Bytes
only key k f s = if same key k then f s else s

module _ {D : Type 0} where
  lookup-assign :
      (key k : Bytes) (v : Json D) (m : Members D)
      → lookup key (assign k v m) ≡ (if same key k then some v else lookup key m)
  unfolding lookup assign
  lookup-assign key k v end = refl
  lookup-assign key k v (member h u m) = elim (Bool-cases (same k h)) [
    | inl e ↦ rw e (ground (arith, same_iff k h))
    | inr e ↦
        rw e (ground (arith, same_iff k h, same_iff key k, same_iff key h, lookup-assign key k v m))
  ]

  untouched :
      (key k : Bytes) (m : Members D) (o : Option (Json D))
      → lookup k m ≡ o
      → lookup key m ≡ (if same key k then o else lookup key m)
  untouched key k m o h = elim (Bool-cases (same key k)) [
    | inl e ↦ rw e (ap (λ x. lookup x m) ((same_iff key k).0 e) ∙ h)
    | inr e ↦ rw e refl
  ]

  -- what a rewriting makes of a member
  abbrev pub on_text : (Bytes → Bytes) → Option (Json D) → Option (Json D)
  on_text f none = none
  on_text f (some null) = some null
  on_text f (some (bool b)) = some (bool b)
  on_text f (some (number d)) = some (number d)
  on_text f (some (string s)) = some (string (f s))
  on_text f (some (array a)) = some (array a)
  on_text f (some (object m)) = some (object m)

  rewritten_one :
      (f : Bytes → Bytes) (k : Bytes) (m : Members D) (key : Bytes) (o : Option (Json D))
      → lookup k m ≡ o
      → lookup key (elim (as_text o) [ some s ↦ assign k (string (f s)) m | none ↦ m ])
        ≡ (if same key k then on_text f o else lookup key m)
  rewritten_one f k m key (some (string s)) h = lookup-assign key k (string (f s)) m
  rewritten_one f k m key none h = untouched key k m none h
  rewritten_one f k m key (some null) h = untouched key k m (some null) h
  rewritten_one f k m key (some (bool b)) h = untouched key k m (some (bool b)) h
  rewritten_one f k m key (some (number d)) h = untouched key k m (some (number d)) h
  rewritten_one f k m key (some (array a)) h = untouched key k m (some (array a)) h
  rewritten_one f k m key (some (object x)) h = untouched key k m (some (object x)) h

  lookup-rewrite_member :
      (f : Bytes → Bytes) (k : Bytes) (m : Members D) (key : Bytes)
      → lookup key (rewrite_member f k m)
        ≡ (if same key k then on_text f (lookup k m) else lookup key m)
  unfolding rewrite_member
  lookup-rewrite_member f k m key = rewritten_one f k m key (lookup k m) refl

  on_text_id : (o : Option (Json D)) → on_text (λ s. s) o ≡ o
  on_text_id none = refl
  on_text_id (some null) = refl
  on_text_id (some (bool b)) = refl
  on_text_id (some (number d)) = refl
  on_text_id (some (string s)) = refl
  on_text_id (some (array a)) = refl
  on_text_id (some (object m)) = refl

  on_text_idem :
      (f : Bytes → Bytes)
      → ((s : Bytes) → f (f s) ≡ f s)
      → (o : Option (Json D)) → on_text f (on_text f o) ≡ on_text f o
  on_text_idem f idem none = refl
  on_text_idem f idem (some null) = refl
  on_text_idem f idem (some (bool b)) = refl
  on_text_idem f idem (some (number d)) = refl
  on_text_idem f idem (some (string s)) = ap (λ t. some (string t)) (idem s)
  on_text_idem f idem (some (array a)) = refl
  on_text_idem f idem (some (object m)) = refl

  on_text-on_text :
      (f g : Bytes → Bytes) (o : Option (Json D))
      → on_text f (on_text g o) ≡ on_text (λ s. f (g s)) o
  on_text-on_text f g none = refl
  on_text-on_text f g (some null) = refl
  on_text-on_text f g (some (bool b)) = refl
  on_text-on_text f g (some (number d)) = refl
  on_text-on_text f g (some (string s)) = refl
  on_text-on_text f g (some (array a)) = refl
  on_text-on_text f g (some (object m)) = refl

  lookup_rewritten :
      (f : Bytes → Bytes) (k : Bytes) (m : Members D) (key : Bytes)
      → lookup key (rewrite_member f k m) ≡ on_text (only key k f) (lookup key m)
  lookup_rewritten f k m key =
      let from_test = lookup-rewrite_member f k m key in
      let onto_test = λ (b : Bool) (e : same key k ≡ b).
        ap (λ c. on_text (λ s. if c then f s else s) (lookup key m)) (sym e) in
      elim (Bool-cases (same key k)) [
        | inl e ↦
            from_test
            ∙ ap (λ b. if b then on_text f (lookup k m) else lookup key m) e
            ∙ ap (λ x. on_text f (lookup x m)) (sym ((same_iff key k).0 e))
            ∙ onto_test true e
        | inr e ↦
            from_test
            ∙ ap (λ b. if b then on_text f (lookup k m) else lookup key m) e
            ∙ sym (on_text_id (lookup key m))
            ∙ onto_test false e
      ]

-- the rewriting of a member by `acx_normalize_cmd`, and by `acx_redact_cmd`
abbrev pub normal_form : Bytes → Bytes → Bytes
normal_form key s =
    if same key (codes "phone")
    then phone_digits s
    else if same key (codes "email")
    then lower (trim s)
    else if same key (codes "name")
    then trim s
    else s

abbrev pub redacted_form : Bytes → Bytes → Bytes
redacted_form key s =
    if same key (codes "phone")
    then mask_phone s
    else if same key (codes "email")
    then mask_email s
    else s

-- the three keys differ
apart_phone :
    (key : Bytes)
    → same key (codes "phone") ≡ true
    → (same key (codes "email") ≡ false) × (same key (codes "name") ≡ false)
unfolding same
apart_phone key e =
    let p = (same_iff key (codes "phone")).0 e in
    (ap (λ x. same x (codes "email")) p, ap (λ x. same x (codes "name")) p)

apart_email : (key : Bytes) → same key (codes "email") ≡ true → same key (codes "name") ≡ false
unfolding same
apart_email key e = ap (λ x. same x (codes "name")) ((same_iff key (codes "email")).0 e)

normal_form_of :
    (key s : Bytes)
    → only key
        (codes "phone")
        phone_digits
        (only key (codes "email") (λ t. lower (trim t)) (only key (codes "name") trim s))
      ≡ normal_form key s
normal_form_of key s = elim (Bool-cases (same key (codes "phone"))) [
  | inl e ↦ rw e (rw (apart_phone key e).0 (rw (apart_phone key e).1 refl))
  | inr e ↦ rw e (elim (Bool-cases (same key (codes "email"))) [
    | inl g ↦ rw g (rw (apart_email key g) refl)
    | inr g ↦ rw g refl
  ])
]

redacted_form_of :
    (key s : Bytes)
    → only key (codes "phone") mask_phone (only key (codes "email") mask_email s)
      ≡ redacted_form key s
redacted_form_of key s = elim (Bool-cases (same key (codes "phone"))) [
  | inl e ↦ rw e (rw (apart_phone key e).0 refl)
  | inr e ↦ rw e refl
]

normal_form_idem : (key s : Bytes) → normal_form key (normal_form key s) ≡ normal_form key s
normal_form_idem key s = elim (Bool-cases (same key (codes "phone"))) [
  | inl e ↦ rw e (unfold phone_digits in (phone_bytes_idem true s))
  | inr e ↦ rw e (elim (Bool-cases (same key (codes "email"))) [
    | inl g ↦ rw g (lower-trim_idem s)
    | inr g ↦ rw g (elim (Bool-cases (same key (codes "name"))) [
      | inl h ↦ rw h (trim_idem s)
      | inr h ↦ rw h refl
    ])
  ])
]

module _ {D : Type 0} where
  -- Normalising an object normalises the texts of its name, email and phone and leaves every other
  -- member as it is.
  pub lookup-normalize_members :
      (m : Members D) (key : Bytes)
      → lookup key (normalize_members m) ≡ on_text (normal_form key) (lookup key m)
  unfolding normalize_members
  lookup-normalize_members m key =
      lookup_rewritten phone_digits (codes "phone") _ key
      ∙ ap (on_text _) (
          lookup_rewritten (λ s. lower (trim s)) (codes "email") _ key
          ∙ ap (on_text _) (lookup_rewritten trim (codes "name") m key)
          ∙ on_text-on_text _ _ (lookup key m))
      ∙ on_text-on_text _ _ (lookup key m)
      ∙ ap (λ f. on_text f (lookup key m)) (λ i s. normal_form_of key s i)

  -- Normalising twice leaves every member as normalising once does.
  pub normalize_members_idem :
      (m : Members D) (key : Bytes)
      → lookup key (normalize_members (normalize_members m)) ≡ lookup key (normalize_members m)
  normalize_members_idem m key =
      lookup-normalize_members (normalize_members m) key
      ∙ ap (on_text (normal_form key)) (lookup-normalize_members m key)
      ∙ on_text_idem (normal_form key) (normal_form_idem key) (lookup key m)
      ∙ sym (lookup-normalize_members m key)

  -- Redacting an object masks the texts of its email and phone and leaves every other member as it is.
  pub lookup-redact_members :
      (m : Members D) (key : Bytes)
      → lookup key (redact_members m) ≡ on_text (redacted_form key) (lookup key m)
  unfolding redact_members
  lookup-redact_members m key =
      lookup_rewritten mask_phone (codes "phone") _ key
      ∙ ap (on_text _) (lookup_rewritten mask_email (codes "email") m key)
      ∙ on_text-on_text _ _ (lookup key m)
      ∙ ap (λ f. on_text f (lookup key m)) (λ i s. redacted_form_of key s i)
