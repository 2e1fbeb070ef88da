-- ===== src/Json/Fuel.antt =====
-- The parser of src/jsonl.cpp consumes input at each step, so the fuel that `parse` gives never
-- runs out, on any text.
use acx_contact_cli.Prelude.{
  ℕ, zero, suc, ◌+◌, ◌*◌, ◌≤◌, ◌≡◌, ◌≢◌, refl, Bool, true, false, ◌||◌, Option, [], ◌∷◌, arith,
  Bytes, codes, isdigit, ◌==◌, if◌then◌else◌, length, drop, Bool-cases, inl, inr,
}
use acx_contact_cli.Json.Value.{Json, Items, Members, end, assign}
use acx_contact_cli.Json.Parser.{
  out_of_fuel, Result, ok, err, ◌>>=◌, skip_ws, string_body, parse_string, number_bytes,
  parse_number, array_body, object_body, value_at, after_item, after_member, expect_colon,
  parse_value, parse_items, parse_members, parse, starts_with,
}

-- a result that leaves fewer than `n` bytes, or a failure of the program's own
abbrev Shrinks {ℓ} : {A : Type ℓ} → ℕ → Result (A × Bytes) → Type 0
Shrinks n (ok (a, rest)) = suc (length rest) ≤ n
Shrinks n (err e) = e ≢ out_of_fuel

Shrinks-bind {ℓ κ} :
    {A : Type ℓ} {B : Type κ} (n : ℕ) (m : Result (A × Bytes)) (k : A × Bytes → Result (B × Bytes))
    → Shrinks n m
    → ((a : A) (rest : Bytes) → suc (length rest) ≤ n → Shrinks n (k (a, rest)))
    → Shrinks n (m >>= k)
Shrinks-bind n (ok (a, rest)) k h step = step a rest h
Shrinks-bind n (err e) k h step = h

Shrinks-le {ℓ} : {A : Type ℓ} (n m : ℕ) (r : Result (A × Bytes)) → n ≤ m → Shrinks n r → Shrinks m r
Shrinks-le n m (ok (a, rest)) p h = omega arith
Shrinks-le n m (err e) p h = h

Shrinks-if {ℓ} :
    {A : Type ℓ} (n : ℕ) (b : Bool) (x y : Result (A × Bytes))
    → (b ≡ true → Shrinks n x)
    → (b ≡ false → Shrinks n y)
    → Shrinks n (if b then x else y)
Shrinks-if n true x y p q = p refl
Shrinks-if n false x y p q = q refl

skip_ws-length : (s : Bytes) → length (skip_ws s) ≤ length s
unfolding skip_ws
skip_ws-length [] = omega arith
skip_ws-length (c ∷ s) = ground (arith, skip_ws-length s)

string_body-length : (k : ℕ) (s : Bytes) → length (string_body k s).1 ≤ length s
unfolding string_body
string_body-length zero [] = omega arith
string_body-length (suc k) [] = omega arith
string_body-length (suc k) (c ∷ s) = omega (arith, string_body-length k s)
string_body-length zero (c ∷ []) = ground arith
string_body-length zero (c ∷ e ∷ s) =
    ground
      (arith, string_body-length zero (e ∷ s), string_body-length 4 s, string_body-length zero s)

parse_string-Shrinks : (s : Bytes) → Shrinks (length s) (parse_string s)
unfolding parse_string
parse_string-Shrinks [] = λ e. cc
parse_string-Shrinks (c ∷ s) =
    Shrinks-if (suc (length s)) (c == b'"') _ _ (λ _. omega (arith, string_body-length zero s))
      (λ _ e. cc)

number_bytes-length : (s : Bytes) → length (number_bytes s).1 ≤ length s
unfolding number_bytes
number_bytes-length [] = omega arith
number_bytes-length (c ∷ s) = ground (arith, number_bytes-length s)

drop-length : (k : ℕ) (s : Bytes) → length (drop k s) ≤ length s
drop-length zero s = omega arith
drop-length (suc k) [] = omega arith
drop-length (suc k) (c ∷ s) = omega (arith, drop-length k s)

module _ {D : Type 0} (stod : Bytes → Option D) where
  -- a number begins with a byte that its scan takes
  parse_number-Shrinks :
      (c : ℕ) (s : Bytes)
      → (c == b'-' || c == b'+' || isdigit c) ≡ true
      → Shrinks (suc (length s)) (parse_number stod (c ∷ s))
  unfolding parse_number
  parse_number-Shrinks c s h = ground (arith, number_bytes-length s)

  after_item-Shrinks :
      (again : Bytes → Result (Items D × Bytes)) (v : Json D) (n : ℕ) (s : Bytes)
      → suc (length s) ≤ n
      → ((t : Bytes) → suc (length t) ≤ length s → Shrinks n (again t))
      → Shrinks n (after_item stod again v s)
  unfolding after_item
  after_item-Shrinks again v n [] h step = λ e. cc
  after_item-Shrinks again v n (c ∷ s) h step =
      Shrinks-if n (c == b',') _ _
        (λ _. Shrinks-bind n (again s) _ (step s (omega arith)) (λ vs rest p. p))
        (λ _. Shrinks-if n (c == b']') _ _ (λ _. omega arith) (λ _ e. cc))

  after_member-Shrinks :
      (again : Members D → Bytes → Result (Members D × Bytes)) (m : Members D) (n : ℕ) (s : Bytes)
      → suc (length s) ≤ n
      → ((t : Bytes) → suc (length t) ≤ length s → Shrinks n (again m t))
      → Shrinks n (after_member stod again m s)
  unfolding after_member
  after_member-Shrinks again m n [] h step = λ e. cc
  after_member-Shrinks again m n (c ∷ s) h step =
      Shrinks-if n (c == b',') _ _ (λ _. step s (omega arith))
        (λ _. Shrinks-if n (c == b'}') _ _ (λ _. omega arith) (λ _ e. cc))

  array_body-Shrinks :
      (items : Bytes → Result (Items D × Bytes)) (n : ℕ) (s : Bytes)
      → suc (length s) ≤ n
      → Shrinks n (items s)
      → Shrinks n (array_body stod items s)
  unfolding array_body
  array_body-Shrinks items n [] h k = Shrinks-bind n (items []) _ k (λ vs rest p. p)
  array_body-Shrinks items n (c ∷ s) h k =
      Shrinks-if n (c == b']') _ _ (λ _. omega arith)
        (λ _. Shrinks-bind n (items (c ∷ s)) _ k (λ vs rest p. p))

  object_body-Shrinks :
      (members : Bytes → Result (Members D × Bytes)) (n : ℕ) (s : Bytes)
      → suc (length s) ≤ n
      → Shrinks n (members s)
      → Shrinks n (object_body stod members s)
  unfolding object_body
  object_body-Shrinks members n [] h k = Shrinks-bind n (members []) _ k (λ m rest p. p)
  object_body-Shrinks members n (c ∷ s) h k =
      Shrinks-if n (c == b'}') _ _ (λ _. omega arith)
        (λ _. Shrinks-bind n (members (c ∷ s)) _ k (λ m rest p. p))

  value_at-Shrinks :
      (items : Bytes → Result (Items D × Bytes)) (members : Bytes → Result (Members D × Bytes))
      (s : Bytes)
      → ((t : Bytes) → suc (length t) ≤ length s → Shrinks (length s) (items t))
      → ((t : Bytes) → suc (length t) ≤ length s → Shrinks (length s) (members t))
      → Shrinks (length s) (value_at stod items members s)
  unfolding value_at
  value_at-Shrinks items members [] p q = λ e. cc
  value_at-Shrinks items members (c ∷ s) p q =
      let n : ℕ = suc (length s) in
      let inside : suc (length (skip_ws s)) ≤ n = omega (arith, skip_ws-length s) in
      Shrinks-if n (c == b'"') _ _
        (λ _.
          Shrinks-bind n (parse_string (c ∷ s)) _ (parse_string-Shrinks (c ∷ s)) (λ t rest h. h))
        (λ _.
          Shrinks-if n (c == b'{') _ _
            (λ _. object_body-Shrinks members n (skip_ws s) inside (q (skip_ws s) inside))
            (λ _.
              Shrinks-if n (c == b'[') _ _
                (λ _. array_body-Shrinks items n (skip_ws s) inside (p (skip_ws s) inside))
                (λ _.
                  Shrinks-if n (starts_with (codes "true") (c ∷ s)) _ _
                    (λ _. omega (arith, drop-length 3 s))
                    (λ _.
                      Shrinks-if n (starts_with (codes "false") (c ∷ s)) _ _
                        (λ _. omega (arith, drop-length 4 s))
                        (λ _.
                          Shrinks-if n (starts_with (codes "null") (c ∷ s)) _ _
                            (λ _. omega (arith, drop-length 3 s))
                            (λ _.
                              Shrinks-if n (c == b'-' || c == b'+' || isdigit c) _ _
                                (λ h.
                                  Shrinks-bind n (parse_number stod (c ∷ s)) _
                                    (parse_number-Shrinks c s h) (λ d rest h. h))
                                (λ _ e. cc)))))))

  expect_colon-Shrinks :
      (s : Bytes) (n : ℕ) {B : Type 0} (k : Bytes → Result (B × Bytes))
      → suc (length s) ≤ n
      → ((t : Bytes) → suc (length t) ≤ length s → Shrinks n (k t))
      → Shrinks n (expect_colon stod s >>= k)
  unfolding expect_colon
  expect_colon-Shrinks [] n k h step = λ e. cc
  expect_colon-Shrinks (c ∷ s) n k h step = elim (Bool-cases (c == b':')) [
    | inl e ↦ rw e (step (skip_ws s) (omega (arith, skip_ws-length s)))
    | inr e ↦ rw e (λ p. cc)
  ]

  mutual
    unfolding parse_value

    value_Shrinks :
        (f : ℕ) (s : Bytes) → 2 * length s + 1 ≤ f → Shrinks (length s) (parse_value stod f s)
    value_Shrinks zero s h = absurd (omega arith)
    value_Shrinks (suc f) s h = Shrinks-le (length (skip_ws s)) (length s) _ (skip_ws-length s) (
        value_at-Shrinks (parse_items stod f) (parse_members stod f end) (skip_ws s)
          (λ t p.
            Shrinks-le (length t) _ _ (omega arith)
              (items_Shrinks f t (omega (arith, skip_ws-length s))))
          (λ t p.
            Shrinks-le (length t) _ _ (omega arith)
              (members_Shrinks f end t (omega (arith, skip_ws-length s)))))

    items_Shrinks :
        (f : ℕ) (s : Bytes) → 2 * length s + 2 ≤ f → Shrinks (length s) (parse_items stod f s)
    items_Shrinks zero s h = absurd (omega arith)
    items_Shrinks (suc f) s h =
        Shrinks-bind (length s) (parse_value stod f (skip_ws s)) _
          (Shrinks-le (length (skip_ws s)) (length s) _ (skip_ws-length s)
            (value_Shrinks f (skip_ws s) (omega (arith, skip_ws-length s))))
          (λ v rest p.
            after_item-Shrinks (parse_items stod f) v (length s) (skip_ws rest)
              (omega (arith, skip_ws-length rest))
              (λ t q.
                Shrinks-le (length t) _ _ (omega (arith, skip_ws-length rest))
                  (items_Shrinks f t (omega (arith, skip_ws-length rest)))))

    members_Shrinks :
        (f : ℕ) (m : Members D) (s : Bytes)
        → 2 * length s + 2 ≤ f
        → Shrinks (length s) (parse_members stod f m s)
    members_Shrinks zero m s h = absurd (omega arith)
    members_Shrinks (suc f) m s h =
        Shrinks-bind (length s) (parse_string (skip_ws s)) _
          (Shrinks-le (length (skip_ws s)) (length s) _ (skip_ws-length s)
            (parse_string-Shrinks (skip_ws s)))
          (λ key behind p.
            expect_colon-Shrinks (skip_ws behind) (length s) _
              (omega (arith, skip_ws-length behind))
              (λ from q.
                Shrinks-bind (length s) (parse_value stod f from) _
                  (Shrinks-le (length from) (length s) _ (omega (arith, skip_ws-length behind))
                    (value_Shrinks f from (omega (arith, skip_ws-length behind))))
                  (λ v rest u.
                    after_member-Shrinks (parse_members stod f) (assign key v m) (length s)
                      (skip_ws rest) (omega (arith, skip_ws-length rest))
                      (λ t w. Shrinks-le (length t) _ _ (omega (arith, skip_ws-length rest)) (
                        members_Shrinks f (assign key v m) t
                          (omega (arith, skip_ws-length rest)))))))

  -- The parser ends on every text with a value or one of the program's exceptions: the fuel given
  -- to it never runs out.
  pub parse-ne-out_of_fuel : (s : Bytes) → parse stod s ≢ err out_of_fuel
  unfolding parse
  parse-ne-out_of_fuel s e = go _ (value_Shrinks (2 * length s + 1) s (omega arith)) e
    where
      go :
          (r : Result (Json D × Bytes))
          → Shrinks (length s) r
          → (r >>= λ x. ok x.0) ≡ err out_of_fuel
          → ⊥
      go (ok (v, rest)) h q = absurd (cc)
      go (err x) h q = h (ground arith)
