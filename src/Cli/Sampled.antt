-- ===== src/Cli/Sampled.antt =====
-- The lines of `acx_sample_cmd` and the masked bytes of `acx_redact_cmd`, in src/cli.cpp.
use acx_contact_cli.Prelude.{
  ℕ, zero, suc, ◌+◌, ◌-◌, ◌≡◌, refl, ap, ◌∙◌, arith, Bool, true, not, Option, some, List, [], ◌∷◌,
  ◌++◌, Bytes, isdigit, all, length, length-append, length-set, set, ltb, if◌then◌else◌, Bool-cases,
  inl, inr, &&-eq-true, replicate,
}
use acx_contact_cli.Cli.Rewrite.{
  mask_phone, mask_user, last_byte, write_at, sample_line, sample_loop,
}

abbrev smaller : ℕ → ℕ → ℕ
smaller a b = if ltb a b then a else b

all-snoc :
    (p : Bytes → Bool) (ls : List Bytes) (line : Bytes)
    → all p ls ≡ true
    → p line ≡ true
    → all p (ls ++ line ∷ []) ≡ true
all-snoc p [] line h k = rw k refl
all-snoc p (l ∷ ls) line h k = let (a, b) = &&-eq-true (p l) _ h in rw a (all-snoc p ls line b k)

all-set :
    (p : Bytes → Bool) (ls : List Bytes) (i : ℕ) (line : Bytes)
    → all p ls ≡ true
    → p line ≡ true
    → all p (set ls i line) ≡ true
all-set p [] i line h k = h
all-set p (l ∷ ls) zero line h k = let (a, b) = &&-eq-true (p l) _ h in rw k b
all-set p (l ∷ ls) (suc i) line h k =
    let (a, b) = &&-eq-true (p l) _ h in rw a (all-set p ls i line b k)

module _ (draw : ℕ → ℕ) where
  -- a sample of as many lines as asked for, or as there were, that all pass the test
  abbrev pub IsSample : (Bytes → Bool) → ℕ → Option (List Bytes) → Type 0
  IsSample p size o = (res : List Bytes) × (o ≡ some res) × (length res ≡ size) × (all p res ≡ true)

  -- the body writes inside the vector
  sample_line_lem :
      (p : Bytes → Bool) (n : ℕ) (line : Bytes) (count : ℕ) (res : List Bytes)
      → length res ≡ smaller count n
      → all p res ≡ true
      → p line ≡ true
      → IsSample p (smaller (count + 1) n) (sample_line draw n line count res)
  unfolding sample_line write_at
  sample_line_lem p n line count res l h a = elim (Bool-cases (ltb count n)) [
    | inl e ↦ (
      res ++ line ∷ [],
      ground (arith, e),
      ground (arith, l, e, length-append res (line ∷ [])),
      all-snoc p res line h a,
    )
    | inr e ↦ elim (Bool-cases (ltb (draw count) n)) [
      | inl f ↦ (
        set res (draw count) line,
        ground (arith, l, e, f),
        ground (arith, l, e, length-set res (draw count) line),
        all-set p res (draw count) line h a,
      )
      | inr f ↦ (res, ground (arith, e, f), ground (arith, l, e), h)
    ]
  ]

  looped :
      (p : Bytes → Bool) (n m : ℕ) (ls : List Bytes) (count : ℕ) (res : List Bytes)
      → count + length ls ≡ m
      → length res ≡ smaller count n
      → all p res ≡ true
      → all p ls ≡ true
      → IsSample p (smaller m n) (sample_loop draw n ls count res)
  unfolding sample_loop
  looped p n m [] count res t l h k =
      let e : count ≡ m = omega (arith, t) in (res, refl, l ∙ ap (λ c. smaller c n) e, h)
  looped p n m (line ∷ ls) count res t l h k =
      let (a, b) = &&-eq-true (p line) _ k in
      let t' : (count + 1) + length ls ≡ m = omega (arith, t) in
      let (res', e, l', h') = sample_line_lem p n line count res l h a in
      rw (e, sample_loop) (looped p n m ls (count + 1) res' t' l' h' b)

  -- The sampling never writes behind its vector, and ends with as many lines as asked for, or all where
  -- there are fewer, each of which is a line of the input, whatever numbers are drawn.
  pub sample_loop_lem :
      (p : Bytes → Bool) (n : ℕ) (ls : List Bytes)
      → all p ls ≡ true
      → IsSample p (if ltb (length ls) n then length ls else n) (sample_loop draw n ls 0 [])
  sample_loop_lem p n ls h = looped p n (length ls) ls 0 [] (omega arith) (ground arith) refl h

length-replicate : (n : ℕ) (c : ℕ) → length (replicate n c) ≡ n
length-replicate zero c = refl
length-replicate (suc n) c = omega (arith, length-replicate n c)

mask_phone_lem :
    (s : Bytes)
    → (length (mask_phone s) ≡ length s) × (all (λ c. not (isdigit c)) (mask_phone s) ≡ true)
unfolding mask_phone
mask_phone_lem [] = (refl, refl)
mask_phone_lem (c ∷ s) = elim (Bool-cases (isdigit c)) [
  | inl e ↦ rw e (let (a, b) = mask_phone_lem s in (ap suc a, b))
  | inr e ↦ rw e (let (a, b) = mask_phone_lem s in (ap suc a, rw e b))
]

length-last_byte : (c : ℕ) (s : Bytes) → length (last_byte (c ∷ s)) ≡ 1
unfolding last_byte
length-last_byte c [] = refl
length-last_byte c (d ∷ s) = length-last_byte d s

length-mask_user : (s : Bytes) → length (mask_user s) ≡ length s
unfolding mask_user
length-mask_user [] = refl
length-mask_user (c ∷ s) = ground (
  arith,
  length-last_byte c s,
  length-append (replicate (length (c ∷ s) - 2) b'*') (last_byte (c ∷ s)),
  length-replicate (length (c ∷ s) - 2) b'*',
  length-replicate (length (c ∷ s)) b'*',
)
