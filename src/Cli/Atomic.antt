-- ===== src/Cli/Atomic.antt =====
-- `atomic_write_all` of src/cli.cpp: what a reader of the target may find.
use acx_contact_cli.Prelude.{
  ℕ, ◌+◌, ◌≡◌, ◌≢◌, ap, true, false, some, arith, Bytes, codes, same, same_refl, same-false, length,
  length-append, take, ◌⊎◌, ◌∷◌, ◌++◌, inl, inr, Bool-cases,
}
use acx_contact_cli.World.{Platform, World, truncated, lost, written}
use acx_contact_cli.World.Atomic.{writing_cases}
use acx_contact_cli.Cli.{temporary_name, write_over, atomic_write_all}

-- `write_over`, where the temporary file is another
write_over_lem :
    (platform : Platform) (tmp p content : Bytes) (w : World)
    → same tmp p ≡ false
    → (((write_over platform tmp p content w).0 ≡ false)
        × ((write_over platform tmp p content w).1.files p ≡ w.files p))
      ⊎ (((write_over platform tmp p content w).0 ≡ true)
          × (((platform.writing tmp ≡ written)
                × ((write_over platform tmp p content w).1.files p ≡ some content))
              ⊎ ((n : ℕ) × ((platform.writing tmp ≡ truncated n) ⊎ (platform.writing tmp ≡ lost n))
                  × ((write_over platform tmp p content w).1.files p ≡ some (take n content)))))
unfolding write_over
write_over_lem platform tmp p content w apart = elim (writing_cases (platform.writing tmp)) [
  | inl h ↦ inl (ground (arith, h), ground (arith, h))
  | inr (inl h) ↦ elim (Bool-cases (platform.renames tmp p)) [
    | inl r ↦ inr (ground (arith, h, r), inl (h, ground (arith, h, r, same_refl p, same_refl tmp)))
    | inr r ↦ inl (ground (arith, h, r), ground (arith, h, r, apart))
  ]
  | inr (inr (inl (n, h))) ↦ elim (Bool-cases (platform.renames tmp p)) [
    | inl r ↦
        inr (ground (arith, h, r), inr (n, inl h, ground (arith, h, r, same_refl p, same_refl tmp)))
    | inr r ↦ inl (ground (arith, h, r), ground (arith, h, r, apart))
  ]
  | inr (inr (inr (n, h))) ↦ elim (Bool-cases (platform.renames tmp p)) [
    | inl r ↦
        inr (ground (arith, h, r), inr (n, inr h, ground (arith, h, r, same_refl p, same_refl tmp)))
    | inr r ↦ inl (ground (arith, h, r), ground (arith, h, r, apart))
  ]
]

module _ (platform : Platform) (p content : Bytes) (w : World) where
  name_ne : temporary_name platform p w ≢ p
  unfolding temporary_name
  name_ne e = absurd (
      omega (
        arith,
        ap length e,
        length-append p
            (codes ".tmp." ++ (platform.process_id ++ (b'.' ∷ platform.seconds w.ticks))),
        length-append (codes ".tmp.") (platform.process_id ++ (b'.' ∷ platform.seconds w.ticks)),
      ))

  apart : same (temporary_name platform p w) p ≡ false
  apart = same-false (temporary_name platform p w) p name_ne

  -- A write that succeeds leaves at the path the content, or the part of it that reached the
  -- temporary file before its stream failed; a write that fails leaves what was there.
  pub atomic_write_all_lem :
      (((atomic_write_all platform p content w).0 ≡ false)
        × ((atomic_write_all platform p content w).1.files p ≡ w.files p))
      ⊎ (((atomic_write_all platform p content w).0 ≡ true)
          × (((platform.writing (temporary_name platform p w) ≡ written)
                × ((atomic_write_all platform p content w).1.files p ≡ some content))
              ⊎ ((n : ℕ) × ((platform.writing (temporary_name platform p w) ≡ truncated n)
                    ⊎ (platform.writing (temporary_name platform p w) ≡ lost n))
                  × ((atomic_write_all platform p content w).1.files p ≡ some (take n content)))))
  unfolding atomic_write_all
  atomic_write_all_lem =
      write_over_lem platform (temporary_name platform p w) p content
        (record w { ticks = w.ticks + 1 }) apart
