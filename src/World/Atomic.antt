-- ===== src/World/Atomic.antt =====
-- `write_file_atomic` of src/utils.cpp: what a reader of the target may find.
use acx_contact_cli.Prelude.{
  ℕ, ◌≡◌, ◌≢◌, refl, ap, true, false, some, take, arith, Bytes, codes, same, same_refl, same-false,
  length, length-append, ◌⊎◌, inl, inr,
}
use acx_contact_cli.World.{
  Platform, World, Writing, refused, truncated, lost, written, temporary, write_file_atomic,
}

pub writing_cases :
    (o : Writing)
    → (o ≡ refused) ⊎ ((o ≡ written) ⊎ (((n : ℕ) × (o ≡ truncated n)) ⊎ ((n : ℕ) × (o ≡ lost n))))
writing_cases refused = inl refl
writing_cases (truncated n) = inr (inr (inl (n, refl)))
writing_cases (lost n) = inr (inr (inr (n, refl)))
writing_cases written = inr (inl refl)

temporary_ne : (platform : Platform) (p : Bytes) → temporary platform p ≢ p
temporary_ne platform p e = absurd (omega (arith, ap length e, length-append p (codes ".tmp")))

module _ (platform : Platform) (p content : Bytes) (w : World) where
  apart : same (temporary platform p) p ≡ false
  apart = same-false (temporary platform p) p (temporary_ne platform p)

  -- Where the temporary file can be renamed, a write that succeeds leaves at the path the whole content,
  -- or, where closing the temporary file has lost bytes, the part of it that reached the file; a write
  -- that fails leaves what was there.
  pub write_file_atomic_lem :
      platform.renames (temporary platform p) p ≡ true
      → (((write_file_atomic platform p content w).0 ≡ false)
          × ((write_file_atomic platform p content w).1.files p ≡ w.files p))
        ⊎ (((write_file_atomic platform p content w).0 ≡ true)
            × (((platform.writing (temporary platform p) ≡ written)
                  × ((write_file_atomic platform p content w).1.files p ≡ some content))
                ⊎ ((n : ℕ) × (platform.writing (temporary platform p) ≡ lost n)
                    × ((write_file_atomic platform p content w).1.files p
                        ≡ some (take n content)))))
  unfolding write_file_atomic
  write_file_atomic_lem h = elim (writing_cases (platform.writing (temporary platform p))) [
    | inl e ↦ inl (ground (arith, e), ground (arith, e))
    | inr (inl e) ↦ inr (
      ground (arith, e, h),
      inl (e, ground (arith, e, h, same_refl p, same_refl (temporary platform p))),
    )
    | inr (inr (inl (n, e))) ↦ inl (ground (arith, e), ground (arith, e, apart))
    | inr (inr (inr (n, e))) ↦ inr (
      ground (arith, e, h),
      inr (n, e, ground (arith, e, h, same_refl p, same_refl (temporary platform p))),
    )
  ]
