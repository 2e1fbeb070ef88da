-- ===== src/Tests/Runs.antt =====
-- Runs on inputs that can be followed in the sources.
use acx_contact_cli.Prelude.{◌≡◌, refl, codes}
use acx_contact_cli.Sha256.{sha256_hex}

-- the digest of "abc" in the standard
sha256_abc :
    sha256_hex (codes "abc")
    ≡ codes "ba7816bf8f01cfea414140de5dae2223b00361a396177a9cb410ff61f20015ad"
unfolding sha256_hex
sha256_abc = refl
