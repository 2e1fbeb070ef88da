-- ===== src/World/Ident.antt =====
-- `uuid_v4` of src/utils.cpp: two random words with the version and variant bits set, printed in
-- hexadecimal with no leading zeros.
use Prim.Native.Nat.{bit_and, bit_or}
use acx_contact_cli.Prelude.{
  ℕ, zero, suc, ◌/◌, ◌%◌, ◌^◌, [], ◌∷◌, ◌++◌, Bytes, codes, ltb, if◌then◌else◌,
}
use acx_contact_cli.Json.Text.{hex_digit}

-- `o << std::hex << n`, with at most as many digits as the fuel says
unfoldable pub hex_onto : ℕ → ℕ → Bytes → Bytes
unfolding hex_digit
hex_onto zero n out = out
hex_onto (suc f) n out =
    let more = hex_onto f (n / 16) (hex_digit (n % 16) ∷ out) in
    if ltb n 16 then hex_digit n ∷ out else more

-- a 64-bit word has at most 16 digits
abbrev pub hex_text : ℕ → Bytes
hex_text n = hex_onto 16 n []

unfoldable pub uuid_text : ℕ → ℕ → Bytes
unfolding hex_onto
uuid_text first second =
    let a = bit_or (bit_and first 0xFFFF_FFFF_FFFF_0FFF) 0x4000 in
    let b = bit_or (bit_and second 0x3FFF_FFFF_FFFF_FFFF) 0x8000_0000_0000_0000 in
    hex_text (a / 2 ^ 48 % 2 ^ 16)
    ++ (hex_text (a / 2 ^ 32 % 2 ^ 16)
        ++ (codes "-"
            ++ (hex_text (bit_and (a / 2 ^ 16) 0xFFF)
                ++ (codes "-"
                    ++ (hex_text (a % 2 ^ 16)
                        ++ (codes "-"
                            ++ (hex_text (b / 2 ^ 48 % 2 ^ 16)
                                ++ (codes "-" ++ hex_text (b % 2 ^ 48)))))))))
