-- ===== src/Print/Hex.antt =====
-- What `print_hex` of kernel/lib/string.c prints is the word in hexadecimal.
use frisca_os.Prelude.{
  ℕ, zero, suc, ◌+◌, ◌-◌, ◌*◌, ◌/◌, ◌%◌, List, [], ◌∷◌, get_or, leb, if◌then◌else◌,
}
use frisca_os.Print.{hex_chars}

-- The value of a hexadecimal digit.
unfoldable pub hex_digit : ℕ → ℕ
hex_digit c = if leb b'a' c then c - b'a' + 10 else c - b'0'

-- The bytes that `print_hex` puts for a number, most significant digit first.
unfoldable pub hex_digits : ℕ → ℕ → List ℕ → List ℕ
hex_digits zero value rest = rest
hex_digits (suc n) value rest = hex_digits n (value / 16) (get_or hex_chars (value % 16) 0 ∷ rest)

unfoldable pub read_hex : ℕ → List ℕ → ℕ
read_hex v [] = v
read_hex v (c ∷ cs) = read_hex (v * 16 + hex_digit c) cs
