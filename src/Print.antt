-- ===== src/Print.antt =====
-- print_uint and print_hex of kernel/lib/string.c.
-- The local array `buf`, whose bytes C leaves undefined at first, is a list that the caller gives. A
-- write below its first byte is a fault.
pub mod Decimal
pub mod Digits
pub mod Hex
mod Tests
use frisca_os.Prelude.{
  ℕ, zero, suc, ◌+◌, ◌/◌, ◌%◌, ◌^◌, List, [], ◌∷◌, bit_and, get_or, set, drop, ltb, ◌==◌,
  if◌then◌else◌,
}
use frisca_os.Prelude.Ascii.{codes}
use frisca_os.Prelude.Run.{Run, ok, fault, out_of_fuel, ◌>>=◌}
use frisca_os.Vga
use frisca_os.Vga.{Screen, Writes}

-- The bytes before the terminator, as `vga_write` reads them.
abbrev pub c_string : List ℕ → List ℕ
c_string [] = []
c_string (c ∷ cs) = if c == 0 then [] else c ∷ c_string cs

-- The loop of `print_uint`, where `start` is i + 1.
pub digit_loop : ℕ → ℕ → ℕ → List ℕ → Run (ℕ × List ℕ)
digit_loop zero num start buf = out_of_fuel
digit_loop (suc fuel) num zero buf = if ltb 0 num then fault else ok (0, buf)
digit_loop (suc fuel) num (suc i) buf =
    let rest = digit_loop fuel (num / 10) i (set buf i (b'0' + num % 10)) in
    if ltb 0 num then rest else ok (suc i, buf)

-- A `uint32_t` has at most ten digits, and the test is made once more.
abbrev pub digit_rounds : ℕ
digit_rounds = 11

-- The text that `print_uint` writes.
pub uint_text : ℕ → List ℕ → Run (List ℕ)
unfolding digit_loop
uint_text num buf =
    if num == 0
    then ok (codes "0")
    else do r ← digit_loop digit_rounds num 11 (set buf 11 0); ok (c_string (drop r.0 r.1))

pub print_uint : ℕ → List ℕ → Screen → Run (Screen × Writes)
print_uint num buf s = do text ← uint_text num buf; ok (Vga.write text s)

abbrev pub hex_chars : List ℕ
hex_chars = codes "0123456789abcdef"

-- The loop of `print_hex`, with `n` rounds left: i is n + 1.
pub hex_loop : ℕ → ℕ → List ℕ → List ℕ
hex_loop zero value buf = buf
hex_loop (suc n) value buf =
    hex_loop n (value / 2 ^ 4) (set buf (n + 2) (get_or hex_chars (bit_and value 0xf) 0))

-- The text that `print_hex` writes.
pub hex_text : ℕ → List ℕ → List ℕ
unfolding hex_loop
hex_text value buf = c_string (hex_loop 8 value (set (set (set buf 0 b'0') 1 b'x') 10 0))

pub print_hex : ℕ → List ℕ → Screen → Screen × Writes
print_hex value buf s = Vga.write (hex_text value buf) s
