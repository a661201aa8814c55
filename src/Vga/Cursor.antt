-- ===== src/Vga/Cursor.antt =====
-- The hardware cursor that kernel/drivers/vga/vga.c sets through two registers of the CRT controller.
use frisca_os.Prelude.{
  ℕ, ◌+◌, ◌*◌, ◌/◌, ◌%◌, ◌^◌, ◌<◌, ◌≡◌, ◌≢◌, refl, ap, ◌∙◌, false, [], ◌∷◌, arith, ◌==◌,
  if◌then◌else◌, bit_and,
}
use frisca_os.Prelude.Bits.{bit_and_mask}
use frisca_os.Vga.{Screen, Writes, control_port, data_port, width, update_cursor, putchar}
use frisca_os.Vga.Inv.{IsValid, position}
use frisca_os.Vga.Text.{putchar-IsValid}

-- The controller: the register that is selected, and the cursor's two registers 0x0E and 0x0F.
pub record Crtc : Type 0 where
  pub index : ℕ
  pub high : ℕ
  pub low : ℕ

-- A byte written to one of the two ports.
unfoldable pub out : ℕ × ℕ → Crtc → Crtc
out (port, value) k =
    if port == control_port
    then record k { index = value }
    else if port == data_port
    then (if k.index == 0x0e
        then record k { high = value }
        else if k.index == 0x0f
        then record k { low = value }
        else k)
    else k

unfoldable pub out_all : Writes → Crtc → Crtc
out_all [] k = k
out_all (w ∷ ws) k = out_all ws (out w k)

-- Where the controller shows the cursor.
abbrev pub shown_at : Crtc → ℕ
shown_at k = k.high * 2 ^ 8 + k.low

high_byte : (p : ℕ) → p < 2 ^ 16 → bit_and (p / 2 ^ 8) 0xff % 2 ^ 8 ≡ p / 2 ^ 8
high_byte p lt = omega (arith, bit_and_mask 8 (p / 2 ^ 8))

low_byte : (p : ℕ) → bit_and p 0xff % 2 ^ 8 ≡ p % 2 ^ 8
low_byte p = omega (arith, bit_and_mask 8 p)

update_cursor_lem :
    (x y : ℕ) (k : Crtc)
    → y * width + x < 2 ^ 16
    → shown_at (out_all (update_cursor x y) k) ≡ y * width + x
unfolding update_cursor out_all out
update_cursor_lem x y k lt =
    let p = (y * width + x) % 2 ^ 16 in omega (arith, high_byte p (omega arith), low_byte p)

putchar-writes :
    (c : ℕ) (s : Screen)
    → c ≢ 10
    → (putchar c s).1 ≡ update_cursor (putchar c s).0.column (putchar c s).0.row
unfolding putchar
putchar-writes c s n = let f : (c == 10) ≡ false = ground arith in rw f refl

-- After any byte but a newline the hardware cursor stands where the next byte will be written.
pub putchar-cursor :
    (c : ℕ) (s : Screen) (k : Crtc)
    → IsValid s
    → c ≢ 10
    → shown_at (out_all (putchar c s).1 k) ≡ position (putchar c s).0
putchar-cursor c s k v n =
    let t = (putchar c s).0 in
    let valid = putchar-IsValid c s v in
    ap (λ ws. shown_at (out_all ws k)) (putchar-writes c s n)
    ∙ update_cursor_lem t.column t.row k (omega (arith, valid.row_bound, valid.column_bound))

-- A newline leaves the hardware cursor where it was.
putchar-newline_writes : (s : Screen) → (putchar 10 s).1 ≡ []
unfolding putchar
putchar-newline_writes s = refl
