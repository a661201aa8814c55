-- ===== src/Keyboard.antt =====
-- kernel/drivers/keyboard/keyboard.c: scancodes to characters.
-- The scancode that `inb` reads from the controller is an argument; the character that is passed to
-- `shell_input`, if any, is the first result, and `shift_pressed` the second.
pub mod Chars
pub mod Shift
mod Tests
use frisca_os.Prelude.{
  ℕ, Bool, true, false, ◌||◌, not, Option, none, some, List, [], ◌∷◌, bit_and, bit_or, length,
  get_or, ltb, ◌==◌, if◌then◌else◌,
}

-- SCANCODE_LSHIFT
abbrev left_shift : ℕ
left_shift = 0x2a

-- SCANCODE_RSHIFT
abbrev right_shift : ℕ
right_shift = 0x36

-- The bit that tells a release from a press.
abbrev release_bit : ℕ
release_bit = 0x80

abbrev pub scancode_ascii_normal : List ℕ
scancode_ascii_normal =
    0 ∷ 27 ∷ b'1' ∷ b'2' ∷ b'3' ∷ b'4' ∷ b'5' ∷ b'6' ∷ b'7' ∷ b'8' ∷ b'9' ∷ b'0' ∷ b'-' ∷ b'=' ∷ 8
    ∷ 9 ∷ b'q' ∷ b'w' ∷ b'e' ∷ b'r' ∷ b't' ∷ b'y' ∷ b'u' ∷ b'i' ∷ b'o' ∷ b'p' ∷ b'[' ∷ b']' ∷ 10 ∷ 0
    ∷ b'a' ∷ b's' ∷ b'd' ∷ b'f' ∷ b'g' ∷ b'h' ∷ b'j' ∷ b'k' ∷ b'l' ∷ b';' ∷ 39 ∷ b'`' ∷ 0 ∷ 92
    ∷ b'z' ∷ b'x' ∷ b'c' ∷ b'v' ∷ b'b' ∷ b'n' ∷ b'm' ∷ b',' ∷ b'.' ∷ b'/' ∷ 0 ∷ b'*' ∷ 0 ∷ b' ' ∷ []

abbrev pub scancode_ascii_shift : List ℕ
scancode_ascii_shift =
    0 ∷ 27 ∷ b'!' ∷ b'@' ∷ b'#' ∷ b'$' ∷ b'%' ∷ b'^' ∷ b'&' ∷ b'*' ∷ b'(' ∷ b')' ∷ b'_' ∷ b'+' ∷ 8
    ∷ 9 ∷ b'Q' ∷ b'W' ∷ b'E' ∷ b'R' ∷ b'T' ∷ b'Y' ∷ b'U' ∷ b'I' ∷ b'O' ∷ b'P' ∷ b'{' ∷ b'}' ∷ 10 ∷ 0
    ∷ b'A' ∷ b'S' ∷ b'D' ∷ b'F' ∷ b'G' ∷ b'H' ∷ b'J' ∷ b'K' ∷ b'L' ∷ b':' ∷ 34 ∷ b'~' ∷ 0 ∷ b'|'
    ∷ b'Z' ∷ b'X' ∷ b'C' ∷ b'V' ∷ b'B' ∷ b'N' ∷ b'M' ∷ b'<' ∷ b'>' ∷ b'?' ∷ 0 ∷ b'*' ∷ 0 ∷ b' ' ∷ []

-- The table lookup at the end of the handler.
unfoldable pub translate : ℕ → Bool → Option ℕ
translate scancode shift =
    let current_map = if shift then scancode_ascii_shift else scancode_ascii_normal in
    let c = get_or current_map scancode 0 in
    if ltb scancode (length scancode_ascii_normal) then if c == 0 then none else some c else none

unfoldable pub handle_interrupt : ℕ → Bool → Option ℕ × Bool
unfolding translate
handle_interrupt scancode shift =
    if scancode == left_shift || scancode == right_shift
    then (none, true)
    else if scancode == bit_or left_shift release_bit || scancode == bit_or right_shift release_bit
    then (none, false)
    else if not (bit_and scancode release_bit == 0)
    then (none, shift)
    else (translate scancode shift, shift)

-- The flag after a history of scancodes.
pub shift_after : List ℕ → Bool → Bool
unfolding handle_interrupt
shift_after [] shift = shift
shift_after (s ∷ ss) shift = shift_after ss (handle_interrupt s shift).1
