-- ===== src/Keyboard/Tests.antt =====
-- Runs of kernel/drivers/keyboard/keyboard.c, and its theorems at concrete keys.
use frisca_os.Prelude.{◌≡◌, refl, false, ◌||◌, some, [], ◌∷◌, length}
use frisca_os.Keyboard.{handle_interrupt, shift_after, scancode_ascii_normal, scancode_ascii_shift}
use frisca_os.Keyboard.Shift.{Keys, keys_after, press, stray, shift_after-held}

tables_fit : (length scancode_ascii_normal ≡ 58) × (length scancode_ascii_shift ≡ 58)
tables_fit = (refl, refl)

enter : handle_interrupt 28 false ≡ (some 10, false)
unfolding handle_interrupt
enter = refl

key_q : (handle_interrupt 16 false).0 ≡ some b'q'
unfolding handle_interrupt
key_q = refl

abbrev up : Keys
up = record { left = false; right = false }

-- Shift down, a key, Shift up.
shift_after-held_example : shift_after (0x2a ∷ 16 ∷ 0xaa ∷ []) false ≡ (
    (keys_after (0x2a ∷ 16 ∷ 0xaa ∷ []) up).left || (keys_after (0x2a ∷ 16 ∷ 0xaa ∷ []) up).right)
unfolding press stray
shift_after-held_example =
    shift_after-held (0x2a ∷ 16 ∷ 0xaa ∷ []) up (refl, refl, (refl, refl, (refl, refl, refl)))
