-- ===== src/Idt/Pic.antt =====
-- The two 8259 PICs that kernel/arch/i386/idt.c programs.
use frisca_os.Prelude.{
  ℕ, ◌+◌, ◌/◌, ◌*◌, ◌<◌, ◌≡◌, refl, Option, none, some, [], ◌∷◌, ◌==◌, if◌then◌else◌, arith, zero,
  suc,
}
use frisca_os.Prelude.Bits.{bit_at}
use frisca_os.Idt.{Writes, pic1_command, pic1_data, pic2_command, pic2_data, pic_remap}

-- One controller: how many of the three words that follow the first are still to come, the vector
-- of its line 0, its wiring, and the mask.
pub record Pic : Type 0 where
  pub awaited : ℕ
  pub offset : ℕ
  pub wiring : ℕ
  pub mode : ℕ
  pub mask : ℕ

-- A byte to the command port: 0x11 begins the initialisation.
unfoldable pub command : ℕ → Pic → Pic
command value p = if value == 0x11 then record p { awaited = 3; mask = 0 } else p

-- A byte to the data port: the words of the initialisation in turn, and then the mask.
unfoldable pub store : ℕ → ℕ → Pic → Pic
store awaited value p =
    if awaited == 3
    then record p { awaited = 2; offset = value / 8 * 8 }
    else if awaited == 2
    then record p { awaited = 1; wiring = value }
    else if awaited == 1
    then record p { awaited = 0; mode = value }
    else record p { mask = value }

unfoldable pub receive : Writes → Pic × Pic → Pic × Pic
receive [] pics = pics
receive ((port, value) ∷ ws) (m, s) = receive ws (
    if port == pic1_command
    then (command value m, s)
    else if port == pic1_data
    then (store m.awaited value m, s)
    else if port == pic2_command
    then (m, command value s)
    else if port == pic2_data
    then (m, store s.awaited value s)
    else (m, s))

-- The vector that interrupt line `n` of a controller raises, unless it is masked.
unfoldable pub raises : Pic → ℕ → Option ℕ
raises p n = if bit_at p.mask n == 0 then some (p.offset + n) else none

-- Whatever state the controllers are in, after `pic_remap` only the timer and the keyboard interrupt,
-- at the vectors 0x20 and 0x21: every other line of the master and every line of the slave is masked.
pub pic_remap-raises :
    (pics : Pic × Pic) (n : ℕ)
    → n < 8
    → (raises (receive pic_remap pics).0 n
        ≡ (if n == 0 then some 0x20 else if n == 1 then some 0x21 else none))
      × (raises (receive pic_remap pics).1 n ≡ none)
unfolding pic_remap receive raises command store
pic_remap-raises pics zero lt = (refl, refl)
pic_remap-raises pics (suc zero) lt = (refl, refl)
pic_remap-raises pics (suc (suc zero)) lt = (refl, refl)
pic_remap-raises pics (suc (suc (suc zero))) lt = (refl, refl)
pic_remap-raises pics (suc (suc (suc (suc zero)))) lt = (refl, refl)
pic_remap-raises pics (suc (suc (suc (suc (suc zero))))) lt = (refl, refl)
pic_remap-raises pics (suc (suc (suc (suc (suc (suc zero)))))) lt = (refl, refl)
pic_remap-raises pics (suc (suc (suc (suc (suc (suc (suc zero))))))) lt = (refl, refl)
pic_remap-raises pics (suc (suc (suc (suc (suc (suc (suc (suc n)))))))) lt = absurd (omega arith)
