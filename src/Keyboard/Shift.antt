-- ===== src/Keyboard/Shift.antt =====
-- `shift_pressed` of kernel/drivers/keyboard/keyboard.c against the two keys that it stands for.
use frisca_os.Prelude.{
  ℕ, ◌≡◌, refl, Bool, true, false, ◌||◌, ◌&&◌, not, List, [], ◌∷◌, arith, ◌==◌, if◌then◌else◌,
}
use frisca_os.Keyboard.{handle_interrupt, shift_after}

-- Which of the two Shift keys are held down.
pub record Keys : Type 0 where
  pub left : Bool
  pub right : Bool

-- What a scancode says of the two keys.
unfoldable pub press : ℕ → Keys → Keys
press s k =
    if s == 0x2a
    then record k { left = true }
    else if s == 0x36
    then record k { right = true }
    else if s == 0xaa
    then record k { left = false }
    else if s == 0xb6
    then record k { right = false }
    else k

-- The scancode releases a key that is not down.
unfoldable pub stray : ℕ → Keys → Bool
stray s k = (s == 0xaa && not k.left) || (s == 0xb6 && not k.right)

-- No key is released that is not down, and at no time are both keys down.
abbrev OneAtATime : List ℕ → Keys → Type 0
OneAtATime [] k = (k.left && k.right) ≡ false
OneAtATime (s ∷ ss) k =
    ((k.left && k.right) ≡ false) × (stray s k ≡ false) × OneAtATime ss (press s k)

-- The keys after the history.
unfoldable pub keys_after : List ℕ → Keys → Keys
keys_after [] k = k
keys_after (s ∷ ss) k = keys_after ss (press s k)

step-held :
    (s : ℕ) (k : Keys)
    → (k.left && k.right) ≡ false
    → stray s k ≡ false
    → (handle_interrupt s (k.left || k.right)).1 ≡ ((press s k).left || (press s k).right)
unfolding handle_interrupt press stray
step-held s k alone known = ground arith

-- Over a history of scancodes in which the two Shift keys are never down together and neither is
-- released unless it is down, the flag is set
-- afterwards exactly if one of them is down.
pub shift_after-held :
    (ss : List ℕ) (k : Keys)
    → OneAtATime ss k
    → shift_after ss (k.left || k.right) ≡ ((keys_after ss k).left || (keys_after ss k).right)
unfolding shift_after keys_after
shift_after-held [] k alone = refl
shift_after-held (s ∷ ss) k alone =
    rw (step-held s k alone.0 alone.1) (shift_after-held ss (press s k) alone.2)

-- Where both keys are down and one is released, the flag is cleared though the other is down.
pub shift_after_both :
    (k : Keys)
    → k.left ≡ true
    → k.right ≡ true
    → (shift_after (0xaa ∷ []) (k.left || k.right) ≡ false)
      × ((keys_after (0xaa ∷ []) k).right ≡ true)
unfolding shift_after keys_after press handle_interrupt
shift_after_both k l r = (refl, r)
