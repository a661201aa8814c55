-- ===== src/Print/Tests.antt =====
-- Numbers that kernel/lib/string.c prints.
use frisca_os.Prelude.{ℕ, ◌≡◌, refl, List, arith, replicate, length-replicate}
use frisca_os.Prelude.Ascii.{codes}
use frisca_os.Prelude.Run.{ok}
use frisca_os.Print.{uint_text, hex_text}
use frisca_os.Print.Digits.{Decimal}
use frisca_os.Print.Decimal.{uint_text-Decimal}

uint_text-Decimal_example :
    (text : List ℕ) × (uint_text 4294967295 (replicate 12 7) ≡ ok text) × Decimal 4294967295 text
uint_text-Decimal_example =
    uint_text-Decimal 4294967295 (replicate 12 7) (omega arith) (length-replicate {A = ℕ} 12 7)

greatest : uint_text 4294967295 (replicate 12 7) ≡ ok (codes "4294967295")
unfolding uint_text
greatest = refl

video_memory : hex_text 0xb8000 (replicate 11 7) ≡ codes "0x000b8000"
unfolding hex_text
video_memory = refl
