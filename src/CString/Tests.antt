-- ===== src/CString/Tests.antt =====
-- Runs of kernel/lib/string.c on two short texts.
use frisca_os.Prelude.{◌≡◌, refl, [], ◌∷◌, get_or}
use frisca_os.Prelude.Run.{ok}
use frisca_os.CString.{Memory, negsuc, strcmp}
use frisca_os.CString.Compare.{compare_texts}

-- "ls" at 0 and "lst" at 3
abbrev memory : Memory
memory a = get_or (b'l' ∷ b's' ∷ 0 ∷ b'l' ∷ b's' ∷ b't' ∷ 0 ∷ []) a 0

shorter_runs : strcmp 9 memory 0 3 ≡ ok (negsuc 115)
unfolding strcmp
shorter_runs = refl

shorter_first : compare_texts (b'l' ∷ b's' ∷ []) (b'l' ∷ b's' ∷ b't' ∷ []) ≡ negsuc 115
unfolding compare_texts
shorter_first = refl
