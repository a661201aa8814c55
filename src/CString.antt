-- ===== src/CString.antt =====
-- kernel/lib/string.c: strings and blocks of bytes in memory.
-- Memory is a function from an address to its byte. The loops that run to a terminator run on fuel, one
-- unit for each byte that they look at; the other loops count down as the source's do.
pub mod Compare
pub mod Copy
pub mod Search
pub mod Text
mod Tests
use frisca_os.Prelude.{
  ℕ, zero, suc, ◌+◌, ◌-◌, ◌%◌, ◌^◌, Bool, true, false, ◌&&◌, ltb, ◌==◌, if◌then◌else◌, not, List,
  [], ◌∷◌,
}
use frisca_os.Prelude.Run.{Run, ok, fault, out_of_fuel, ◌>>=◌}
use frisca_os.Prelude.Word.{u8}

abbrev pub Memory : Type 0
Memory = ℕ → ℕ

-- An `int`: `pos n` is n, and `negsuc n` is - (n + 1).
pub data ℤ : Type 0 where
  pos negsuc : ℕ → ℤ

-- The difference of two bytes.
unfoldable pub byte_difference : ℕ → ℕ → ℤ
byte_difference a b = if ltb a b then negsuc (b - a - 1) else pos (a - b)

abbrev pub poke : ℕ → ℕ → Memory → Memory
poke a v m = λ x. if x == a then v else m x

-- The loop of `strlen`.
pub strlen_from : ℕ → Memory → ℕ → ℕ → Run ℕ
strlen_from zero m str len = out_of_fuel
strlen_from (suc fuel) m str len =
    let rest = strlen_from fuel m str (len + 1) in if not (m (str + len) == 0) then rest else ok len

unfoldable pub strlen : ℕ → Memory → ℕ → Run ℕ
unfolding strlen_from
strlen fuel m str = strlen_from fuel m str 0

-- The bytes that a loop up to the terminator reads, such as that of `vga_write`.
pub text_at : ℕ → Memory → ℕ → Run (List ℕ)
text_at zero m p = out_of_fuel
text_at (suc fuel) m p =
    let rest = text_at fuel m (p + 1) >>= (λ t. ok (m p ∷ t)) in if m p == 0 then ok [] else rest

pub strcmp : ℕ → Memory → ℕ → ℕ → Run ℤ
unfolding byte_difference
strcmp zero m s1 s2 = out_of_fuel
strcmp (suc fuel) m s1 s2 =
    let rest = strcmp fuel m (s1 + 1) (s2 + 1) in
    if not (m s1 == 0) && (m s1 == m s2) then rest else ok (byte_difference (m s1) (m s2))

unfoldable pub strncmp : ℕ → Memory → ℕ → ℕ → ℤ
unfolding byte_difference
strncmp zero m s1 s2 = pos 0
strncmp (suc n) m s1 s2 =
    let rest = strncmp n m (s1 + 1) (s2 + 1) in
    if not (m s1 == 0) && (m s1 == m s2) then rest else byte_difference (m s1) (m s2)

-- `strcpy`: memory afterwards.
strcpy : ℕ → Memory → ℕ → ℕ → Run Memory
strcpy zero m dest src = out_of_fuel
strcpy (suc fuel) m dest src =
    let copied = poke dest (m src) m in
    let rest = strcpy fuel copied (dest + 1) (src + 1) in
    if not (m src == 0) then rest else ok copied

-- `strchr`: the address, or 0 for NULL.
pub strchr : ℕ → Memory → ℕ → ℕ → Run ℕ
strchr zero m str ch = out_of_fuel
strchr (suc fuel) m str ch =
    let rest = strchr fuel m (str + 1) ch in
    if not (m str == u8 ch) then (if m str == 0 then ok 0 else rest) else ok str

-- `memset` from the byte `i` on, with `n` rounds left.
memset : ℕ → ℕ → ℕ → ℕ → Memory → Memory
memset zero i bufptr value m = m
memset (suc n) i bufptr value m = memset n (i + 1) bufptr value (poke (bufptr + i) (u8 value) m)

-- `memcpy` from the byte `i` on, with `n` rounds left.
unfoldable pub memcpy : ℕ → ℕ → ℕ → ℕ → Memory → Memory
memcpy zero i dst src m = m
memcpy (suc n) i dst src m = memcpy n (i + 1) dst src (poke (dst + i) (m (src + i)) m)
