-- ===== src/Dispatch/Chosen.antt =====
-- What a line is like for which a command is chosen in execute_command of kernel/shell.c.
use frisca_os.Prelude.{
  ℕ, ◌≡◌, ◌⊎◌, inl, inr, refl, sym, true, List, [], ◌∷◌, ◌++◌, arith, Bool-cases,
}
use frisca_os.Prelude.Ascii.{codes}
use frisca_os.Dispatch.{Command, Test, tests}
use frisca_os.Dispatch.Choose.{starts, fits, choose}

-- A line that begins with a text.
pub starts-append : (l t : List ℕ) → starts l t ≡ true → (u : List ℕ) × (l ≡ t ++ u)
unfolding starts
starts-append l [] e = (l, refl)
starts-append [] (d ∷ t) e = absurd (cc)
starts-append (c ∷ l) (d ∷ t) e =
    let rest = starts-append l t (ground arith) in
    let first : c ≡ d = ground arith in (rest.0, λ i. (first i ∷ rest.1 i))

-- The command of some test that fits, or none does.
abbrev Hit : List Test → Command → List ℕ → Type 0
Hit [] c l = c ≡ Command.unknown
Hit (Test.word t d ∷ ts) c l = ((d ≡ c) × (fits (Test.word t d) l ≡ true)) ⊎ Hit ts c l
Hit (Test.prefix t d ∷ ts) c l = ((d ≡ c) × (fits (Test.prefix t d) l ≡ true)) ⊎ Hit ts c l

choose-Hit : (ts : List Test) (c : Command) (l : List ℕ) → choose ts l ≡ c → Hit ts c l
unfolding choose
choose-Hit [] c l e = sym e
choose-Hit (Test.word t d ∷ ts) c l e = elim (Bool-cases (fits (Test.word t d) l)) [
  | inl it ↦ inl (rw it at e, it)
  | inr no_it ↦ inr (choose-Hit ts c l (rw no_it at e))
]
choose-Hit (Test.prefix t d ∷ ts) c l e = elim (Bool-cases (fits (Test.prefix t d) l)) [
  | inl it ↦ inl (rw it at e, it)
  | inr no_it ↦ inr (choose-Hit ts c l (rw no_it at e))
]

write-Hit : (l : List ℕ) → Hit tests Command.write l → starts l (codes "write ") ≡ true
unfolding fits
write-Hit l h = ground arith

cat-Hit : (l : List ℕ) → Hit tests Command.cat l → starts l (codes "cat ") ≡ true
unfolding fits
cat-Hit l h = grind arith

pub choose-write :
    (l : List ℕ) → choose tests l ≡ Command.write → (u : List ℕ) × (l ≡ codes "write " ++ u)
choose-write l e =
    starts-append l (codes "write ") (write-Hit l (choose-Hit tests Command.write l e))

pub choose-cat :
    (l : List ℕ) → choose tests l ≡ Command.cat → (u : List ℕ) × (l ≡ codes "cat " ++ u)
choose-cat l e = starts-append l (codes "cat ") (cat-Hit l (choose-Hit tests Command.cat l e))
