-- ===== src/Heap/Layout/Release.antt =====
-- Marking a block free, and taking back an allocation.
use frisca_os.Prelude.{
  ℕ, ◌+◌, ◌-◌, ◌≤◌, ◌<◌, ◌≡◌, ◌≢◌, true, false, inl, inr, refl, Option, some, List, [], ◌∷◌, ◌==◌,
  if◌then◌else◌, arith,
}
use frisca_os.Heap.{header, Node, node}
use frisca_os.Heap.Layout.{Block, span, link, Chain, Words, Live, release}
use frisca_os.Heap.Layout.FirstFit.{Live_bounds}

-- `cs` is `bs` less the payload in use at `a`.
pub record Releases (a p : ℕ) (bs cs : List Block) : Type 0 where
  pub same_span : span cs ≡ span bs
  pub words : Words bs → Words cs
  pub kept : (x n : ℕ) → Live p bs x n → x ≢ a → Live p cs x n
  pub gone : (n : ℕ) → ¬ (Live p cs a n)
  pub only : (x n : ℕ) → Live p cs x n → Live p bs x n

-- Marking the header at `h` free.
abbrev freed_cell : (ℕ → Option Node) → ℕ → ℕ → ℕ → (ℕ → Option Node)
freed_cell c at n next = λ x. if x == at then some (node n true next) else c x

-- Freeing a payload in use: its header is found before it, and marking that header releases it.
pub record Marks (a p : ℕ) (c : ℕ → Option Node) (bs : List Block) (n : ℕ) : Type 0 where
  pub next : ℕ
  pub found : c (a - header) ≡ some (node n false next)
  pub chain : Chain (freed_cell c (a - header) n next) p (release a p bs)
  pub releases : Releases a p bs (release a p bs)

Chain-freed :
    (c : ℕ → Option Node) (at n next p : ℕ) (bs : List Block)
    → at < p
    → Chain c p bs
    → Chain (freed_cell c at n next) p bs
Chain-freed c at n next p [] lt ch = tt
Chain-freed c at n next p (b ∷ bs) lt ch =
    (ground arith, Chain-freed c at n next (p + header + b.size) bs (omega arith) ch.1)

link-release : (end a p : ℕ) (bs : List Block) → link end (release a p bs) ≡ link end bs
unfolding release
link-release end a p [] = refl
link-release end a p (b ∷ bs) = ground arith

module _ (a p : ℕ) (c : ℕ → Option Node) (b : Block) (bs : List Block)
    (ch : Chain c p (b ∷ bs)) where
  release_here : a ≡ p + header → b.free ≡ false → Marks a p c (b ∷ bs) b.size
  unfolding release
  release_here e used =
      let at : a - header ≡ p = omega arith in
      let hit : (a == p + header) ≡ true = ground arith in
      let next = link (p + header + b.size) bs in
      record {
        next = next;
        found = rw (at, ← used) ch.0;
        chain = rw hit (
          ground arith,
          Chain-freed c (a - header) b.size next (p + header + b.size) bs (omega arith) ch.1,
        );
        releases = rw hit (record {
          same_span = refl;
          words = λ w. w;
          kept = λ x n l ne. elim l [
            | inl here ↦ absurd (ne (omega (arith, here.0)))
            | inr there ↦ inr there
          ];
          gone = λ n l. elim l [
            | inl here ↦ cc (here.1)
            | inr there ↦ omega (arith, Live_bounds (p + header + b.size) bs a n there)
          ];
          only = λ x n l. elim l [ inl here ↦ absurd (cc (here.1)) | inr there ↦ inr there ];
        });
      }

  release_there :
      (n : ℕ)
      → p + header + b.size + header ≤ a
      → Marks a (p + header + b.size) c bs n
      → Marks a p c (b ∷ bs) n
  unfolding release
  release_there n far m =
      let miss : (a == p + header) ≡ false = ground arith in
      let passed : (p == a - header) ≡ false = ground arith in
      record {
        next = m.next;
        found = m.found;
        chain = rw miss (
          rw (passed, link-release (p + header + b.size) a (p + header + b.size) bs) ch.0,
          m.chain,
        );
        releases = rw miss (record {
          same_span = omega (arith, m.releases.same_span);
          words = λ w. (w.0, m.releases.words w.1);
          kept = λ x n l ne. elim l [
            | inl here ↦ inl here
            | inr there ↦ inr (m.releases.kept x n there ne)
          ];
          gone = λ n l. elim l [
            | inl here ↦ omega (arith, here.0)
            | inr there ↦ m.releases.gone n there
          ];
          only =
              λ x n l. elim l [ inl here ↦ inl here | inr there ↦ inr (m.releases.only x n there) ];
        });
      }

pub release-Marks :
    (a p : ℕ) (c : ℕ → Option Node) (bs : List Block) (n : ℕ)
    → Chain c p bs
    → Live p bs a n
    → Marks a p c bs n
release-Marks a p c [] n ch l = elim l [ ]
release-Marks a p c (b ∷ bs) n ch (inl here) = rw here.2 (release_here a p c b bs ch here.0 here.1)
release-Marks a p c (b ∷ bs) n ch (inr there) =
    release_there a p c b bs ch n (Live_bounds (p + header + b.size) bs a n there).0
      (release-Marks a (p + header + b.size) c bs n ch.1 there)
