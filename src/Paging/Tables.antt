-- ===== src/Paging/Tables.antt =====
-- What the loops of kernel/memory/paging.c leave in memory.
use frisca_os.Prelude.{
  ℕ, zero, suc, ◌+◌, ◌*◌, ◌%◌, ◌^◌, ◌≤◌, ◌<◌, ◌≡◌, ◌⊎◌, refl, ap, sym, ◌∙◌, true, false, arith,
  ◌==◌, ◌≢◌, ℕ_discrete,
}
use mathlib.Core.Path.{subst}
use frisca_os.Prelude.Bits.{bit_or_flags}
use frisca_os.Pmm.{Pmm, alloc_block}
use frisca_os.Pmm.Order.{FilledTo, alloc_block-FilledTo}
use frisca_os.Paging.{blank_directory, fill_table, map_tables, store, with_flags}

store_self : (a v : ℕ) (words : ℕ → ℕ) → store a v words a ≡ v
store_self a v words = let e : (a == a) ≡ true = ground arith in rw e refl

store_ne : (a v x : ℕ) (words : ℕ → ℕ) → x ≢ a → store a v words x ≡ words x
store_ne a v x words ne = let e : (x == a) ≡ false = ground arith in rw e refl

blank_directory_out :
    (n i dir x : ℕ) (words : ℕ → ℕ)
    → (x < dir + 4 * i) ⊎ (dir + 4 * (i + n) ≤ x)
    → blank_directory n i dir words x ≡ words x
unfolding blank_directory
blank_directory_out zero i dir x words o = refl
blank_directory_out (suc n) i dir x words o =
    blank_directory_out n (i + 1) dir x (store (dir + 4 * i) 0x2 words) (omega arith)
    ∙ store_ne (dir + 4 * i) 0x2 x words (omega arith)

pub blank_directory_in :
    (n i dir j : ℕ) (words : ℕ → ℕ)
    → i ≤ j
    → j < i + n
    → blank_directory n i dir words (dir + 4 * j) ≡ 2
unfolding blank_directory
blank_directory_in zero i dir j words lo hi = absurd (omega arith)
blank_directory_in (suc n) i dir j words lo hi =
    let words' = store (dir + 4 * i) 0x2 words in
    elim (ℕ_discrete i j) [
      | yes e ↦
          blank_directory_out n (i + 1) dir (dir + 4 * j) words' (omega arith)
          ∙ ap (λ t. store (dir + 4 * t) 0x2 words (dir + 4 * j)) e
          ∙ store_self (dir + 4 * j) 0x2 words
      | no ne ↦ blank_directory_in n (i + 1) dir j words' (omega arith) (omega arith)
    ]

-- The entry for the page `i` of the table `t`.
abbrev page_entry : ℕ → ℕ → ℕ
page_entry t i = with_flags ((t * 4 * 1024 * 1024 + i * 0x1000) % 2 ^ 32)

fill_table_out :
    (n i t table x : ℕ) (words : ℕ → ℕ)
    → (x < table + 4 * i) ⊎ (table + 4 * (i + n) ≤ x)
    → fill_table n i t table words x ≡ words x
unfolding fill_table
fill_table_out zero i t table x words o = refl
fill_table_out (suc n) i t table x words o =
    fill_table_out n (i + 1) t table x (store (table + 4 * i) (page_entry t i) words) (omega arith)
    ∙ store_ne (table + 4 * i) (page_entry t i) x words (omega arith)

fill_table_in :
    (n i t table j : ℕ) (words : ℕ → ℕ)
    → i ≤ j
    → j < i + n
    → fill_table n i t table words (table + 4 * j) ≡ page_entry t j
unfolding fill_table
fill_table_in zero i t table j words lo hi = absurd (omega arith)
fill_table_in (suc n) i t table j words lo hi =
    let words' = store (table + 4 * i) (page_entry t i) words in
    elim (ℕ_discrete i j) [
      | yes e ↦
          fill_table_out n (i + 1) t table (table + 4 * j) words' (omega arith)
          ∙ ap (λ k. store (table + 4 * k) (page_entry t k) words (table + 4 * j)) e
          ∙ store_self (table + 4 * j) (page_entry t j) words
      | no ne ↦ fill_table_in n (i + 1) t table j words' (omega arith) (omega arith)
    ]

with_flags-eq : (q : ℕ) → with_flags (q * 4096) ≡ q * 4096 + 3
with_flags-eq q = bit_or_flags q

page_entry-eq : (t j : ℕ) → t < 4 → j < 1024 → page_entry t j ≡ (t * 1024 + j) * 4096 + 3
page_entry-eq t j p q =
    let e : (t * 4 * 1024 * 1024 + j * 0x1000) % 2 ^ 32 ≡ (t * 1024 + j) * 4096 = omega arith in
    ap with_flags e ∙ with_flags-eq (t * 1024 + j)

-- The tables `t` and on stand in the blocks `c` and on, and the directory leads to them.
pub record Mapped (n t d c : ℕ) (before after : ℕ → ℕ) : Type 0 where
  pub entries : (u : ℕ) → u < n → after (d * 4096 + 4 * (t + u)) ≡ (c + u) * 4096 + 3
  pub pages :
      (u j : ℕ)
      → u < n
      → j < 1024
      → after ((c + u) * 4096 + 4 * j) ≡ ((t + u) * 1024 + j) * 4096 + 3
  pub kept :
      (x : ℕ)
      → x < c * 4096
      → (x < d * 4096 + 4 * t) ⊎ (d * 4096 + 4 * (t + n) ≤ x)
      → after x ≡ before x

-- One round, and what the later ones leave of it.
Mapped-step :
    (n t d c : ℕ) (words after : ℕ → ℕ)
    → d < c
    → t + suc n ≤ 4
    → Mapped n
        (t + 1)
        d
        (c + 1)
        (store (d * 4096 + 4 * t) (with_flags (c * 4096)) (fill_table 1024 0 t (c * 4096) words))
        after
    → Mapped (suc n) t d c words after
Mapped-step n t d c words after below few m =
    let slot = d * 4096 + 4 * t in
    let filled = fill_table 1024 0 t (c * 4096) words in
    let v = with_flags (c * 4096) in
    record {
      entries = λ u lt.
          elim u as (λ u. u < suc n → after (d * 4096 + 4 * (t + u)) ≡ (c + u) * 4096 + 3) [
            | zero ↦ λ l.
                ap after (omega arith)
                ∙ m.kept slot (omega arith) (omega arith)
                ∙ store_self slot v filled
                ∙ with_flags-eq c
                ∙ omega arith
            | suc w ↦ λ l. ap after (omega arith) ∙ m.entries w (omega arith) ∙ omega arith
          ]
            lt;
      pages = λ u j lt small.
          elim u
              as (λ u.
                u < suc n → after ((c + u) * 4096 + 4 * j) ≡ ((t + u) * 1024 + j) * 4096 + 3) [
                  | zero ↦ λ l.
                      ap after (omega arith)
                      ∙ m.kept (c * 4096 + 4 * j) (omega arith) (omega arith)
                      ∙ store_ne slot v (c * 4096 + 4 * j) filled (omega arith)
                      ∙ fill_table_in 1024 0 t (c * 4096) j words (omega arith) (omega arith)
                      ∙ page_entry-eq t j (omega arith) small
                      ∙ omega arith
                  | suc w ↦
                      λ l. ap after (omega arith) ∙ m.pages w j (omega arith) small ∙ omega arith
                ]
            lt;
      kept = λ x lt o.
          m.kept x (omega arith) (omega arith)
          ∙ store_ne slot v x filled (omega arith)
          ∙ fill_table_out 1024 0 t (c * 4096) x words (omega arith);
    }

pub map_tables-Mapped :
    (n t d c : ℕ) (p : Pmm) (words : ℕ → ℕ)
    → FilledTo c p
    → c + n ≤ p.max_blocks
    → d < c
    → t + n ≤ 4
    → Mapped n t d c words (map_tables n t (d * 4096) p words).0
unfolding map_tables
map_tables-Mapped zero t d c p words f room below few = record {
  entries = λ u lt. absurd (omega arith);
  pages = λ u j lt small. absurd (omega arith);
  kept = λ x lt o. refl;
}
map_tables-Mapped (suc n) t d c p words f room below few =
    let next = alloc_block-FilledTo c f (omega arith) in
    let q = (alloc_block p).1 in
    let words_at : ℕ → ℕ → ℕ =
      λ table. store (d * 4096 + 4 * t) (with_flags table) (fill_table 1024 0 t table words) in
    Mapped-step n t d c words (map_tables n (t + 1) (d * 4096) q (words_at (alloc_block p).0)).0
      below few
      (subst
        (λ table.
          Mapped n (t + 1) d (c + 1) (words_at (c * 4096))
            (map_tables n (t + 1) (d * 4096) q (words_at table)).0)
        (sym next.0)
        (map_tables-Mapped n (t + 1) d (c + 1) q (words_at (c * 4096)) next.1
          (omega (arith, next.2)) (omega arith) (omega arith)))
