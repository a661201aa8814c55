-- ===== src/Vfs/ReadBack.antt =====
-- An empty table of kernel/fs/vfs.c, and reading back what was created.
use frisca_os.Prelude.{
  ℕ, zero, suc, ◌+◌, ◌*◌, ◌^◌, ◌≤◌, ◌<◌, ◌≡◌, ◌≢◌, ◌⊎◌, inl, inr, refl, ap, sym, ◌∙◌, List, [], ◌∷◌,
  ◌++◌, length, length-append, length-set, get_or, get_or-append_left, get_or-append_last, set,
  Option, take, take_beyond, some, arith, ℕ_discrete,
}
use mathlib.Core.Path.{subst}
use frisca_os.Prelude.Run.{Run, ok, ok-injective}
use frisca_os.Allocator.{Allocator}
use frisca_os.CString.{pos, poke}
use frisca_os.CString.Text.{HasText, poke_ne}
use frisca_os.CString.Copy.{HasText-frame}
use frisca_os.Vfs.{Vfs, empty_node, clear_slots, vfs_init, vfs_create_file, vfs_read_file}
use frisca_os.Vfs.Files.{File, no_file, Represents, Outside}
use frisca_os.Vfs.Find.{FoundIn, name_of, vfs_read_file-FoundIn}
use frisca_os.Vfs.Create.{Added, Creation, vfs_create_file-Creation}

-- The loop of `vfs_init` leaves the count, the heap and the size of the table, and writes only the first
-- byte of each name.
pub record Cleared (A : Allocator) (table : ℕ) (v u : Vfs A.State) : Type 0 where
  pub same_count : u.file_count ≡ v.file_count
  pub same_heap : u.heap ≡ v.heap
  pub same_size : length u.nodes ≡ length v.nodes
  pub kept : (x : ℕ) → (x < table) ⊎ (table + 704 ≤ x) → u.bytes x ≡ v.bytes x

module _ (A : Allocator) (fuel table : ℕ) where
  clear_slots-Cleared :
      (n i : ℕ) (v : Vfs A.State) → i + n ≤ 16 → Cleared A table v (clear_slots A fuel table n i v)
  unfolding clear_slots
  clear_slots-Cleared zero i v le = record {
    same_count = refl;
    same_heap = refl;
    same_size = refl;
    kept = λ x o. refl;
  }
  clear_slots-Cleared (suc n) i v le =
      let u = record v {
        bytes = poke (table + 44 * i) 0 v.bytes;
        nodes = set v.nodes i empty_node;
      } in
      let c = clear_slots-Cleared n (i + 1) u (omega arith) in
      record {
        same_count = c.same_count;
        same_heap = c.same_heap;
        same_size = c.same_size ∙ length-set v.nodes i empty_node;
        kept = λ x o. c.kept x o ∙ poke_ne (table + 44 * i) 0 x v.bytes (omega arith);
      }

  -- `vfs_init` over a table of 16 entries, whatever they hold, leaves no file, and writes nothing outside of
  -- the table.
  pub vfs_init-Represents :
      (v : Vfs A.State) (w : A.View)
      → A.Holds v.heap w
      → length v.nodes ≡ 16
      → Represents A table (vfs_init A fuel table v) w []
        × Cleared A table (record v { file_count = 0 }) (vfs_init A fuel table v)
  unfolding vfs_init
  vfs_init-Represents v w holds whole =
      let c = clear_slots-Cleared 16 0 (record v { file_count = 0 }) (omega arith) in
      (
        record {
          heap = subst (λ h. A.Holds h w) (sym c.same_heap) holds;
          count = c.same_count;
          bounded = omega arith;
          whole = c.same_size ∙ whole;
          files = λ i lt. absurd (omega arith);
        },
        c,
      )

  module _ (name content : ℕ) (v v' : Vfs A.State) (w : A.View) (fs : List File)
      (t c : List ℕ) where
    -- Where a file was added, the branch of `vfs_create_file` is known.
    pub success :
        Creation A fuel table name content v fs t c w (vfs_create_file A fuel table name content v)
        → vfs_create_file A fuel table name content v ≡ ok (pos 0, v')
        → (length fs < 16)
          × ((j : ℕ) → j < length fs → name_of fs j ≢ t)
          × Added A fuel table name content v fs t c w (vfs_create_file A fuel table name content v)
    success (inl (full, e)) done = cc
    success (inr (room, inl (k, lt, it, e))) done = cc
    success (inr (room, inr (absent, inl e))) done = cc
    success (inr (room, inr (absent, inr added))) done = (room, absent, added)

    abbrev fs' : List File
    fs' = fs ++ record { name = take 31 t; content = c } ∷ []

    last_file : get_or fs' (length fs) no_file ≡ record { name = take 31 t; content = c }
    last_file = get_or-append_last fs (record { name = take 31 t; content = c }) no_file

    longer : length fs' ≡ length fs + 1
    longer = length-append fs (record { name = take 31 t; content = c } ∷ [])

    -- The first file of that name is the new one.
    last_found :
        length t < 32
        → (run : Run (Option ℕ)) → ((j : ℕ) → j < length fs → name_of fs j ≢ t)
        → FoundIn (name_of fs') t (length fs') 0 run
        → run ≡ ok (some (length fs))
    last_found short run absent (inl (e, none_is)) = absurd (
        none_is (length fs) (omega arith) (omega (arith, longer))
          (ap (λ f. f.name) last_file ∙ take_beyond 31 t (omega arith)))
    last_found short run absent (inr (k, e, lo, hi, it, first)) = elim (ℕ_discrete k (length fs)) [
      | yes same ↦ e ∙ ap (λ i. ok (some i)) same
      | no other ↦
          let below : k < length fs = omega (arith, longer) in
          absurd
            (absent k below (ap (λ f. f.name) (sym (get_or-append_left fs _ k no_file below)) ∙ it))
    ]

    -- Where `vfs_create_file` with a name of at most 31 bytes returns 0, `vfs_read_file` with that name then
    -- finds the new entry, behind the others, and its buffer holds the content.
    pub vfs_read_file-vfs_create_file :
        Represents A table v w fs
        → HasText v.bytes name t
        → HasText v.bytes content c
        → Outside A table name (length t + 1)
        → Outside A table content (length c + 1)
        → table + 704 ≤ A.low
        → length t < fuel
        → length c < fuel
        → 32 ≤ fuel
        → length c + 4 < 2 ^ 32
        → length t < 32
        → vfs_create_file A fuel table name content v ≡ ok (pos 0, v')
        → (vfs_read_file A fuel table name v' ≡ ok (some (length fs)))
          × HasText v'.bytes (get_or v'.nodes (length fs) empty_node).buffer c
          × ((get_or v'.nodes (length fs) empty_node).length ≡ length c)
    vfs_read_file-vfs_create_file r ht hc on oc below et ec en small short done =
        let branch =
          success
            (vfs_create_file-Creation A fuel table name content v fs t c w r ht hc on oc below et ec
              en small)
            done in
        let added = branch.2 in
        let same : added.after ≡ v' =
          ap (λ o. o.1)
            (ok-injective (pos 0, added.after) (pos 0, v') (sym added.returns ∙ done)) in
        let r' = subst (λ u. Represents A table u added.view fs') same added.represents in
        let kept : (x : ℕ)
            → x < A.low
            → (x < table + 44 * length fs) ⊎ (table + 44 * length fs + 32 ≤ x)
            → v'.bytes x ≡ v.bytes x =
          subst
            (λ u.
              (x : ℕ)
              → x < A.low
              → (x < table + 44 * length fs) ⊎ (table + 44 * length fs + 32 ≤ x)
              → u.bytes x ≡ v.bytes x)
            same added.kept in
        let entry = r'.files (length fs) (omega (arith, longer)) in
        let still =
          HasText-frame t v.bytes v'.bytes name ht
            (λ x lo hi. kept x (omega (arith, on.below)) (omega (arith, on.apart, branch.0))) in
        (
          last_found short (vfs_read_file A fuel table name v') branch.1
              (vfs_read_file-FoundIn A fuel table name v' added.view fs' t r' still en),
          subst (λ f. HasText v'.bytes (get_or v'.nodes (length fs) empty_node).buffer f.content)
              last_file entry.content,
          entry.size ∙ ap (λ f. length f.content) last_file,
        )
