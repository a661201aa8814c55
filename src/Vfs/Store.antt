-- ===== src/Vfs/Store.antt =====
-- What the last part of `vfs_create_file` of kernel/fs/vfs.c leaves in memory and in the table.
use frisca_os.Prelude.{
  ℕ, ◌+◌, ◌*◌, ◌%◌, ◌^◌, ◌≤◌, ◌<◌, ◌≡◌, ◌⊎◌, refl, ap, sym, ◌∙◌, List, [], ◌∷◌, ◌++◌, true, false,
  length, length-append, length-set, length-take, get_or, get_or-append_left, get_or-append_last,
  get_or-set_self, get_or-set_ne, set, take, take_beyond, leb, arith, ℕ_discrete, dec_lt,
  if◌then◌else◌,
}
use mathlib.Core.Path.{subst}
use frisca_os.Prelude.Run.{ok}
use frisca_os.Allocator.{Allocator}
use frisca_os.CString.{Memory, pos, poke, memcpy}
use frisca_os.CString.Text.{HasText, strlen_lem, memcpy_lem, poke_self, poke_ne}
use frisca_os.CString.Copy.{HasText-frame, HasText-take}
use frisca_os.Vfs.{Node, Vfs, empty_node, fs_file, store_file}
use frisca_os.Vfs.Files.{File, no_file, FileAt, FileAt-frame, Represents, Outside}

-- The bytes of a text that are copied to `dst` and terminated there.
abbrev copied : ℕ → ℕ → ℕ → Memory → Memory
copied n dst src m = poke (dst + n) 0 (memcpy n 0 dst src m)

module _ (n dst src : ℕ) (m : Memory) (apart : (dst + n ≤ src) ⊎ (src + n ≤ dst)) where
  copied_out : (x : ℕ) → (x < dst) ⊎ (dst + n < x) → copied n dst src m x ≡ m x
  copied_out x o =
      poke_ne (dst + n) 0 x (memcpy n 0 dst src m) (omega arith)
      ∙ (memcpy_lem n dst src m apart).1 x (omega arith)

  copied-take :
      (text : List ℕ)
      → HasText m src text
      → n ≤ length text
      → HasText (copied n dst src m) dst (take n text)
  copied-take text h le =
      HasText-take n text m (copied n dst src m) dst src h le
        (λ j lt.
          poke_ne (dst + n) 0 (dst + j) (memcpy n 0 dst src m) (omega arith)
          ∙ (memcpy_lem n dst src m apart).0 j lt)
        (poke_self (dst + n) 0 (memcpy n 0 dst src m))

-- How many bytes of a name are stored.
abbrev kept_length : ℕ → ℕ
kept_length n = if leb 32 n then 31 else n

kept_length-le : (n : ℕ) → (kept_length n ≤ n) × (kept_length n < 32)
kept_length-le n = ground arith

take-kept_length : (t : List ℕ) → take (kept_length (length t)) t ≡ take 31 t
take-kept_length t = elim (dec_lt (length t) 32) [
  | yes lt ↦
      let short : leb 32 (length t) ≡ false = ground arith in
      rw short (take_beyond (length t) t (omega arith) ∙ sym (take_beyond 31 t (omega arith)))
  | no ge ↦ let long : leb 32 (length t) ≡ true = ground arith in rw long refl
]

module _ (A : Allocator) (fuel table name content : ℕ) (v : Vfs A.State) (w : A.View)
    (fs : List File) (t c : List ℕ) (a got : ℕ) (s' : A.State) (w' : A.View) where
  -- What is known when the buffer `a` is allocated.
  pub record Ready : Type 0 where
    pub represents : Represents A table v w fs
    pub room : length fs < 16
    pub name_there : HasText v.bytes name t
    pub content_there : HasText v.bytes content c
    pub name_outside : Outside A table name (length t + 1)
    pub content_outside : Outside A table content (length c + 1)
    pub table_below : table + 704 ≤ A.low
    pub enough : length t < fuel
    pub at_least : A.low ≤ a
    pub fits : length c < got
    pub holds : A.Holds s' w'
    pub in_use : A.InUse w' a got
    pub others : (x n : ℕ) → A.InUse w x n → A.InUse w' x n × ((a + got ≤ x) ⊎ (x + n ≤ a))

  abbrev filled : Memory
  filled = copied (length c) a content v.bytes

  abbrev pub slot : ℕ
  slot = table + 44 * v.file_count

  abbrev name_len : ℕ
  name_len = kept_length (length t)

  abbrev pub named : Memory
  named = copied name_len slot name filled

  abbrev new_node : Node
  new_node = record { flags = fs_file; length = length c; buffer = a }

  abbrev pub new_file : File
  new_file = record { name = take 31 t; content = c }

  -- The variables afterwards.
  abbrev pub stored : Vfs A.State
  stored = record v {
    bytes = named;
    nodes = set v.nodes v.file_count new_node;
    file_count = (v.file_count + 1) % 2 ^ 32;
    heap = s';
  }

  module _ (r : Ready) where
    content_apart : (a + length c ≤ content) ⊎ (content + length c ≤ a)
    content_apart = omega (arith, r.content_outside.below, r.at_least)

    name_in_filled : HasText filled name t
    name_in_filled = HasText-frame t v.bytes filled name r.name_there (λ x lo hi.
        copied_out (length c) a content v.bytes content_apart x
          (omega (arith, r.name_outside.below, r.at_least)))

    name_apart : (slot + name_len ≤ name) ⊎ (name + name_len ≤ slot)
    name_apart =
        omega (arith, r.name_outside.apart, r.represents.count, r.room, kept_length-le (length t))

    pub store_file-stored :
        store_file A fuel table name content (length c) a (record v { heap = s' })
        ≡ ok (pos 0, stored)
    unfolding store_file
    store_file-stored = rw (strlen_lem t fuel filled name name_in_filled r.enough) refl

    -- Outside of the new entry and the new buffer memory is as before.
    pub named_out :
        (x : ℕ) → (x < slot) ⊎ (slot + 32 ≤ x) → (x < a) ⊎ (a + length c < x) → named x ≡ v.bytes x
    named_out x o p =
        copied_out name_len slot name filled name_apart x (omega (arith, kept_length-le (length t)))
        ∙ copied_out (length c) a content v.bytes content_apart x p

    slot_below : slot + 44 ≤ A.low
    slot_below = omega (arith, r.table_below, r.represents.count, r.room)

    new-FileAt : FileAt A table named w' slot new_node new_file
    new-FileAt = record {
      name = subst (HasText named slot) (take-kept_length t) (
          copied-take name_len slot name filled name_apart t name_in_filled
            (kept_length-le (length t)).0);
      name_short = omega (
        arith,
        ap length (take-kept_length t),
        length-take name_len t (kept_length-le (length t)).0,
        kept_length-le (length t),
      );
      content =
          HasText-frame c filled named a
            (subst (HasText filled a) (take_beyond (length c) c (omega arith)) (
              copied-take (length c) a content v.bytes content_apart c r.content_there
                (omega arith)))
            (λ x lo hi.
              copied_out name_len slot name filled name_apart x
                (omega (arith, slot_below, r.at_least, kept_length-le (length t))));
      size = refl;
      flags = refl;
      got = got;
      in_use = r.in_use;
      fits = r.fits;
    }

    old-FileAt :
        (i : ℕ)
        → i < length fs
        → FileAt A table named w'
            (table + 44 * i)
            (get_or v.nodes i empty_node)
            (get_or fs i no_file)
    old-FileAt i lt =
        let x = r.represents.files i lt in
        let nd = get_or v.nodes i empty_node in
        let moved = r.others nd.buffer x.got x.in_use in
        let bounds = A.in_bounds v.heap w nd.buffer x.got r.represents.heap x.in_use in
        FileAt-frame A table v.bytes named w w' (table + 44 * i) nd (get_or fs i no_file) x moved.0
          (λ y lo hi. named_out y (omega (arith, r.represents.count)) (
            omega (
              arith, slot_below, r.at_least, r.represents.count, r.table_below,
              r.represents.bounded,
            )))
          (λ y lo hi.
            named_out y (omega (arith, slot_below, bounds)) (omega (arith, moved.1, r.fits)))

    pub stored-Represents : Represents A table stored w' (fs ++ new_file ∷ [])
    stored-Represents = record {
      heap = r.holds;
      count = omega (arith, length-append fs (new_file ∷ []), r.represents.count, r.room);
      bounded = omega (arith, length-append fs (new_file ∷ []), r.room);
      whole = length-set v.nodes v.file_count new_node ∙ r.represents.whole;
      files = λ i lt. elim (ℕ_discrete i (length fs)) [
        | yes last ↦
            let same : i ≡ v.file_count = last ∙ sym r.represents.count in
            let nd : get_or (set v.nodes v.file_count new_node) i empty_node ≡ new_node =
              ap (λ k. get_or (set v.nodes v.file_count new_node) k empty_node) same
              ∙ get_or-set_self v.nodes v.file_count new_node empty_node
                  (omega (arith, r.represents.whole, r.represents.count, r.room)) in
            let f : get_or (fs ++ new_file ∷ []) i no_file ≡ new_file =
              ap (λ k. get_or (fs ++ new_file ∷ []) k no_file) last
              ∙ get_or-append_last fs new_file no_file in
            subst (λ (p : ℕ × Node × File). FileAt A table named w' p.0 p.1 p.2)
              (λ k. (table + 44 * sym same k, sym nd k, sym f k)) new-FileAt
        | no other ↦
            let below : i < length fs = omega (arith, length-append fs (new_file ∷ [])) in
            let nd =
              get_or-set_ne v.nodes v.file_count i new_node empty_node
                (omega (arith, r.represents.count)) in
            let f = get_or-append_left fs (new_file ∷ []) i no_file below in
            subst (λ (p : Node × File). FileAt A table named w' (table + 44 * i) p.0 p.1)
              (λ k. (sym nd k, sym f k)) (old-FileAt i below)
      ];
    }
