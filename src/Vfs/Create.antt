-- ===== src/Vfs/Create.antt =====
-- `vfs_create_file` of kernel/fs/vfs.c on every branch.
use frisca_os.Prelude.{
  ℕ, ◌+◌, ◌*◌, ◌^◌, ◌≤◌, ◌<◌, ◌≡◌, ◌≢◌, ◌⊎◌, inl, inr, refl, sym, List, [], ◌∷◌, ◌++◌, true, false,
  length, take, leb, arith, dec_lt, ◌==◌,
}
use mathlib.Core.Path.{subst}
use frisca_os.Prelude.Run.{Run, ok}
use frisca_os.Prelude.Word.{add32}
use frisca_os.Allocator.{Allocator}
use frisca_os.CString.{ℤ, pos, negsuc}
use frisca_os.CString.Text.{HasText, strlen_lem}
use frisca_os.Vfs.{Vfs, find_name, add_file, vfs_create_file}
use frisca_os.Vfs.Files.{File, Represents, Outside}
use frisca_os.Vfs.Find.{FoundIn, find_name-FoundIn, name_of}
use frisca_os.Vfs.Store.{Ready, stored, store_file-stored, named_out, stored-Represents}

module _ (A : Allocator) (fuel table name content : ℕ) (v : Vfs A.State) (fs : List File)
    (t c : List ℕ) (w : A.View) where
  -- A file was added: the table holds it behind the others, under at most 31 bytes of its name, and
  -- below the heap no byte outside of the new entry's name has changed.
  pub record Added (run : Run (ℤ × Vfs A.State)) : Type 0 where
    pub after : Vfs A.State
    pub view : A.View
    pub fitted : ¬ (A.Full (length c + 1) w)
    pub returns : run ≡ ok (pos 0, after)
    pub represents :
        Represents A table after view (fs ++ record { name = take 31 t; content = c } ∷ [])
    pub kept :
        (x : ℕ)
        → x < A.low
        → (x < table + 44 * length fs) ⊎ (table + 44 * length fs + 32 ≤ x)
        → after.bytes x ≡ v.bytes x
    pub others : (x n : ℕ) → A.InUse w x n → A.InUse view x n

  -- The four ways in which `vfs_create_file` ends.
  abbrev pub Creation : Run (ℤ × Vfs A.State) → Type 0
  Creation run =
      ((length fs ≡ 16) × (run ≡ ok (negsuc 0, v)))
      ⊎ ((length fs < 16)
          × (((k : ℕ) × (k < length fs) × (name_of fs k ≡ t) × (run ≡ ok (negsuc 1, v)))
              ⊎ (((j : ℕ) → j < length fs → name_of fs j ≢ t)
                  × ((A.Full (length c + 1) w × (run ≡ ok (negsuc 2, v))) ⊎ Added run))))

  module _ (r : Represents A table v w fs) (name_there : HasText v.bytes name t)
      (content_there : HasText v.bytes content c)
      (name_outside : Outside A table name (length t + 1))
      (content_outside : Outside A table content (length c + 1)) (table_below : table + 704 ≤ A.low)
      (enough : length t < fuel) (enough_content : length c < fuel) (enough_names : 32 ≤ fuel)
      (small : length c + 4 < 2 ^ 32) where
    -- The allocation, and what follows it.
    add_file-Added :
        length fs < 16
        → (A.Full (length c + 1) w × (add_file A fuel table name content v ≡ ok (negsuc 2, v)))
          ⊎ Added (add_file A fuel table name content v)
    unfolding add_file
    add_file-Added room =
        let measured = strlen_lem c fuel v.bytes content content_there enough_content in
        let asked : add32 (length c) 1 ≡ length c + 1 = omega arith in
        elim (A.serves (length c + 1) v.heap w (omega arith) (omega arith) r.heap) [
          | inl (full, stays) ↦ inl (full, rw (measured, asked, stays) refl)
          | inr (a, got, s', w', fitted, gives, fits, holds, in_use, others) ↦
              let bounds = A.in_bounds s' w' a got holds in_use in
              let pos_low = A.above_null v.heap w r.heap in
              let some_ptr : (a == 0) ≡ false = ground (arith, bounds.0) in
              let ready : Ready A fuel table name content v w fs t c a got s' w' = record {
                represents = r;
                room = room;
                name_there = name_there;
                content_there = content_there;
                name_outside = name_outside;
                content_outside = content_outside;
                table_below = table_below;
                enough = enough;
                at_least = bounds.0;
                fits = omega arith;
                holds = holds;
                in_use = in_use;
                others = others;
              } in
              let done = store_file-stored A fuel table name content v w fs t c a got s' w' ready in
              inr (record {
                after = stored A fuel table name content v w fs t c a got s' w';
                view = w';
                fitted = fitted;
                returns = rw (measured, asked, gives, some_ptr) done;
                represents =
                    stored-Represents A fuel table name content v w fs t c a got s' w' ready;
                kept = λ x below o.
                    named_out A fuel table name content v w fs t c a got s' w' ready x
                      (omega (arith, r.count)) (omega (arith, bounds.0));
                others = λ x n l. (others x n l).0;
              })
        ]

    -- vfs_create_file over a table that holds files, with the name and the content outside of it
    -- and below the heap, and enough fuel: -1 if there are 16 files, else -2 if a file has the
    -- name, else -3 if the heap has no room for the content and its NUL, and nothing has changed
    -- then; else there is room, the result is 0, the file is added behind the others under at most
    -- 31 bytes of its name, and the other bytes below the heap stay.
    pub vfs_create_file-Creation : Creation (vfs_create_file A fuel table name content v)
    unfolding vfs_create_file
    vfs_create_file-Creation = elim (dec_lt (length fs) 16) [
      | no ge ↦
          let full : leb 16 v.file_count ≡ true = ground (arith, r.count, r.bounded) in
          inl (omega (arith, r.bounded), rw full refl)
      | yes room ↦
          let some_room : leb 16 v.file_count ≡ false = ground (arith, r.count) in
          let search : FoundIn (name_of fs) t (length fs) 0
              (find_name A fuel table v.file_count 0 name v.bytes) =
            subst
              (λ n. FoundIn (name_of fs) t (length fs) 0 (find_name A fuel table n 0 name v.bytes))
              (sym r.count)
              (find_name-FoundIn A fuel table name v.bytes (name_of fs) t name_there (length fs) 0
                (λ j lo hi.
                  let f = r.files j (omega arith) in (f.name, omega (arith, f.name_short)))) in
          inr (
            room,
            elim search [
              | inl (none_is, absent) ↦
                  let e : vfs_create_file A fuel table name content v
                      ≡ add_file A fuel table name content v =
                    rw (some_room, none_is) refl in
                  inr (
                    λ j lt. absent j (omega arith) (omega arith),
                    subst (λ run. (A.Full (length c + 1) w × (run ≡ ok (negsuc 2, v))) ⊎ Added run)
                        (sym e) (add_file-Added room),
                  )
              | inr (k, found, lo, hi, it, first) ↦
                  inl (k, omega arith, it, rw (some_room, found) refl)
            ],
          )
    ]
