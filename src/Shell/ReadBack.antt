-- ===== src/Shell/ReadBack.antt =====
-- `write <name> <content>`, Enter, `cat <name>`, Enter in kernel/shell.c: what is read back.
use frisca_os.Prelude.{
  ℕ, ◌+◌, ◌*◌, ◌/◌, ◌≤◌, ◌<◌, ◌≡◌, ◌≢◌, ◌⊎◌, inl, inr, refl, ap, sym, ◌∙◌, List, [], ◌∷◌, ◌++◌,
  length, length-append, get_or-append_left, get_or-append_last, take, take_beyond, arith, dec_lt,
}
use frisca_os.Prelude.Ascii.{codes}
use frisca_os.Prelude.Run.{Run, ok}
use frisca_os.CString.Search.{Lacks}
use frisca_os.Command.Sound.{Sound, Roomy}
use frisca_os.Command.Write.{write_line}
use frisca_os.Dispatch.{Places, System, Output, say}
use frisca_os.Heap.{Heap}
use frisca_os.Heap.Layout.{Block, NoFit}
use frisca_os.Heap.Provider.{heap_allocator}
use frisca_os.Shell.{print_prompt, shell_input}
use frisca_os.Shell.CatLine.{Found, session_line, cat_session}
use frisca_os.Shell.Edit.{Typed}
use frisca_os.Shell.Line.{Printable, Printable-NoZero, Printable-append}
use frisca_os.Shell.Session.{after_calls, chars, session}
use frisca_os.Shell.Shown.{cat_line, content_of}
use frisca_os.Shell.Written.{shell_input-Written}
use frisca_os.Vfs.{Vfs}
use frisca_os.Vfs.Files.{File, no_file, Represents}
use frisca_os.Vfs.Find.{name_of}
use frisca_os.Vga.Calls.{Call}

module _ (p : Places) (room : Roomy p) (t : List ℕ) where
  -- What comes of the two lines, with the answers to both.
  abbrev pub ReadBack : List Block → List File → List ℕ → Run Output → Type 0
  ReadBack w fs c run =
      (message : Call) × (answer : List Call) × (after : System) × (run
        ≡ ok (
          chars (write_line t c)
              ++ ((say "\n" ∷ message ∷ print_prompt)
                  ++ (chars (cat_line t) ++ (say "\n" ∷ answer ++ print_prompt))),
          after,
        ))
      × (((message ≡ say "File created successfully!\n") × (answer ≡ Call.text c ∷ say "\n" ∷ []))
          ⊎ (((message ≡ say "Error: File already exists!\n")
                × ((k : ℕ) × (k < length fs)
                    × (name_of fs k ≡ t)
                    × (answer ≡ Call.text (content_of fs k) ∷ say "\n" ∷ [])))
              ⊎ ((message ≡ say "Error creating file!\n")
                  × ((length fs ≡ 16) ⊎ NoFit ((length c + 1 + 3) / 4 * 4) w))))

  module _ (c : List ℕ) (fs : List File) where
    -- Behind files of other names the new file is found.
    Found-new :
        (answer : List Call)
        → length t ≤ 31
        → ((j : ℕ) → j < length fs → name_of fs j ≢ t)
        → Found p room t (fs ++ record { name = take 31 t; content = c } ∷ []) answer
        → answer ≡ Call.text c ∷ say "\n" ∷ []
    Found-new answer short absent (inl (e, none_is)) =
        let f : File = record { name = take 31 t; content = c } in
        let last = get_or-append_last fs f no_file in
        absurd (
          none_is (length fs) (omega (arith, length-append fs (f ∷ [])))
            (ap (λ g. g.name) last ∙ take_beyond 31 t short))
    Found-new answer short absent (inr (k, lt, it, e)) = elim (dec_lt k (length fs)) [
      | yes old ↦
          let f : File = record { name = take 31 t; content = c } in
          absurd (
            absent k old
              (ap (λ g. g.name) (sym (get_or-append_left fs (f ∷ []) k no_file old)) ∙ it))
      | no new ↦
          let f : File = record { name = take 31 t; content = c } in
          let at : k ≡ length fs = omega (arith, length-append fs (f ∷ [])) in
          let content : content_of (fs ++ f ∷ []) k ≡ c =
            ap (λ j. content_of (fs ++ f ∷ []) j) at
            ∙ ap (λ g. g.content) (get_or-append_last fs f no_file) in
          e ∙ ap (λ d. Call.text d ∷ say "\n" ∷ []) content
    ]

    -- The first file of a name that some file has is found.
    Found-old :
        (answer : List Call) (k : ℕ)
        → k < length fs
        → name_of fs k ≡ t
        → Found p room t fs answer
        → (j : ℕ) × (j < length fs)
          × (name_of fs j ≡ t)
          × (answer ≡ Call.text (content_of fs j) ∷ say "\n" ∷ [])
    Found-old answer k lt it (inl (e, none_is)) = absurd (none_is k lt it)
    Found-old answer k lt it (inr found) = found

    -- The characters of the two lines.
    abbrev pub two_lines : List ℕ
    two_lines = write_line t c ++ (10 ∷ (cat_line t ++ 10 ∷ []))

    write_line-Printable : Printable t → Printable c → Printable (write_line t c)
    write_line-Printable a b =
        Printable-append (codes "write ") (t ++ b' ' ∷ c) (omega arith)
          (Printable-append t (b' ' ∷ c) a (omega arith, omega arith, b))

    -- The second line, over the table that the first has left.
    cat_after :
        (typed : System) (w v : List Block) (files : Vfs Heap) (gs : List File)
        → Sound p typed w fs
        → Represents (heap_allocator p.heap_start) p.table files v gs
        → Printable t
        → 0 < length t
        → length t ≤ 31
        → (answer : List Call) × (after : System) × (session p
              (cat_line t ++ 10 ∷ [])
              (record typed { files = files; buffer_idx = 0 })
            ≡ ok (chars (cat_line t) ++ (say "\n" ∷ answer ++ print_prompt), after))
          × Found p room t gs answer
    cat_after typed w v files gs sound shows printable some_name short =
        cat_session p room t v gs (record typed { files = files; buffer_idx = 0 })
          (record {
            typed = record {
              count = refl;
              bounded = omega arith;
              bytes = λ i lt. absurd (omega arith);
            };
            sound = record {
              table = shows;
              memory = sound.memory;
              ticks = sound.ticks;
              counter = sound.counter;
              frequency = sound.frequency;
              alive = sound.alive;
            };
          })
          printable some_name short

    -- The lines write <name> <content> and cat <name>, each with Enter, over a sound state with
    -- nothing typed, where name and content are printable and not empty, the name has at most 31
    -- bytes and no space, and the first line fits: every call returns. Where write says that the
    -- file was created, cat prints the content that was written; where it says that the file
    -- exists, that of a file with the name; and there is no third answer but that of an error,
    -- where there are 16 files or the heap has no room for the content and its NUL. The places are
    -- as in Roomy: the command buffer beside the file table, both below the heap, the string
    -- literals apart from the buffer, and more fuel than the heap has bytes.
    pub session-ReadBack :
        (w : List Block) (s : System)
        → Typed p s []
        → Sound p s w fs
        → Printable t
        → Printable c
        → Lacks b' ' t
        → 0 < length t
        → 0 < length c
        → length t ≤ 31
        → length t + length c ≤ 248
        → ReadBack w fs c (session p two_lines s)
    session-ReadBack w s empty sound printable content_printable lacks some_name some_content short
          fits =
        let line_printable = write_line-Printable printable content_printable in
        let (typed, e, run) =
          session_line p room t w fs (write_line t c) (cat_line t ++ 10 ∷ []) s line_printable
            (omega (arith, length-append t (b' ' ∷ c))) (record { typed = empty; sound = sound }) in
        let (files, v, answers) =
          shell_input-Written p typed fs t c w e.typed
            (Printable-NoZero (write_line t c) line_printable) e.sound.table lacks some_name
            some_content room.beside room.below room.literals (omega (arith, room.fuel))
            e.sound.alive in
        let both : (message : Call) (answer : List Call) (after : System)
            → shell_input p 10 typed
              ≡ ok (
                say "\n" ∷ message ∷ print_prompt,
                record typed { files = files; buffer_idx = 0 },
              )
            → session p (cat_line t ++ 10 ∷ []) (record typed { files = files; buffer_idx = 0 })
              ≡ ok (chars (cat_line t) ++ (say "\n" ∷ answer ++ print_prompt), after)
            → session p two_lines s
              ≡ ok (
                chars (write_line t c)
                    ++ ((say "\n" ∷ message ∷ print_prompt)
                        ++ (chars (cat_line t) ++ (say "\n" ∷ answer ++ print_prompt))),
                after,
              ) =
          λ message answer after is back.
            run (say "\n" ∷ message ∷ print_prompt) (record typed { files = files; buffer_idx = 0 })
              is
            ∙ ap
                (λ r.
                  after_calls (chars (write_line t c))
                    (after_calls (say "\n" ∷ message ∷ print_prompt) r))
                back in
        let error = say "Error creating file!\n" in
        let exists = say "Error: File already exists!\n" in
        let created = say "File created successfully!\n" in
        elim answers [
          | inl (is, shows, full) ↦
              let (answer, after, back, found) =
                cat_after typed w v files fs e.sound shows printable some_name short in
              (error, answer, after, both error answer after is back, inr (inr (refl, full)))
          | inr (inl (is, shows, (k, lt, it))) ↦
              let (answer, after, back, found) =
                cat_after typed w v files fs e.sound shows printable some_name short in
              (
                exists,
                answer,
                after,
                both exists answer after is back,
                inr (inl (refl, Found-old answer k lt it found)),
              )
          | inr (inr (is, shows, some_room, absent)) ↦
              let gs = fs ++ record { name = take 31 t; content = c } ∷ [] in
              let (answer, after, back, found) =
                cat_after typed w v files gs e.sound shows printable some_name short in
              (
                created,
                answer,
                after,
                both created answer after is back,
                inl (refl, Found-new answer short absent found),
              )
        ]
