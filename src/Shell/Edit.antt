-- ===== src/Shell/Edit.antt =====
-- The line that is being typed, in the command buffer of kernel/shell.c.
use frisca_os.Prelude.{
  ℕ, zero, suc, ◌+◌, ◌-◌, ◌≤◌, ◌<◌, ◌≡◌, ◌≢◌, ◌⊎◌, refl, ap, sym, ◌∙◌, true, false, List, [], ◌∷◌,
  ◌++◌, length, length-append, length-take, get_or, get_or-append_left, get_or-append_last, take,
  ltb, arith, ◌==◌, if◌then◌else◌, ℕ_discrete, dec_lt,
}
use mathlib.Core.Path.{subst}
use frisca_os.Prelude.Run.{Run, ok}
use frisca_os.CString.{Memory, poke}
use frisca_os.CString.Text.{poke_self, poke_ne}
use frisca_os.Dispatch.{Places, System, Output}
use frisca_os.Vga.Calls.{Call}
use frisca_os.Shell.{shell_input}

-- The line after a key that is not Enter: Backspace takes the last byte, any other is put behind while
-- there is room for the terminator.
unfoldable pub edit : ℕ → List ℕ → List ℕ
edit c l = if c == 8 then take (length l - 1) l else if ltb (length l) 255 then l ++ c ∷ [] else l

-- What is echoed.
unfoldable pub echo : ℕ → List ℕ → List Call
echo c l =
    if c == 8
    then (if ltb 0 (length l) then Call.char 8 ∷ [] else [])
    else if ltb (length l) 255
    then Call.char c ∷ []
    else []

module _ (p : Places) where
  -- The buffer holds the line.
  pub record Typed (s : System) (l : List ℕ) : Type 0 where
    pub count : s.buffer_idx ≡ length l
    pub bounded : length l ≤ 255
    pub bytes : (i : ℕ) → i < length l → s.files.bytes (p.command_buffer + i) ≡ get_or l i 0

  -- A key other than Enter edits the line: the buffer holds the new one, the screen gets the echo, and
  -- nothing else changes but bytes of the buffer.
  pub record Edited (c : ℕ) (s : System) (l : List ℕ) (run : Run Output) : Type 0 where
    pub idx : ℕ
    pub memory : Memory
    pub returns :
        run
        ≡ ok (echo c l, record s { files = record s.files { bytes = memory }; buffer_idx = idx })
    pub typed :
        Typed (record s { files = record s.files { bytes = memory }; buffer_idx = idx }) (edit c l)
    pub kept :
        (x : ℕ) → (x < p.command_buffer) ⊎ (p.command_buffer + 255 ≤ x) → memory x ≡ s.files.bytes x

get_or-take : (n i : ℕ) (l : List ℕ) → i < n → get_or (take n l) i 0 ≡ get_or l i 0
get_or-take zero i l lt = absurd (omega arith)
get_or-take (suc n) i [] lt = refl
get_or-take (suc n) zero (c ∷ l) lt = refl
get_or-take (suc n) (suc i) (c ∷ l) lt = get_or-take n i l (omega arith)

module _ (p : Places) (s : System) (l : List ℕ) (t : Typed p s l) where
  back-Edited : Edited p 8 s l (shell_input p 8 s)
  unfolding shell_input edit echo
  back-Edited = elim (dec_lt 0 (length l)) [
    | yes some_left ↦
        let more : ltb 0 s.buffer_idx ≡ true = ground (arith, t.count) in
        let more' : ltb 0 (length l) ≡ true = ground arith in
        record {
          idx = s.buffer_idx - 1;
          memory = s.files.bytes;
          returns = rw (more, more') refl;
          typed = record {
            count = omega (arith, t.count, length-take (length l - 1) l);
            bounded = omega (arith, length-take (length l - 1) l, t.bounded);
            bytes = λ i lt.
                t.bytes i (omega (arith, length-take (length l - 1) l))
                ∙ sym
                    (get_or-take (length l - 1) i l (omega (arith, length-take (length l - 1) l)));
          };
          kept = λ x o. refl;
        }
    | no none_left ↦
        let no_more : ltb 0 s.buffer_idx ≡ false = ground (arith, t.count) in
        let no_more' : ltb 0 (length l) ≡ false = ground arith in
        record {
          idx = s.buffer_idx;
          memory = s.files.bytes;
          returns = rw (no_more, no_more') refl;
          typed = record {
            count = omega (arith, t.count, length-take (length l - 1) l);
            bounded = omega (arith, length-take (length l - 1) l);
            bytes = λ i lt. absurd (omega (arith, length-take (length l - 1) l));
          };
          kept = λ x o. refl;
        }
  ]

  key-Edited : (c : ℕ) → c ≢ 10 → c ≢ 8 → Edited p c s l (shell_input p c s)
  unfolding shell_input edit echo
  key-Edited c enter back =
      let e : (c == 10) ≡ false = ground arith in
      let b : (c == 8) ≡ false = ground arith in
      elim (dec_lt (length l) 255) [
        | yes room ↦
            let more : ltb s.buffer_idx 255 ≡ true = ground (arith, t.count) in
            let more' : ltb (length l) 255 ≡ true = ground arith in
            let at = p.command_buffer + s.buffer_idx in
            record {
              idx = s.buffer_idx + 1;
              memory = poke at c s.files.bytes;
              returns = rw (e, b, more, more') refl;
              typed =
                  rw (b, more')
                    (record {
                      count = omega (arith, t.count, length-append l (c ∷ []));
                      bounded = omega (arith, length-append l (c ∷ []));
                      bytes = λ i lt. elim (ℕ_discrete i (length l)) [
                        | yes last ↦
                            ap (λ k. poke at c s.files.bytes (p.command_buffer + k))
                              (last ∙ sym t.count)
                            ∙ poke_self at c s.files.bytes
                            ∙ sym
                                (ap (λ k. get_or (l ++ c ∷ []) k 0) last ∙ get_or-append_last l c 0)
                        | no other ↦
                            let below : i < length l = omega (arith, length-append l (c ∷ [])) in
                            poke_ne at c (p.command_buffer + i) s.files.bytes
                              (omega (arith, t.count))
                            ∙ t.bytes i below
                            ∙ sym (get_or-append_left l (c ∷ []) i 0 below)
                      ];
                    });
              kept = λ x o. poke_ne at c x s.files.bytes (omega (arith, t.count));
            }
        | no full ↦
            let no_more : ltb s.buffer_idx 255 ≡ false = ground (arith, t.count) in
            let no_more' : ltb (length l) 255 ≡ false = ground arith in
            record {
              idx = s.buffer_idx;
              memory = s.files.bytes;
              returns = rw (e, b, no_more, no_more') refl;
              typed = rw (b, no_more') t;
              kept = λ x o. refl;
            }
      ]

  -- `shell_input` of any byte but Enter, with a line of at most 255 bytes typed: it edits the line, within
  -- the buffer, echoes what is edited, and changes nothing else.
  pub shell_input-Edited : (c : ℕ) → c ≢ 10 → Edited p c s l (shell_input p c s)
  shell_input-Edited c enter = elim (ℕ_discrete c 8) [
    | yes e ↦ subst (λ k. Edited p k s l (shell_input p k s)) (sym e) back-Edited
    | no back ↦ key-Edited c enter back
  ]
