-- ===== src/Shell.antt =====
-- The input of kernel/shell.c: the line that is typed, and Enter.
-- The results are the calls of the VGA driver that the shell makes, oldest first, and the state.
pub mod Again
pub mod CatLine
pub mod Edit
pub mod Enter
pub mod Line
pub mod ReadBack
pub mod Returns
pub mod Session
pub mod Shown
pub mod Written
mod Tests
use frisca_os.Prelude.{
  ℕ, ◌+◌, ◌-◌, Option, none, some, List, [], ◌∷◌, ◌++◌, ltb, ◌==◌, if◌then◌else◌,
}
use frisca_os.Prelude.Run.{Run, ok, ◌>>=◌}
use frisca_os.CString.{poke}
use frisca_os.Dispatch.{Places, System, Output, say, tests, select}
use frisca_os.Command.{run_command}
use frisca_os.Vga.Calls.{Call}

-- MAX_COMMAND_LEN
abbrev pub max_command_len : ℕ
max_command_len = 256

-- `print_prompt`: light cyan is 11, white 15, black 0.
pub print_prompt : List Call
print_prompt = Call.color 11 0 ∷ say "frisca-os> " ∷ Call.color 15 0 ∷ []

-- `shell_init`: light green is 10.
unfoldable pub shell_init : System → Output
unfolding print_prompt
shell_init s = (
  Call.color 10 0 ∷ say "=== Welcome to Frisca OS Shell ===\n" ∷ Call.color 15 0 ∷ print_prompt,
  record s { buffer_idx = 0 },
)

-- The end of `execute_command`, unless the command has ended in an exception.
pub finish : Option ℕ → Output → Output
unfolding print_prompt
finish none (calls, s) = (calls ++ print_prompt, record s { buffer_idx = 0 })
finish (some vector) (calls, s) = (calls, s)

module _ (p : Places) where
  -- `execute_command`, where a line has been typed.
  pub execute_line : System → Run Output
  unfolding finish
  execute_line s = do
    let bytes = poke (p.command_buffer + s.buffer_idx) 0 s.files.bytes
    let t = record s { files = record s.files { bytes = bytes } }
    command ← select p tests bytes
    o ← run_command p command t
    ok (finish o.1.trap o)

  pub execute_command : System → Run Output
  unfolding execute_line print_prompt
  execute_command s =
      if s.buffer_idx == 0
      then ok (say "\n" ∷ print_prompt, s)
      else (do o ← execute_line s; ok (say "\n" ∷ o.0, o.1))

  pub shell_input : ℕ → System → Run Output
  unfolding execute_command
  shell_input c s =
      if c == 10
      then execute_command s
      else if c == 8
      then if ltb 0 s.buffer_idx
        then ok (Call.char 8 ∷ [], record s { buffer_idx = s.buffer_idx - 1 })
        else ok ([], s)
      else if ltb s.buffer_idx (max_command_len - 1)
      then (let bytes = poke (p.command_buffer + s.buffer_idx) c s.files.bytes in
          ok (
            Call.char c ∷ [],
            record s { files = record s.files { bytes = bytes }; buffer_idx = s.buffer_idx + 1 },
          ))
      else ok ([], s)
