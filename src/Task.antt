-- ===== src/Task.antt =====
-- task.c: the ways to user mode. Each loads the data segments, pushes five words and executes `iret`,
-- which takes them from the stack again.
pub mod Enter
mod Tests
use os.Base.{ℕ, Option, none, some, List, [], ◌∷◌}
use os.Base.Word.{set_flag, clear_flag}
use os.Shell.{codes}
use os.Vga.{Terminal, terminal_write, terminal_hexprint}

-- What `iret` loads, and the selector in `ds`, `es`, `fs` and `gs`.
pub record UserState : Type 0 where
  pub eip : ℕ
  pub cs : ℕ
  pub eflags : ℕ
  pub esp : ℕ
  pub ss : ℕ
  pub data_segments : ℕ

-- The words, the last one that was pushed first. `cli` comes before `pushfl`.
pub pushed : (entry eflags : ℕ) → List ℕ
pushed entry eflags = entry ∷ 0x1B ∷ set_flag (clear_flag eflags 9) 9 ∷ 0xBFFFF000 ∷ 0x23 ∷ []

pub iret : (data_segments : ℕ) → List ℕ → Option UserState
iret data_segments (eip ∷ (cs ∷ (eflags ∷ (esp ∷ (ss ∷ stack))))) = some (record {
  eip = eip;
  cs = cs;
  eflags = eflags;
  esp = esp;
  ss = ss;
  data_segments = data_segments;
})
iret data_segments other = none

pub switch_to_user_mode_elf : (entry_point eflags : ℕ) → Option UserState
switch_to_user_mode_elf entry_point eflags = iret 0x23 (pushed entry_point eflags)

pub switch_to_user_mode : (eflags : ℕ) → Option UserState
switch_to_user_mode eflags = iret 0x23 (pushed 0x400000 eflags)

-- With what it prints.
pub return_to_usermode : (eip eflags : ℕ) → Terminal → Terminal × Option UserState
return_to_usermode eip eflags t = (
  terminal_write (codes "\n") (
      terminal_hexprint eip (
        terminal_write (codes "Returning to usermode at EIP: ") (
          terminal_write (codes "\n")
            (terminal_hexprint eflags (terminal_write (codes "Current EFLAGS: ") t))))),
  iret 0x23 (pushed eip eflags),
)
