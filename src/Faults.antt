-- ===== src/Faults.antt =====
-- idt.c and vmm.c: the handlers of exceptions, which print and hang.
use os.Base.{
  ℕ, Bool, true, false, not, List, [], ◌∷◌, ◌++◌, ltb, ◌!=◌, if◌then◌else◌, bit_and, get_or,
}
use os.Vga.{Terminal, terminal_setcolor, terminal_write}
use os.Shell.{codes}
use os.Console.{UiContext, console_write}

pub exception_messages : List (List ℕ)
exception_messages =
    codes "Division By Zero"
    ∷ codes "Debug"
    ∷ codes "Non Maskable Interrupt"
    ∷ codes "Breakpoint"
    ∷ codes "Into Detected Overflow"
    ∷ codes "Out of Bounds"
    ∷ codes "Invalid Opcode"
    ∷ codes "No Coprocessor"
    ∷ codes "Double Fault"
    ∷ codes "Coprocessor Segment Overrun"
    ∷ codes "Bad TSS"
    ∷ codes "Segment Not Present"
    ∷ codes "Stack Fault"
    ∷ codes "General Protection Fault"
    ∷ codes "Page Fault"
    ∷ codes "Unknown Interrupt"
    ∷ codes "Coprocessor Fault"
    ∷ codes "Alignment Check"
    ∷ codes "Machine Check"
    ∷ codes "Reserved"
    ∷ codes "Reserved"
    ∷ codes "Reserved"
    ∷ codes "Reserved"
    ∷ codes "Reserved"
    ∷ codes "Reserved"
    ∷ codes "Reserved"
    ∷ codes "Reserved"
    ∷ codes "Reserved"
    ∷ codes "Reserved"
    ∷ codes "Reserved"
    ∷ codes "Reserved"
    ∷ codes "Reserved"
    ∷ []

-- `VGA_COLOR_RED`
abbrev pub vga_color_red : ℕ
vga_color_red = 4

-- Whether the handler hangs, and the terminal.
pub isr_handler : (int_no : ℕ) → Terminal → Bool × Terminal
isr_handler int_no t =
    if ltb int_no 32
    then (
      true,
      terminal_write (codes " Exception. System Halted!\n") (
          terminal_write (get_or exception_messages int_no []) (terminal_setcolor vga_color_red t)),
    )
    else (false, t)

abbrev pub flag_text : (test : Bool) → List ℕ → List (List ℕ)
flag_text test text = if test then text ∷ [] else []

-- What `page_fault_handler` writes for an error code, one text for each call.
pub fault_texts : (err_code : ℕ) → List (List ℕ)
fault_texts err_code =
    codes "\nPage Fault at "
    ∷ codes " ["
    ∷ (flag_text (not (bit_and err_code 0x1 != 0)) (codes "(not present)")
        ++ (flag_text (bit_and err_code 0x2 != 0) (codes "(write)")
            ++ (flag_text (bit_and err_code 0x4 != 0) (codes "(user-mode)")
                ++ (flag_text (bit_and err_code 0x8 != 0) (codes "(reserved)")
                    ++ (flag_text (bit_and err_code 0x10 != 0) (codes "(instruction-fetch)")
                        ++ (codes "]\n" ∷ []))))))

pub write_all : List (List ℕ) → UiContext → UiContext
write_all [] ui = ui
write_all (text ∷ texts) ui = write_all texts (console_write text ui)

-- The screen that the handler leaves, before it hangs.
pub page_fault_handler : (err_code : ℕ) → UiContext → UiContext
page_fault_handler err_code ui = write_all (fault_texts err_code) ui
