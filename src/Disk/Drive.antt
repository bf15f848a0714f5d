-- ===== src/Disk/Drive.antt =====
-- A drive as the ATA standard describes it for commands of one sector, and what it is for a device
-- behind the ports to behave like one.
use os.Base.{
  ◌&&◌, ◌/◌, ℕ, zero, suc, ◌+◌, ◌-◌, ◌*◌, ◌%◌, ◌≤◌, ◌≡◌, Bool, true, false, List, [], ◌∷◌, ◌++◌,
  bit_and, ◌==◌, ◌!=◌, if◌then◌else◌,
}
use os.Disk.{Ports}

-- A transfer: the words that are left to read, or how many are left to write behind those that came.
pub data Phase : Type 0 where
  idle : Phase
  reading : List ℕ → Phase
  writing : ℕ → List ℕ → Phase

pub record Drive : Type 0 where
  pub hddevsel : ℕ
  pub seccount : ℕ
  pub lba0 : ℕ
  pub lba1 : ℕ
  pub lba2 : ℕ
  pub phase : Phase
  -- The reads of the status that still show BSY.
  pub busy : ℕ
  pub sectors : ℕ → List ℕ

-- The address of 28 bits in the registers.
abbrev pub lba_of : Drive → ℕ
lba_of d = d.lba0 + 0x100 * d.lba1 + 0x10000 * d.lba2 + 0x1000000 * (d.hddevsel % 16)

-- One sector of drive 0 is asked for, by its address; no other transfer is described here.
abbrev pub is_selected : Drive → Bool
is_selected d = (d.seccount == 1) && (d.hddevsel / 16 == 0xE)

abbrev pub started : (command delay : ℕ) → Drive → Drive
started command delay d =
    if command == 0x20
    then (if is_selected d
        then record d { phase = reading (d.sectors (lba_of d)); busy = delay }
        else record d { busy = delay })
    else if command == 0x30
    then (if is_selected d
        then record d { phase = writing 256 []; busy = delay }
        else record d { busy = delay })
    else record d { busy = delay }

abbrev pub drive_out : (port value delay : ℕ) → Drive → Drive
drive_out port value delay d =
    if port == 0x1F7
    then started value delay d
    else if port == 0x1F6
    then record d { hddevsel = value }
    else if port == 0x1F5
    then record d { lba2 = value }
    else if port == 0x1F4
    then record d { lba1 = value }
    else if port == 0x1F3
    then record d { lba0 = value }
    else if port == 0x1F2
    then record d { seccount = value }
    else d

abbrev pub stored : (ℕ → List ℕ) → ℕ → List ℕ → ℕ → List ℕ
stored sectors lba ws k = if k == lba then ws else sectors k

-- The last word of a sector writes it.
abbrev pub word_written : ℕ → Phase → Drive → Drive
word_written w (writing zero ws) d = d
word_written w (writing (suc zero) ws) d = record d {
  phase = idle;
  sectors = stored d.sectors (lba_of d) (ws ++ (w ∷ []));
}
word_written w (writing (suc (suc n)) ws) d = record d { phase = writing (suc n) (ws ++ (w ∷ [])) }
word_written w p d = d

abbrev pub first_word : Phase → ℕ
first_word (reading (w ∷ ws)) = w
first_word p = 0

abbrev pub rest_words : Phase → Phase
rest_words (reading (w ∷ [])) = idle
rest_words (reading (w ∷ (v ∷ ws))) = reading (v ∷ ws)
rest_words p = p

abbrev pub wants_data : Phase → Bool
wants_data idle = false
wants_data p = true

-- The ports lead to a drive, which is busy for a while after each command. It is one of those that keep DRQ
-- and ERR clear while they are busy, as emulated drives do, where the standard leaves these bits open; and
-- no command fails.
pub record IsDrive (D : Ports) (view : D.State → Drive) (delay : D.State → ℕ) (limit : ℕ)
    : Type 0 where
  pub view-outportb :
      (port value : ℕ) (s : D.State)
      → view (D.outportb port value s) ≡ drive_out port value (delay s) (view s)
  pub view-outportw :
      (w : ℕ) (s : D.State) → view (D.outportw 0x1F0 w s) ≡ word_written w (view s).phase (view s)
  pub word-inportw : (s : D.State) → (D.inportw 0x1F0 s).0 ≡ first_word (view s).phase
  pub view-inportw :
      (s : D.State)
      → view (D.inportw 0x1F0 s).1 ≡ record (view s) { phase = rest_words (view s).phase }
  pub view-inportb :
      (s : D.State) → view (D.inportb 0x1F7 s).1 ≡ record (view s) { busy = (view s).busy - 1 }
  pub bsy : (s : D.State) → (bit_and (D.inportb 0x1F7 s).0 0x80 != 0) ≡ ((view s).busy != 0)
  pub drq :
      (s : D.State)
      → (bit_and (D.inportb 0x1F7 s).0 0x08 != 0)
        ≡ (if (view s).busy == 0 then wants_data (view s).phase else false)
  pub err : (s : D.State) → (bit_and (D.inportb 0x1F7 s).0 0x01 != 0) ≡ false
  pub bounded : (s : D.State) → delay s ≤ limit
