-- ===== src/Disk.antt =====
-- fatfs/ata.c and fatfs/diskio.c: sectors of the disk over the ports of the primary ATA channel. The
-- ports are a parameter, with the state of the device behind them. A loop that waits for the device
-- has fuel, and gives `none` when that runs out.
pub mod Drive
pub mod Polls
pub mod Bytes
pub mod Select
pub mod Sector
pub mod Roundtrip
mod Tests
use os.Base.{
  ℕ, zero, suc, ◌+◌, ◌*◌, ◌/◌, ◌%◌, ◌^◌, Bool, true, false, Option, none, some, List, [], ◌∷◌, ◌++◌,
  bit_and, bit_or, ◌==◌, ◌!=◌, if◌then◌else◌, take, drop,
}
use os.Base.Maybe.{◌>>=◌}
use os.Base.Word.{u32, u8}

pub record Ports : Type 1 where
  pub State : Type 0
  pub inportb : (port : ℕ) → State → ℕ × State
  pub inportw : (port : ℕ) → State → ℕ × State
  pub outportb : (port value : ℕ) → State → State
  pub outportw : (port value : ℕ) → State → State

abbrev pub ata_primary_io : ℕ
ata_primary_io = 0x1F0

abbrev pub ata_master : ℕ
ata_master = 0xE0

abbrev pub ata_reg_data : ℕ
ata_reg_data = 0

abbrev pub ata_reg_seccount0 : ℕ
ata_reg_seccount0 = 2

abbrev pub ata_reg_lba0 : ℕ
ata_reg_lba0 = 3

abbrev pub ata_reg_lba1 : ℕ
ata_reg_lba1 = 4

abbrev pub ata_reg_lba2 : ℕ
ata_reg_lba2 = 5

abbrev pub ata_reg_hddevsel : ℕ
ata_reg_hddevsel = 6

abbrev pub ata_reg_command : ℕ
ata_reg_command = 7

abbrev pub ata_reg_status : ℕ
ata_reg_status = 7

abbrev pub ata_cmd_read_pio : ℕ
ata_cmd_read_pio = 0x20

abbrev pub ata_cmd_write_pio : ℕ
ata_cmd_write_pio = 0x30

abbrev pub ata_cmd_cache_flush : ℕ
ata_cmd_cache_flush = 0xE7

abbrev pub ata_sr_bsy : ℕ
ata_sr_bsy = 0x80

abbrev pub ata_sr_drq : ℕ
ata_sr_drq = 0x08

abbrev pub ata_sr_err : ℕ
ata_sr_err = 0x01

-- `buf` as an array of `uint16_t`, little-endian, and back.
pub words_of : List ℕ → List ℕ
words_of [] = []
words_of (a ∷ []) = []
words_of (a ∷ (b ∷ bs)) = (a + 256 * b) ∷ words_of bs

pub bytes_of : List ℕ → List ℕ
bytes_of [] = []
bytes_of (w ∷ ws) = (w % 256) ∷ ((w / 256) ∷ bytes_of ws)

module _ (D : Ports) where
  abbrev pub read_status : D.State → ℕ × D.State
  read_status s = D.inportb (ata_primary_io + ata_reg_status) s

  abbrev pub write_reg : (reg value : ℕ) → D.State → D.State
  write_reg reg value s = D.outportb (ata_primary_io + reg) value s

  -- The loops that wait until BSY is clear.
  pub poll_bsy : (fuel : ℕ) → D.State → Option (ℕ × D.State)
  poll_bsy zero s = none
  poll_bsy (suc fuel) s =
      let r = read_status s in
      let rest = poll_bsy fuel r.1 in if bit_and r.0 ata_sr_bsy != 0 then rest else some r

  -- The second loop of `ata_wait`, with `timeout` rounds left.
  pub poll_drq : (timeout status : ℕ) → D.State → D.State
  poll_drq zero status s = s
  poll_drq (suc timeout) status s =
      let r = read_status s in
      let rest = poll_drq timeout r.0 r.1 in
      if bit_and status ata_sr_drq != 0
      then s
      else if bit_and r.0 ata_sr_err != 0
      then r.1
      else rest

  pub ata_wait : (fuel : ℕ) → D.State → Option D.State
  ata_wait fuel s = poll_bsy fuel s >>= λ r. some (poll_drq 100000 r.0 r.1)

  -- The five writes that choose a sector.
  pub select_sector : (lba : ℕ) → D.State → D.State
  select_sector lba s = write_reg ata_reg_lba2 (bit_and (lba / 2 ^ 16) 0xFF) (
      write_reg ata_reg_lba1 (bit_and (lba / 2 ^ 8) 0xFF) (
        write_reg ata_reg_lba0 (bit_and lba 0xFF) (
          write_reg ata_reg_seccount0 1
            (write_reg ata_reg_hddevsel (bit_or ata_master (bit_and (lba / 2 ^ 24) 0x0F)) s))))

  pub read_words : (n : ℕ) → D.State → List ℕ × D.State
  read_words zero s = ([], s)
  read_words (suc n) s =
      let r = D.inportw (ata_primary_io + ata_reg_data) s in
      let rest = read_words n r.1 in (r.0 ∷ rest.0, rest.1)

  -- The bytes that it puts into `buf`.
  pub ata_read_sector : (fuel lba : ℕ) → D.State → Option (List ℕ × D.State)
  ata_read_sector fuel lba s =
      let asked = write_reg ata_reg_command ata_cmd_read_pio (select_sector lba s) in
      ata_wait fuel asked >>= λ t. let r = read_words 256 t in some (bytes_of r.0, r.1)

  -- The loop behind the write command: `true` when the device asks for data, `false` at an error.
  pub poll_write : (fuel : ℕ) → D.State → Option (Bool × D.State)
  poll_write zero s = none
  poll_write (suc fuel) s =
      let r = read_status s in
      let rest = poll_write fuel r.1 in
      if bit_and r.0 ata_sr_err != 0
      then some (false, r.1)
      else if bit_and r.0 ata_sr_drq != 0
      then some (true, r.1)
      else rest

  pub write_words : List ℕ → D.State → D.State
  write_words [] s = s
  write_words (w ∷ ws) s = write_words ws (D.outportw (ata_primary_io + ata_reg_data) w s)

  -- What follows the wait for data.
  pub write_data : (fuel : ℕ) → (buf : List ℕ) → Bool × D.State → Option D.State
  write_data fuel buf (false, s) = some s
  write_data fuel buf (true, s) =
      let flushed =
        write_reg ata_reg_command ata_cmd_cache_flush (write_words (words_of (take 512 buf)) s) in
      poll_bsy fuel flushed >>= λ r. some r.1

  pub ata_write_sector : (fuel lba : ℕ) → (buf : List ℕ) → D.State → Option D.State
  ata_write_sector fuel lba buf s = poll_bsy fuel s >>= λ r.
      poll_write fuel (write_reg ata_reg_command ata_cmd_write_pio (select_sector lba r.1)) >>= λ p.
      write_data fuel buf p

  -- The loop of `disk_read` with `count` sectors left; the result is `RES_OK` whatever happens.
  pub disk_read : (fuel sector count : ℕ) → D.State → Option (List ℕ × D.State)
  disk_read fuel sector zero s = some ([], s)
  disk_read fuel sector (suc count) s = ata_read_sector fuel (u32 sector) s >>= λ r.
      disk_read fuel (sector + 1) count r.1 >>= λ rest. some (r.0 ++ rest.0, rest.1)

  -- The loop of `disk_write`.
  pub disk_write : (fuel : ℕ) → (buff : List ℕ) → (sector count : ℕ) → D.State → Option D.State
  disk_write fuel buff sector zero s = some s
  disk_write fuel buff sector (suc count) s = ata_write_sector fuel (u32 sector) buff s >>= λ t.
      disk_write fuel (drop 512 buff) (sector + 1) count t
