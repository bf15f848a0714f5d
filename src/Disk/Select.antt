-- ===== src/Disk/Select.antt =====
-- fatfs/ata.c: the registers that choose a sector.
use os.Base.{ℕ, ◌+◌, ◌/◌, ◌%◌, ◌^◌, ◌<◌, ◌≡◌, refl, true, arith, [], bit_and, bit_or, ◌==◌, ==→eq}
use os.Base.Masks.{bit_and-mod}
use os.Base.Table.{all_below, all_below_sound}
use os.Disk.{Ports, select_sector}
use os.Disk.Drive.{Drive, reading, writing, IsDrive, lba_of, started, is_selected}

abbrev pub selected : ℕ → Drive → Drive
selected lba d = record d {
  hddevsel = 0xE0 + lba / 2 ^ 24 % 16;
  seccount = 1;
  lba0 = lba % 256;
  lba1 = lba / 2 ^ 8 % 256;
  lba2 = lba / 2 ^ 16 % 256;
}

pub lba_of-selected : (lba : ℕ) (d : Drive) → lba < 2 ^ 28 → lba_of (selected lba d) ≡ lba
lba_of-selected lba d lt = omega arith

is_selected-selected : (lba : ℕ) (d : Drive) → is_selected (selected lba d) ≡ true
is_selected-selected lba d = ground arith

pub started_read :
    (lba n : ℕ) (d : Drive)
    → started 0x20 n (selected lba d)
      ≡ record (selected lba d) { phase = reading (d.sectors (lba_of (selected lba d))); busy = n }
started_read lba n d = rw (is_selected-selected lba d) refl

pub started_write :
    (lba n : ℕ) (d : Drive)
    → started 0x30 n (selected lba d) ≡ record (selected lba d) { phase = writing 256 []; busy = n }
started_write lba n d = rw (is_selected-selected lba d) refl

master_table : all_below 16 (λ x. bit_or 0xE0 x == 0xE0 + x) ≡ true
unfolding all_below
master_table = refl

master_or : (x : ℕ) → x < 16 → bit_or 0xE0 x ≡ 0xE0 + x
master_or x lt = ==→eq _ _ (all_below_sound 16 (λ x. bit_or 0xE0 x == 0xE0 + x) master_table x lt)

module _ (D : Ports) (view : D.State → Drive) (delay : D.State → ℕ) (limit : ℕ)
    (drive : IsDrive D view delay limit) where
  pub select_sector_lem :
      (lba : ℕ) (s : D.State) → view (select_sector D lba s) ≡ selected lba (view s)
  unfolding select_sector
  select_sector_lem lba s =
      let h = bit_or 0xE0 (bit_and (lba / 2 ^ 24) 0x0F) in
      let b0 = bit_and lba 0xFF in
      let b1 = bit_and (lba / 2 ^ 8) 0xFF in
      let b2 = bit_and (lba / 2 ^ 16) 0xFF in
      let s1 = D.outportb 0x1F6 h s in
      let s2 = D.outportb 0x1F2 1 s1 in
      let s3 = D.outportb 0x1F3 b0 s2 in
      let s4 = D.outportb 0x1F4 b1 s3 in
      let e1 : view s1 ≡ record (view s) { hddevsel = h } = drive.view-outportb 0x1F6 h s in
      let e2 : view s2 ≡ record (view s1) { seccount = 1 } = drive.view-outportb 0x1F2 1 s1 in
      let e3 : view s3 ≡ record (view s2) { lba0 = b0 } = drive.view-outportb 0x1F3 b0 s2 in
      let e4 : view s4 ≡ record (view s3) { lba1 = b1 } = drive.view-outportb 0x1F4 b1 s3 in
      let e5 : view (D.outportb 0x1F5 b2 s4) ≡ record (view s4) { lba2 = b2 } =
        drive.view-outportb 0x1F5 b2 s4 in
      let high : bit_and (lba / 2 ^ 24) 0x0F ≡ lba / 2 ^ 24 % 16 =
        bit_and-mod 4 (lba / 2 ^ 24) (omega arith) in
      let h' : h ≡ 0xE0 + lba / 2 ^ 24 % 16 =
        rw high (master_or (lba / 2 ^ 24 % 16) (omega arith)) in
      let b0' : b0 ≡ lba % 256 = bit_and-mod 8 lba (omega arith) in
      let b1' : b1 ≡ lba / 2 ^ 8 % 256 = bit_and-mod 8 (lba / 2 ^ 8) (omega arith) in
      let b2' : b2 ≡ lba / 2 ^ 16 % 256 = bit_and-mod 8 (lba / 2 ^ 16) (omega arith) in
      rw (e5, e4, e3, e2, e1, h', b0', b1', b2') refl
