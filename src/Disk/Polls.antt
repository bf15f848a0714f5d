-- ===== src/Disk/Polls.antt =====
-- fatfs/ata.c: the waits, and the writes of registers, on a drive.
use os.Base.{
  ℕ, zero, suc, ◌-◌, ◌<◌, ◌≡◌, refl, ap, ◌∙◌, true, false, arith, some, bit_and, ◌==◌, ◌!=◌,
  Bool-cases, inl, inr,
}
use os.Disk.{Ports, poll_bsy, poll_drq, poll_write, ata_wait}
use os.Disk.Drive.{Drive, IsDrive, wants_data}

abbrev pub ready : Drive → Drive
ready d = record d { busy = 0 }

module _ (D : Ports) (view : D.State → Drive) (delay : D.State → ℕ) (limit : ℕ)
    (drive : IsDrive D view delay limit) where
  -- The wait ends, with the last status and nothing else of the drive changed.
  pub record Waited (s t : D.State) (status : ℕ) : Type 0 where
    pub same : view t ≡ ready (view s)
    pub data_bit : (bit_and status 0x08 != 0) ≡ wants_data (view s).phase

  pub poll_bsy_lem :
      (fuel : ℕ) (s : D.State)
      → (view s).busy < fuel
      → (status : ℕ) × (t : D.State) × (poll_bsy D fuel s ≡ some (status, t)) × Waited s t status
  unfolding poll_bsy
  poll_bsy_lem zero s lt = absurd (omega arith)
  poll_bsy_lem (suc fuel) s lt =
      let r = D.inportb 0x1F7 s in
      let after = drive.view-inportb s in
      let bsy = drive.bsy s in
      elim (Bool-cases ((view s).busy != 0)) [
        | inl more ↦
            let left : (view r.1).busy ≡ (view s).busy - 1 = ap (λ d. d.busy) after in
            let (status, t, e, w) = poll_bsy_lem fuel r.1 (ground arith) in
            let bsy' : (bit_and r.0 0x80 != 0) ≡ true = bsy ∙ more in
            let phase : (view r.1).phase ≡ (view s).phase = ap (λ d. d.phase) after in
            (
              status,
              t,
              rw bsy' e,
              record {
                same = w.same ∙ ap ready after;
                data_bit = w.data_bit ∙ ap wants_data phase;
              },
            )
        | inr clear ↦
            let bsy' : (bit_and r.0 0x80 != 0) ≡ false = bsy ∙ clear in
            let zero_busy : (view s).busy ≡ 0 = ground arith in
            let data_bit = drive.drq s in
            let data_bit' = rw zero_busy at data_bit in
            let last : (view s).busy - 1 ≡ 0 = omega arith in
            (
              r.0,
              r.1,
              rw bsy' refl,
              record {
                same = after ∙ ap (λ b. record (view s) { busy = b }) last;
                data_bit = data_bit';
              },
            )
      ]

  -- While data is wanted the second loop of `ata_wait` reads nothing.
  poll_drq_lem :
      (timeout status : ℕ) (s : D.State)
      → (bit_and status 0x08 != 0) ≡ true
      → poll_drq D timeout status s ≡ s
  unfolding poll_drq
  poll_drq_lem zero status s e = refl
  poll_drq_lem (suc timeout) status s e = rw e refl

  -- `ata_wait` after a command that transfers data.
  pub ata_wait_lem :
      (fuel : ℕ) (s : D.State)
      → (view s).busy < fuel
      → wants_data (view s).phase ≡ true
      → (t : D.State) × (ata_wait D fuel s ≡ some t) × (view t ≡ ready (view s))
  unfolding ata_wait
  ata_wait_lem fuel s lt wants =
      let (status, t, e, w) = poll_bsy_lem fuel s lt in
      (t, rw e (ap some (poll_drq_lem 100000 status t (w.data_bit ∙ wants))), w.same)

  pub poll_write_lem :
      (fuel : ℕ) (s : D.State)
      → (view s).busy < fuel
      → wants_data (view s).phase ≡ true
      → (t : D.State) × (poll_write D fuel s ≡ some (true, t)) × (view t ≡ ready (view s))
  unfolding poll_write
  poll_write_lem zero s lt wants = absurd (omega arith)
  poll_write_lem (suc fuel) s lt wants =
      let r = D.inportb 0x1F7 s in
      let after = drive.view-inportb s in
      let no_error = drive.err s in
      let drq = drive.drq s in
      elim (Bool-cases ((view s).busy == 0)) [
        | inr more ↦
            let left : (view r.1).busy ≡ (view s).busy - 1 = ap (λ d. d.busy) after in
            let phase : (view r.1).phase ≡ (view s).phase = ap (λ d. d.phase) after in
            let drq' : (bit_and r.0 0x08 != 0) ≡ false = rw more at drq in
            let (t, e, same) = poll_write_lem fuel r.1 (ground arith) (rw phase wants) in
            (t, rw (no_error, drq') e, same ∙ ap ready after)
        | inl clear ↦
            let last : (view s).busy - 1 ≡ 0 = ground arith in
            let drq' : (bit_and r.0 0x08 != 0) ≡ true = rw (clear, wants) at drq in
            (r.1, rw (no_error, drq') refl, after ∙ ap (λ b. record (view s) { busy = b }) last)
      ]
