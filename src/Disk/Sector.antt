-- ===== src/Disk/Sector.antt =====
-- fatfs/ata.c: one sector, read and written, on a drive.
use os.Base.{
  ℕ, suc, ◌^◌, ◌<◌, ◌≤◌, ◌≡◌, refl, ap, ap₂, ◌∙◌, true, arith, some, List, [], ◌∷◌, ◌++◌,
  append_assoc, length, take,
}
use os.Disk.{
  Ports, select_sector, read_words, write_words, write_data, ata_read_sector, ata_write_sector,
  words_of, bytes_of,
}
use os.Disk.Drive.{
  Drive, idle, reading, writing, IsDrive, wants_data, first_word, rest_words, word_written, stored,
  lba_of, started,
}
use os.Disk.Select.{selected, lba_of-selected, started_read, started_write, select_sector_lem}
use os.Disk.Polls.{poll_bsy_lem, ata_wait_lem, poll_write_lem}

module _ (D : Ports) (view : D.State → Drive) (delay : D.State → ℕ) (limit : ℕ)
    (drive : IsDrive D view delay limit) where
  read_words_lem :
      (w : ℕ) (ws : List ℕ) (s : D.State)
      → (view s).phase ≡ reading (w ∷ ws)
      → (t : D.State) × (read_words D (suc (length ws)) s ≡ (w ∷ ws, t))
        × (view t ≡ record (view s) { phase = idle })
  unfolding read_words
  read_words_lem w [] s e =
      let r = D.inportw 0x1F0 s in
      let word : r.0 ≡ w = drive.word-inportw s ∙ ap first_word e in
      (
        r.1,
        ap (λ x. (x ∷ [], r.1)) word,
        drive.view-inportw s ∙ ap (λ p. record (view s) { phase = rest_words p }) e,
      )
  read_words_lem w (v ∷ ws) s e =
      let r = D.inportw 0x1F0 s in
      let after = drive.view-inportw s ∙ ap (λ p. record (view s) { phase = rest_words p }) e in
      let word : r.0 ≡ w = drive.word-inportw s ∙ ap first_word e in
      let (t, e', same) = read_words_lem v ws r.1 (ap (λ d. d.phase) after) in
      (
        t,
        ap₂ (λ x q. (x ∷ q.0, q.1)) word e',
        same ∙ ap (λ (d : Drive). record d { phase = idle }) after,
      )

  write_words_lem :
      (w : ℕ) (ws acc : List ℕ) (s : D.State)
      → (view s).phase ≡ writing (suc (length ws)) acc
      → view (write_words D (w ∷ ws) s) ≡ record (view s) {
        phase = idle;
        sectors = stored (view s).sectors (lba_of (view s)) (acc ++ (w ∷ ws));
      }
  unfolding write_words
  write_words_lem w [] acc s e = drive.view-outportw w s ∙ ap (λ p. word_written w p (view s)) e
  write_words_lem w (v ∷ ws) acc s e =
      let t = D.outportw 0x1F0 w s in
      let after = drive.view-outportw w s ∙ ap (λ p. word_written w p (view s)) e in
      let rest = write_words_lem v ws (acc ++ (w ∷ [])) t (ap (λ d. d.phase) after) in
      let joined = λ (d : Drive) (l : List ℕ).
        let x : Drive = record d { phase = idle; sectors = stored d.sectors (lba_of d) l } in x in
      rest
      ∙ ap (λ d. joined d ((acc ++ (w ∷ [])) ++ (v ∷ ws))) after
      ∙ ap (joined (view s)) (append_assoc acc (w ∷ []) (v ∷ ws))

  -- A drive between two commands.
  pub record IsIdle (s : D.State) : Type 0 where
    pub phase : (view s).phase ≡ idle
    pub patient : (view s).busy ≤ limit

  pub read_lem :
      (fuel lba w : ℕ) (ws : List ℕ) (s : D.State)
      → limit < fuel
      → lba < 2 ^ 28
      → (view s).sectors lba ≡ w ∷ ws
      → length ws ≡ 255
      → (t : D.State) × (ata_read_sector D fuel lba s ≡ some (bytes_of (w ∷ ws), t))
        × IsIdle t
        × ((view t).sectors ≡ (view s).sectors)
  unfolding ata_read_sector
  read_lem fuel lba w ws s enough hl e len =
      let chosen = select_sector D lba s in
      let d = selected lba (view s) in
      let asked = D.outportb 0x1F7 0x20 chosen in
      let seen : view asked
          ≡ record d { phase = reading (d.sectors (lba_of d)); busy = delay chosen } =
        drive.view-outportb 0x1F7 0x20 chosen
        ∙ ap (started 0x20 (delay chosen)) (select_sector_lem D view delay limit drive lba s)
        ∙ started_read lba (delay chosen) (view s) in
      let busy : (view asked).busy ≡ delay chosen = ap (λ x. x.busy) seen in
      let phase : (view asked).phase ≡ reading (w ∷ ws) =
        ap (λ x. x.phase) seen
        ∙ ap (λ l. reading ((view s).sectors l)) (lba_of-selected lba (view s) hl)
        ∙ ap reading e in
      let (t, waited, same) =
        ata_wait_lem D view delay limit drive fuel asked (omega (arith, drive.bounded chosen))
          (ap wants_data phase) in
      let (u, got, after) = read_words_lem w ws t (ap (λ x. x.phase) same ∙ phase) in
      let got' = rw len at got in
      (
        u,
        rw waited (rw got' refl),
        record {
          phase = ap (λ x. x.phase) after;
          patient = omega (arith, ap (λ x. x.busy) after, ap (λ x. x.busy) same);
        },
        ap (λ x. x.sectors) after ∙ ap (λ x. x.sectors) same ∙ ap (λ x. x.sectors) seen,
      )

  -- The data of a sector and the flush behind it, once the device asks for data.
  write_data_lem :
      (fuel w : ℕ) (ws buf : List ℕ) (s : D.State)
      → limit < fuel
      → (view s).phase ≡ writing 256 []
      → words_of (take 512 buf) ≡ w ∷ ws
      → length ws ≡ 255
      → (t : D.State) × (write_data D fuel buf (true, s) ≡ some t)
        × IsIdle t
        × ((view t).sectors ≡ stored (view s).sectors (lba_of (view s)) (w ∷ ws))
  unfolding write_data
  write_data_lem fuel w ws buf s enough phase e len =
      let u = write_words D (w ∷ ws) s in
      let count : (view s).phase ≡ writing (suc (length ws)) [] = rw len phase in
      let after = write_words_lem w ws [] s count in
      let flushed = D.outportb 0x1F7 0xE7 u in
      let seen : view flushed ≡ record (view u) { busy = delay u } =
        drive.view-outportb 0x1F7 0xE7 u in
      let busy : (view flushed).busy ≡ delay u = ap (λ x. x.busy) seen in
      let (status, t, polled, w') =
        poll_bsy_lem D view delay limit drive fuel flushed (omega (arith, drive.bounded u)) in
      (
        t,
        rw e (rw polled refl),
        record {
          phase = ap (λ x. x.phase) w'.same ∙ ap (λ x. x.phase) seen ∙ ap (λ x. x.phase) after;
          patient = omega (arith, ap (λ x. x.busy) w'.same);
        },
        ap (λ x. x.sectors) w'.same ∙ ap (λ x. x.sectors) seen ∙ ap (λ x. x.sectors) after,
      )

  pub write_lem :
      (fuel lba w : ℕ) (ws buf : List ℕ) (s : D.State)
      → limit < fuel
      → lba < 2 ^ 28
      → IsIdle s
      → words_of (take 512 buf) ≡ w ∷ ws
      → length ws ≡ 255
      → (t : D.State) × (ata_write_sector D fuel lba buf s ≡ some t)
        × IsIdle t
        × ((view t).sectors ≡ stored (view s).sectors lba (w ∷ ws))
  unfolding ata_write_sector
  write_lem fuel lba w ws buf s enough hl i e len =
      let (status, r, polled, w0) =
        poll_bsy_lem D view delay limit drive fuel s (omega (arith, i.patient)) in
      let chosen = select_sector D lba r in
      let d = selected lba (view r) in
      let asked = D.outportb 0x1F7 0x30 chosen in
      let seen : view asked ≡ record d { phase = writing 256 []; busy = delay chosen } =
        drive.view-outportb 0x1F7 0x30 chosen
        ∙ ap (started 0x30 (delay chosen)) (select_sector_lem D view delay limit drive lba r)
        ∙ started_write lba (delay chosen) (view r) in
      let busy : (view asked).busy ≡ delay chosen = ap (λ x. x.busy) seen in
      let phase : (view asked).phase ≡ writing 256 [] = ap (λ x. x.phase) seen in
      let (p, wanted, same) =
        poll_write_lem D view delay limit drive fuel asked (omega (arith, drive.bounded chosen))
          (ap wants_data phase) in
      let (t, written, idle_again, sectors) =
        write_data_lem fuel w ws buf p enough (ap (λ x. x.phase) same ∙ phase) e len in
      let place : lba_of (view p) ≡ lba =
        ap lba_of same ∙ ap lba_of seen ∙ lba_of-selected lba (view r) hl in
      let before : (view p).sectors ≡ (view s).sectors =
        ap (λ x. x.sectors) same ∙ ap (λ x. x.sectors) seen ∙ ap (λ x. x.sectors) w0.same in
      (
        t,
        rw polled (rw wanted written),
        idle_again,
        sectors ∙ ap₂ (λ m k. stored m k (w ∷ ws)) before place,
      )
