-- ===== src/Disk/Roundtrip.antt =====
-- fatfs/diskio.c: what is written to sectors of a drive is read from them.
use os.Base.{ℕ, ◌+◌, ◌<◌, ◌≤◌, ◌≡◌, Option, some, List, ◌++◌, ◌⊎◌}
use os.Base.Maybe.{◌>>=◌}
use os.Disk.{Ports, disk_read, words_of}
use os.Disk.Drive.{Drive, IsDrive}
use os.Disk.Bytes.{block}

module _ (D : Ports) (view : D.State → Drive) (delay : D.State → ℕ) (limit : ℕ)
    (drive : IsDrive D view delay limit) (fuel : ℕ) (enough : limit < fuel) where
  -- The sectors from `sector` on hold the buffer.
  abbrev Holds : (sector count : ℕ) → List ℕ → D.State → Type 0
  Holds sector count buff s =
      (i : ℕ) → i < count → (view s).sectors (sector + i) ≡ words_of (block i buff)

  -- The other sectors are as before.
  abbrev Keeps : (sector count : ℕ) → D.State → D.State → Type 0
  Keeps sector count s t =
      (k : ℕ) → (k < sector) ⊎ (sector + count ≤ k) → (view t).sectors k ≡ (view s).sectors k

  -- The rest of `disk_read` behind one sector.
  abbrev with_rest : (sector count : ℕ) → List ℕ × D.State → Option (List ℕ × D.State)
  with_rest sector count r =
      disk_read D fuel (sector + 1) count r.1 >>= λ rest. some (r.0 ++ rest.0, rest.1)
