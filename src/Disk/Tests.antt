-- ===== src/Disk/Tests.antt =====
-- Examples of disk access: a drive that is busy for two polls after a command.
use os.Base.{ℕ, ◌-◌, replicate, ◌==◌, if◌then◌else◌}
use os.Disk.{Ports}
use os.Disk.Drive.{Drive, Phase, idle, drive_out, word_written, first_word, rest_words, wants_data}

abbrev status : (busy : ℕ) → Phase → ℕ
status busy p = if busy == 0 then (if wants_data p then 0x58 else 0x50) else 0x80

abbrev ports : Ports
ports = record {
  State = Drive;
  inportb = λ port d. (status d.busy d.phase, record d { busy = d.busy - 1 });
  inportw = λ port d. (first_word d.phase, record d { phase = rest_words d.phase });
  outportb = λ port value d. drive_out port value 2 d;
  outportw = λ port value d. word_written value d.phase d;
}

abbrev drive : Drive
drive = record {
  hddevsel = 0;
  seccount = 0;
  lba0 = 0;
  lba1 = 0;
  lba2 = 0;
  phase = idle;
  busy = 1;
  sectors = λ k. replicate 256 0;
}
