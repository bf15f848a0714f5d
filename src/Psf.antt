-- ===== src/Psf.antt =====
-- drivers/video/font_psf.c: a font is read from a file into a block of the heap.
pub mod Files
use os.Base.{
  ℕ, ◌+◌, ◌-◌, ◌*◌, ◌^◌, Bool, Option, none, some, List, bit_and, ◌||◌, ◌==◌, ◌!=◌, if◌then◌else◌,
  get_or,
}
use os.Base.Word.{u32}
use os.Strings.{Bytes}
use os.Heap.{Heap, Outcome, ok, ◌>>=◌, kmalloc}
use os.Gterm.{Psf1Font}
use os.Fat.{FatFs}
use os.Elf.{store_bytes}

pub record Psf1Header : Type 0 where
  pub magic0 : ℕ
  pub magic1 : ℕ
  pub mode : ℕ
  pub charsize : ℕ

-- The structure over the bytes that were read into it; `stack` is what stood there before.
abbrev pub as_header : (stack : ℕ → ℕ) → List ℕ → Psf1Header
as_header stack bs = record {
  magic0 = get_or bs 0 (stack 0);
  magic1 = get_or bs 1 (stack 1);
  mode = get_or bs 2 (stack 2);
  charsize = get_or bs 3 (stack 3);
}

-- A negative result as a word.
abbrev pub minus : ℕ → ℕ
minus n = 2 ^ 32 - n

pub record FontState (S : Type 0) : Type 0 where
  pub fs : S
  pub heap : Heap
  pub mem : Bytes
  pub font : Psf1Font

module _ (F : FatFs) (stack : ℕ → ℕ) where
  -- What follows the check of the header, with the block that `kmalloc` gave.
  unfoldable pub read_glyphs :
      F.File → (glyphs glyph_size buffer : ℕ) → FontState F.State → ℕ × FontState F.State
  read_glyphs file glyphs glyph_size buffer s =
      if buffer == 0
      then (minus 3, record s { fs = F.f_close file s.fs })
      else (let read = F.f_read file (glyphs * glyph_size) s.fs in
          (
            0,
            record s {
              fs = F.f_close file read.2;
              mem = store_bytes buffer read.1 s.mem;
              font = record {
                glyph_buffer = buffer;
                glyph_count = glyphs;
                glyph_size = glyph_size;
              };
            },
          ))

  unfoldable pub load_opened_font :
      Option F.File → FontState F.State → Outcome (ℕ × FontState F.State)
  load_opened_font none s = ok (minus 1, s)
  load_opened_font (some file) s =
      let read = F.f_read file 4 s.fs in
      let s' = record s { fs = read.2 } in
      let header = as_header stack read.1 in
      let glyphs = (if bit_and header.mode 0x01 != 0 then 512 else 256) in
      if (header.magic0 != 0x36) || (header.magic1 != 0x04)
      then ok (minus 2, record s' { fs = F.f_close file s'.fs })
      else kmalloc (glyphs * header.charsize) s.heap >>= λ r.
          ok (read_glyphs file glyphs header.charsize r.0 (record s' { heap = r.1 }))

  unfoldable pub load_psf1_font :
      (path : List ℕ) → FontState F.State → Outcome (ℕ × FontState F.State)
  load_psf1_font path s =
      let opened = F.f_open path 1 s.fs in load_opened_font opened.0 (record s { fs = opened.1 })
