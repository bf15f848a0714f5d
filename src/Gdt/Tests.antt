-- ===== src/Gdt/Tests.antt =====
-- Examples of the segment descriptors.
use os.Base.{List, replicate}
use os.Gdt.{GdtEntry}
use os.Gdt.Segments.{empty_entry}

abbrev gdt : List GdtEntry
gdt = replicate 6 empty_entry
