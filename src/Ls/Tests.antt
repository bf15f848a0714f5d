-- ===== src/Ls/Tests.antt =====
-- An example of `ls`.
use os.Base.{◌≡◌, arith, some, []}
use os.Fat.Memory.{AnyState, memory-Lists}
use os.Theme.{default_theme}
use os.Shell.{codes}
use os.Syscall.Sample.{hello, entries, fat, kernel}
use os.Ls.{ls}
use os.Ls.Listing.{AllNamed, printed, ls_lem}

entries-AllNamed : AllNamed entries
entries-AllNamed = (
  record {
    some_byte = omega arith;
    short = omega arith;
    no_zero = (omega arith, (omega arith, (omega arith, tt)));
  },
  (
    record {
      some_byte = omega arith;
      short = omega arith;
      no_zero = (
        omega arith,
        (
          omega arith,
          (
            omega arith,
            (
              omega arith,
              (omega arith, (omega arith, (omega arith, (omega arith, (omega arith, tt))))),
            ),
          ),
        ),
      );
    },
    tt,
  ),
)

ls_example :
    ls fat 256 0x500 (codes "/") default_theme 3 kernel ≡ some (printed default_theme entries)
ls_example =
    ls_lem fat 256 0x500 (codes "/") default_theme (AnyState hello entries) entries
      (memory-Lists hello entries b'/' []) 3 kernel entries-AllNamed tt (omega arith) (omega arith)
      (omega arith)
