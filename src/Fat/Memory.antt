-- ===== src/Fat/Memory.antt =====
-- A file system with one file, to run the kernel's code on.
use os.Base.{
  ℕ, zero, suc, ◌+◌, ◌-◌, ◌≤◌, ◌≡◌, refl, ap, ◌∙◌, true, arith, Option, none, some, List, [], ◌∷◌,
  length, take, drop,
}
use os.Fat.{FilInfo, FatFs, IsLawful, one_if, entry_at, nth_entry, Lists}

-- The number of open objects, the place in the file, and in the directory.
pub record Disk : Type 0 where
  pub opened : ℕ
  pub at : ℕ
  pub entry : ℕ

length-take : (n : ℕ) (xs : List ℕ) → length (take n xs) ≤ n
length-take zero xs = omega arith
length-take (suc n) [] = omega arith
length-take (suc n) (x ∷ xs) = omega (arith, length-take n xs)

-- Every path but the empty one is the file.
abbrev file_at : List ℕ → Disk → Option ℕ × Disk
file_at [] s = (none, s)
file_at (c ∷ path) s = (some 0, record s { opened = s.opened + 1; at = 0; entry = 0 })

module _ (contents : List ℕ) (entries : List FilInfo) where
  abbrev pub memory : FatFs
  memory = record {
    State = Disk;
    File = ℕ;
    Dir = ℕ;
    f_open = λ path mode s. file_at path s;
    f_read = λ f n s. (
      true,
      take n (drop s.at contents),
      record s { at = s.at + length (take n (drop s.at contents)) },
    );
    f_write = λ f bytes s. (true, length bytes, record s { at = s.at + length bytes });
    f_lseek = λ f n s. record s { at = n };
    f_close = λ f s. record s { opened = s.opened - 1 };
    f_opendir = λ path s. file_at path s;
    f_readdir = λ d s. (entry_at entries s.entry, record s { entry = s.entry + 1 });
    f_closedir = λ d s. record s { opened = s.opened - 1 };
  }

  abbrev pub open_count : memory.State → ℕ
  open_count s = s.opened

  opened-file_at :
      (path : List ℕ) (s : Disk) → (file_at path s).1.opened ≡ s.opened + one_if (file_at path s).0
  opened-file_at [] s = omega arith
  opened-file_at (c ∷ path) s = refl

  pub memory-IsLawful : IsLawful memory open_count
  memory-IsLawful = record {
    opened-open = λ path mode s. opened-file_at path s;
    opened-read = λ f n s. refl;
    opened-write = λ f bytes s. refl;
    opened-lseek = λ f n s. refl;
    opened-close = λ f s. refl;
    opened-opendir = λ path s. opened-file_at path s;
    opened-readdir = λ d s. refl;
    opened-closedir = λ d s. refl;
    length-read = λ f n s. length-take n (drop s.at contents);
  }

  nth_entry-memory :
      (i d : ℕ) (s : Disk) → (nth_entry memory i d s).0 ≡ entry_at entries (s.entry + i)
  nth_entry-memory zero d s = ap (entry_at entries) (omega arith)
  nth_entry-memory (suc i) d s =
      nth_entry-memory i d (record s { entry = s.entry + 1 }) ∙ ap (entry_at entries) (omega arith)

  abbrev pub AnyState : Disk → Type 0
  AnyState s = Unit

  pub memory-Lists : (c : ℕ) (path : List ℕ) → Lists memory (c ∷ path) AnyState entries
  memory-Lists c path = record {
    dir = λ s. 0;
    opens = λ s g. refl;
    entries = λ s g i.
        nth_entry-memory i 0 (record { opened = s.opened + 1; at = 0; entry = 0 })
        ∙ ap (entry_at entries) (omega arith);
    again = λ s g i. tt;
  }
