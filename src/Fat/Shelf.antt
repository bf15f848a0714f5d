-- ===== src/Fat/Shelf.antt =====
-- A file system with one file that can be written.
use os.Base.{
  ℕ, refl, ap, true, ◌==◌, if◌then◌else◌, Option, some, none, List, [], ◌++◌, length, take,
}
use os.Fat.{FatFs, Keeps}

-- The contents of the file are the state.
abbrev pub shelf : FatFs
shelf = record {
  State = List ℕ;
  File = ℕ;
  Dir = ℕ;
  f_open = λ path mode s. (some 0, if mode == 0x0A then [] else s);
  f_read = λ f n s. (true, take n s, s);
  f_write = λ f bytes s. (true, length bytes, s ++ bytes);
  f_lseek = λ f n s. s;
  f_close = λ f s. s;
  f_opendir = λ path s. (none, s);
  f_readdir = λ d s. (none, s);
  f_closedir = λ d s. s;
}

abbrev pub AnyText : List ℕ → Type 0
AnyText s = Unit

abbrev or_none : Option (List ℕ) → List ℕ
or_none none = []
or_none (some bytes) = bytes

abbrev pub shelf-Keeps : (path : List ℕ) → Keeps shelf path AnyText
shelf-Keeps path = record {
  writer = λ s. 0;
  reader = λ s. 0;
  contents = λ s. some s;
  creates = λ s g. refl;
  writes = λ s bytes g. (refl, refl, refl);
  opens = λ s bytes h. refl;
  reads = λ s bytes n h. (refl, ap (λ o. take n (or_none o)) h);
}
