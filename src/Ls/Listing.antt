-- ===== src/Ls/Listing.antt =====
-- user_programs/ls.c: the whole listing.
use mathlib.Core.Option.{some-injective}
use os.Base.{
  ℕ, zero, suc, ◌+◌, ◌^◌, ◌<◌, ◌≤◌, ◌≡◌, refl, ap, sym, ◌∙◌, true, arith, some, List, [], ◌∷◌, ◌++◌,
  length, bit_and, ◌!=◌, if◌then◌else◌, ne→==, ne→!=, eq-cases, inl, inr,
}
use os.Fat.{FatFs, FilInfo, Lists, entry_at, nth_entry}
use os.Theme.{Theme}
use os.Shell.{Call}
use os.Syscall.{Kernel, mem_of, with_mem, store_entry, is_entry, syscall_readdir}
use os.Syscall.Reads.{HasEntries, syscall_readdir-entry, syscall_readdir-missing}
use os.Ls.{print_entry, ls_loop, ls}
use os.Syscall.Texts.{string_at-IsString}
use os.Strings.Texts.{NoZero}
use os.Ls.Names.{store_entry-IsString}

-- A name as FatFs gives it: 1 to 255 bytes other than 0.
pub record IsName (name : List ℕ) : Type 0 where
  pub some_byte : 0 < length name
  pub short : length name < 256
  pub no_zero : NoZero name

abbrev pub AllNamed : List FilInfo → Type 0
AllNamed [] = Unit
AllNamed (e ∷ es) = IsName e.fname × AllNamed es

abbrev is_dir_of : FilInfo → ℕ
is_dir_of e = if bit_and e.fattrib 0x10 != 0 then 1 else 0

-- What is printed for the entries of a list, with a slash behind a directory.
pub printed : Theme → List FilInfo → List Call
printed t [] = []
printed t (e ∷ es) = print_entry t e.fname (is_dir_of e) ++ printed t es

module _ (F : FatFs) (fuel entry : ℕ) (path : List ℕ) (t : Theme) (Good : F.State → Type 0)
    (es : List FilInfo) (law : Lists F path Good es) where
  -- The entries from number `i` on are those of a list, and there are that many before them.
  record From (i : ℕ) (rest : List FilInfo) : Type 0 where
    before : (j : ℕ) → j < i → is_entry F (entry_at es j) ≡ true
    after : (j : ℕ) → entry_at es (i + j) ≡ entry_at rest j

  here : (i : ℕ) (rest : List FilInfo) → From i rest → entry_at es i ≡ entry_at rest 0
  here i rest f = ap (entry_at es) (omega arith) ∙ f.after 0

  entry-is_entry : (e : FilInfo) → IsName e.fname → is_entry F (some e) ≡ true
  entry-is_entry e name = ne→!= (length e.fname) 0 (omega (arith, name.some_byte))

  next-From :
      (i : ℕ) (e : FilInfo) (rest : List FilInfo)
      → IsName e.fname
      → From i (e ∷ rest)
      → From (i + 1) rest
  next-From i e rest name f = record {
    before = λ j lt. elim (eq-cases j i) [
      | inl same ↦ rw (same, here i (e ∷ rest) f) (entry-is_entry e name)
      | inr other ↦ f.before j (omega arith)
    ];
    after = λ j. ap (entry_at es) (omega arith) ∙ f.after (suc j);
  }

  has_entries :
      (i : ℕ) (e : FilInfo) (rest : List FilInfo) (k : Kernel F.State)
      → IsName e.fname
      → From i (e ∷ rest)
      → Good k.fs
      → HasEntries F (i + 1) (law.dir k.fs) (F.f_opendir path k.fs).1
  has_entries i e rest k name f good j lt =
      rw (law.entries k.fs good j) ((next-From i e rest name f).before j lt)

  -- `SYSCALL_READDIR` past the last entry.
  read_end :
      (i : ℕ) (k : Kernel F.State)
      → From i []
      → Good k.fs
      → (syscall_readdir F path entry i k).0 ≡ 1
  read_end i k f good =
      (syscall_readdir-missing F path entry i k i (λ dir e. (
        omega arith,
        rw
            (
              sym (some-injective _ _ (sym (law.opens k.fs good) ∙ e)),
              law.entries k.fs good i,
              here i [] f,
            )
            refl,
      ))).0

  ls_loop-printed :
      (rounds i : ℕ) (rest : List FilInfo) (k : Kernel F.State)
      → AllNamed rest
      → From i rest
      → Good k.fs
      → i + length rest < 2 ^ 31
      → length rest < rounds
      → 256 ≤ fuel
      → ls_loop F fuel entry path t rounds i k ≡ some (printed t rest)
  unfolding ls_loop printed
  ls_loop-printed zero i rest k named f good small enough fuel_enough = absurd (omega arith)
  ls_loop-printed (suc rounds) i [] k named f good small enough fuel_enough =
      rw (read_end i k f good) refl
  ls_loop-printed (suc rounds) i (e ∷ rest) k (name, named) f good small enough fuel_enough =
      let dir = law.dir k.fs in
      let there : (nth_entry F i dir (F.f_opendir path k.fs).1).0 ≡ some e =
        law.entries k.fs good i ∙ here i (e ∷ rest) f in
      let small_i : i < 2 ^ 31 = omega arith in
      let read =
        syscall_readdir-entry F path entry i k dir e (law.opens k.fs good) small_i
          (has_entries i e rest k name f good) there in
      let k' : Kernel F.State =
        with_mem (store_entry F entry e (mem_of k))
          (record k { fs = F.f_closedir dir (nth_entry F i dir (F.f_opendir path k.fs).1).1 }) in
      let text =
        string_at-IsString fuel entry (store_entry F entry e (mem_of k)) e.fname
          (store_entry-IsString F entry e (mem_of k) name.no_zero name.short)
          (omega (arith, name.short)) in
      let nonempty = ne→== (length e.fname) 0 (omega (arith, name.some_byte)) in
      let rest_printed =
        ls_loop-printed rounds (i + 1) rest k' named (next-From i e rest name f)
          (law.again k.fs good i) (omega arith) (omega arith) fuel_enough in
      let kind : store_entry F entry e (mem_of k) (entry + 256) ≡ is_dir_of e = ground arith in
      rw (read, text, nonempty, rest_printed, kind) refl

  -- In a directory whose entries have names of 1 to 255 bytes and that reads the same when it is opened
  -- again, `ls` prints exactly its entries, in their order, each once: it ends with one round more than
  -- there are entries.
  pub ls_lem :
      (rounds : ℕ) (k : Kernel F.State)
      → AllNamed es
      → Good k.fs
      → length es < 2 ^ 31
      → length es < rounds
      → 256 ≤ fuel
      → ls F fuel entry path t rounds k ≡ some (printed t es)
  unfolding ls
  ls_lem rounds k named good small enough fuel_enough =
      ls_loop-printed rounds 0 es k named
        (record {
          before = λ j lt. absurd (omega arith);
          after = λ j. ap (entry_at es) (omega arith);
        })
        good (omega arith) enough fuel_enough
