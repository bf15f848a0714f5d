-- ===== src/Tss.antt =====
-- tss.c: the task state segment.
use os.Base.{ℕ}

pub record TssEntry : Type 0 where
  pub prev_tss : ℕ
  pub esp0 : ℕ
  pub ss0 : ℕ
  pub esp1 : ℕ
  pub ss1 : ℕ
  pub esp2 : ℕ
  pub ss2 : ℕ
  pub cr3 : ℕ
  pub eip : ℕ
  pub eflags : ℕ
  pub eax : ℕ
  pub ecx : ℕ
  pub edx : ℕ
  pub ebx : ℕ
  pub esp : ℕ
  pub ebp : ℕ
  pub esi : ℕ
  pub edi : ℕ
  pub es : ℕ
  pub cs : ℕ
  pub ss : ℕ
  pub ds : ℕ
  pub fs : ℕ
  pub gs : ℕ
  pub ldt : ℕ
  pub trap : ℕ
  pub iomap_base : ℕ

-- The `memset` of `tss_init`.
abbrev pub empty_tss : TssEntry
empty_tss = record {
  prev_tss = 0;
  esp0 = 0;
  ss0 = 0;
  esp1 = 0;
  ss1 = 0;
  esp2 = 0;
  ss2 = 0;
  cr3 = 0;
  eip = 0;
  eflags = 0;
  eax = 0;
  ecx = 0;
  edx = 0;
  ebx = 0;
  esp = 0;
  ebp = 0;
  esi = 0;
  edi = 0;
  es = 0;
  cs = 0;
  ss = 0;
  ds = 0;
  fs = 0;
  gs = 0;
  ldt = 0;
  trap = 0;
  iomap_base = 0;
}

-- Without `tss_flush`, which loads the task register.
abbrev pub tss_init : (kernel_stack : ℕ) → TssEntry
tss_init kernel_stack = record empty_tss {
  ss0 = 0x10;
  esp0 = kernel_stack;
  cs = 0x0B;
  ss = 0x13;
  ds = 0x13;
  es = 0x13;
  fs = 0x13;
  gs = 0x13;
}
