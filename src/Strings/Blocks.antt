-- ===== src/Strings/Blocks.antt =====
-- string.c: memcpy, memset, memsetw and memcmp on blocks of bytes.
use os.Base.{
  ℕ, zero, suc, ◌+◌, ◌-◌, ◌*◌, ◌%◌, ◌/◌, ◌≤◌, ◌<◌, ◌≡◌, ◌≢◌, refl, ◌∙◌, ◌&&◌, arith, leb, ltb, ◌==◌,
  if◌then◌else◌, eq-cases, eq→!=, inl, inr, ◌⊎◌,
}
use os.Base.Int.{pos, byte_diff}
use os.Strings.{Bytes, store_byte, memcpy, memset, memsetw, memcmp}

pub memcpy-out :
    (dest src n : ℕ) (m : Bytes) (p : ℕ) → (p < dest) ⊎ (dest + n ≤ p) → memcpy dest src n m p ≡ m p
unfolding memcpy
memcpy-out dest src zero m p out = refl
memcpy-out dest src (suc n) m p out =
    memcpy-out (dest + 1) (src + 1) n _ p (omega arith) ∙ ground arith

memcpy-in :
    (dest src n : ℕ) (m : Bytes) (i : ℕ)
    → (dest ≤ src) ⊎ (src + n ≤ dest)
    → i < n
    → memcpy dest src n m (dest + i) ≡ m (src + i)
unfolding memcpy
memcpy-in dest src zero m i apart lt = absurd (omega arith)
memcpy-in dest src (suc n) m zero apart lt =
    memcpy-out (dest + 1) (src + 1) n _ (dest + 0) (omega arith) ∙ ground arith
memcpy-in dest src (suc n) m (suc i) apart lt =
    let rest =
      memcpy-in (dest + 1) (src + 1) n (store_byte m dest (m src)) i (omega arith) (omega arith) in
    let at_dest : dest + 1 + i ≡ dest + suc i = omega arith in
    let at_src : src + 1 + i ≡ src + suc i = omega arith in
    let rest' = rw (at_dest, at_src) at rest in rest' ∙ ground arith

-- `memcpy` copies the block, also to a place that overlaps its own from below, and writes nothing
-- else.
pub memcpy_lem :
    (dest src n : ℕ) (m : Bytes)
    → (dest ≤ src) ⊎ (src + n ≤ dest)
    → ((i : ℕ) → i < n → memcpy dest src n m (dest + i) ≡ m (src + i))
      × ((p : ℕ) → (p < dest) ⊎ (dest + n ≤ p) → memcpy dest src n m p ≡ m p)
memcpy_lem dest src n m apart =
    (λ i lt. memcpy-in dest src n m i apart lt, λ p out. memcpy-out dest src n m p out)

-- `memset` makes each byte of the block `c` as an `unsigned char`, and writes nothing else.
pub memset_lem :
    (s c n : ℕ) (m : Bytes) (p : ℕ)
    → memset s c n m p ≡ (if leb s p && ltb p (s + n) then c % 256 else m p)
unfolding memset
memset_lem s c zero m p = ground arith
memset_lem s c (suc n) m p = ground (arith, memset_lem (s + 1) c n (store_byte m s (c % 256)) p)

-- `memsetw` makes each word of the block `val`, the low byte first, and writes nothing else.
pub memsetw_lem :
    (dest val count : ℕ) (m : Bytes) (p : ℕ)
    → memsetw dest val count m p ≡ (
        if leb dest p && ltb p (dest + 2 * count)
        then (if (p - dest) % 2 == 0 then val % 256 else val / 256)
        else m p)
unfolding memsetw
memsetw_lem dest val zero m p = ground arith
memsetw_lem dest val (suc count) m p = ground (
  arith,
  memsetw_lem (dest + 2) val count
      (store_byte (store_byte m dest (val % 256)) (dest + 1) (val / 256)) p,
)

-- The blocks at `s1` and `s2` are equal before `k`, and differ there if `k < n`.
pub record FirstDiff (s1 s2 n : ℕ) (m : Bytes) (k : ℕ) : Type 0 where
  pub same : (i : ℕ) → i < k → m (s1 + i) ≡ m (s2 + i)
  pub within : k < n
  pub differs : m (s1 + k) ≢ m (s2 + k)

eq_from :
    (s1 s2 n : ℕ) (m : Bytes) (i : ℕ)
    → m s1 ≡ m s2
    → ((j : ℕ) → j < n → m (s1 + 1 + j) ≡ m (s2 + 1 + j))
    → i < suc n
    → m (s1 + i) ≡ m (s2 + i)
eq_from s1 s2 n m zero e all lt = ground arith
eq_from s1 s2 n m (suc i) e all lt = ground (arith, all i (omega arith))

shift_ne :
    (s1 s2 : ℕ) (m : Bytes) (k : ℕ)
    → m (s1 + 1 + k) ≢ m (s2 + 1 + k)
    → m (s1 + suc k) ≢ m (s2 + suc k)
shift_ne s1 s2 m k ne = ground arith

shift_diff :
    (s1 s2 : ℕ) (m : Bytes) (k : ℕ)
    → byte_diff (m (s1 + 1 + k)) (m (s2 + 1 + k)) ≡ byte_diff (m (s1 + suc k)) (m (s2 + suc k))
shift_diff s1 s2 m k =
    let e1 : s1 + 1 + k ≡ s1 + suc k = omega arith in
    let e2 : s2 + 1 + k ≡ s2 + suc k = omega arith in rw (e1, e2) refl

-- `memcmp` is 0 when the blocks are equal, and else the difference of the first bytes that differ.
pub memcmp_lem :
    (s1 s2 n : ℕ) (m : Bytes)
    → (((i : ℕ) → i < n → m (s1 + i) ≡ m (s2 + i)) × (memcmp s1 s2 n m ≡ pos 0))
      ⊎ ((k : ℕ) × FirstDiff s1 s2 n m k × (memcmp s1 s2 n m ≡ byte_diff (m (s1 + k)) (m (s2 + k))))
unfolding memcmp
memcmp_lem s1 s2 zero m = inl (λ i lt. absurd (omega arith), refl)
memcmp_lem s1 s2 (suc n) m = elim (eq-cases (m s1) (m s2)) [
  | inr ne ↦ inr (
    0,
    record { same = λ i lt. absurd (omega arith); within = omega arith; differs = ground arith },
    ground arith,
  )
  | inl e ↦ elim (memcmp_lem (s1 + 1) (s2 + 1) n m) [
    | inl (all, run) ↦ inl (λ i lt. eq_from s1 s2 n m i e all lt, rw (eq→!= _ _ e) run)
    | inr (k, diff, run) ↦ inr (
      suc k,
      record {
        same = λ i lt. eq_from s1 s2 k m i e diff.same lt;
        within = omega (arith, diff.within);
        differs = shift_ne s1 s2 m k diff.differs;
      },
      rw (eq→!= _ _ e) (run ∙ shift_diff s1 s2 m k),
    )
  ]
]
