-- ===== src/Fb/Pixels.antt =====
-- drivers/video/framebuffer.c: `fb_putpixel` sets the pixel that it names and no other.
use os.Base.{
  ℕ, suc, ◌+◌, ◌*◌, ◌/◌, ◌^◌, ◌≤◌, ◌<◌, ◌≡◌, ◌≢◌, refl, false, ◌&&◌, ◌||◌, arith, leb, ◌==◌,
  if◌then◌else◌, eq-cases, lt-cases, eq→==, ne→==, inl, inr, ◌⊎◌,
}
use native.Mathlib.Nat.{mul-le-mul_right, suc-mul}
use os.Base.Word.{u32}
use os.Strings.{Bytes}
use os.Fb.{Framebuffer, store32, fb_putpixel, write_pixel}
use os.Fb.Bounds.{IsValid, pixel_fits}

abbrev pub load32 : Bytes → ℕ → ℕ
load32 m p = m p + 256 * m (p + 1) + 65536 * m (p + 2) + 16777216 * m (p + 3)

-- Where the pixel at `x`, `y` stands, for pixels of 32 bits.
abbrev pub place : Framebuffer → (x y : ℕ) → ℕ
place fb x y = fb.addr + y * fb.pitch + x * 4

load32-store32_self : (m : Bytes) (p v : ℕ) → v < 2 ^ 32 → load32 (store32 m p v) p ≡ v
load32-store32_self m p v h = ground arith

load32-store32_apart :
    (m : Bytes) (p q v : ℕ) → (p + 4 ≤ q) ⊎ (q + 4 ≤ p) → load32 (store32 m p v) q ≡ load32 m q
load32-store32_apart m p q v apart = ground arith

-- Two rows do not overlap.
rows_apart :
    (fb : Framebuffer) (x y x' y' : ℕ)
    → IsValid fb
    → fb.bpp ≡ 32
    → x < fb.width
    → y < y'
    → place fb x y + 4 ≤ place fb x' y'
rows_apart fb x y x' y' v b hx lt =
    let a = mul-le-mul_right {m = suc x} {n = fb.width} (fb.bpp / 8) (omega arith) in
    let c = mul-le-mul_right {m = suc y} {n = y'} fb.pitch (omega arith) in
    let k : fb.bpp / 8 ≡ 4 = omega arith in
    let a' = rw k at a in
    let r = rw k at (v.row) in omega (arith, c, suc-mul x 4, suc-mul y fb.pitch)

places_apart :
    (fb : Framebuffer) (x y x' y' : ℕ)
    → IsValid fb
    → fb.bpp ≡ 32
    → x < fb.width
    → x' < fb.width
    → (x ≢ x') ⊎ (y ≢ y')
    → (place fb x y + 4 ≤ place fb x' y') ⊎ (place fb x' y' + 4 ≤ place fb x y)
places_apart fb x y x' y' v b hx hx' ne = elim (lt-cases y y') [
  | inl lt ↦ inl (rows_apart fb x y x' y' v b hx lt)
  | inr le ↦ elim (eq-cases y y') [
    | inl e ↦ rw e (omega arith)
    | inr ne' ↦ inr (rows_apart fb x' y' x y v b hx' (omega arith))
  ]
]

-- In a valid buffer of pixels of 32 bits, after `fb_putpixel` the pixel that it names has the color
-- and every other pixel of the picture is as before.
pub fb_putpixel_lem :
    (fb : Framebuffer) (x y x' y' color : ℕ) (m : Bytes)
    → IsValid fb
    → fb.bpp ≡ 32
    → fb.width < 2 ^ 31
    → fb.height < 2 ^ 31
    → color < 2 ^ 32
    → x < fb.width
    → y < fb.height
    → x' < fb.width
    → load32 (fb_putpixel fb x y color m) (place fb x' y')
      ≡ (if (x == x') && (y == y') then color else load32 m (place fb x' y'))
unfolding fb_putpixel write_pixel
fb_putpixel_lem fb x y x' y' color m v b hw hh hc hx hy hx' =
    let fits = pixel_fits fb x y v hx hy in
    let k : fb.bpp / 8 ≡ 4 = omega arith in
    let fits' = rw k at fits in
    let at : u32 (fb.addr + y * fb.pitch + x * (fb.bpp / 8)) ≡ place fb x y =
      rw k (omega (arith, v.size)) in
    let inside : (leb (2 ^ 31) x || leb fb.width x || leb (2 ^ 31) y || leb fb.height y) ≡ false =
      ground arith in
    let written : fb_putpixel fb x y color m ≡ store32 m (place fb x y) color =
      rw (inside, eq→== _ _ b, at) refl in
    rw written (elim (eq-cases x x') [
      | inl e ↦ elim (eq-cases y y') [
        | inl e' ↦
            rw (eq→== _ _ e, eq→== _ _ e', ← e, ← e')
              (load32-store32_self m (place fb x y) color hc)
        | inr ne' ↦
            rw (eq→== _ _ e, ne→== _ _ ne')
              (load32-store32_apart m (place fb x y) (place fb x' y') color
                (places_apart fb x y x' y' v b hx hx' (inr ne')))
      ]
      | inr ne ↦ rw (ne→== _ _ ne) (
          load32-store32_apart m (place fb x y) (place fb x' y') color
            (places_apart fb x y x' y' v b hx hx' (inl ne)))
    ])
