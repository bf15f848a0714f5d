-- ===== src/Fb/Bounds.antt =====
-- drivers/video/framebuffer.c: no routine writes outside the buffer.
use os.Base.{
  ℕ, zero, suc, ◌+◌, ◌*◌, ◌/◌, ◌^◌, ◌≤◌, ◌<◌, ◌≡◌, refl, ◌∙◌, ◌||◌, arith, leb, Bool-cases, inl,
  inr, ◌⊎◌,
}
use native.Mathlib.Nat.{mul-le-mul_right, suc-mul}
use os.Base.Word.{u32}
use os.Strings.{Bytes}
use os.Fb.{Framebuffer, fb_putpixel, write_pixel, fill_row, fill_rect}

-- The rows fit in the pitch, and the buffer in the address space.
pub record IsValid (fb : Framebuffer) : Type 0 where
  pub row : fb.width * (fb.bpp / 8) ≤ fb.pitch
  pub size : fb.addr + fb.height * fb.pitch ≤ 2 ^ 32

-- The two memories are the same outside the buffer.
abbrev pub Within : Framebuffer → Bytes → Bytes → Type 0
Within fb m m' = (p : ℕ) → (p < fb.addr) ⊎ (fb.addr + fb.height * fb.pitch ≤ p) → m' p ≡ m p

pub Within-trans :
    (fb : Framebuffer) {m1 m2 m3 : Bytes} → Within fb m1 m2 → Within fb m2 m3 → Within fb m1 m3
Within-trans fb h k p out = k p out ∙ h p out

-- The last byte of a pixel of the picture lies before the end of the buffer.
pub pixel_fits :
    (fb : Framebuffer) (x y : ℕ)
    → IsValid fb
    → x < fb.width
    → y < fb.height
    → y * fb.pitch + x * (fb.bpp / 8) + fb.bpp / 8 ≤ fb.height * fb.pitch
pixel_fits fb x y v hx hy =
    let k = fb.bpp / 8 in
    let a = mul-le-mul_right {m = suc x} {n = fb.width} k (omega arith) in
    let b = mul-le-mul_right {m = suc y} {n = fb.height} fb.pitch (omega arith) in
    omega (arith, a, b, suc-mul x k, suc-mul y fb.pitch, v.row)

write_pixel-out :
    (bpp color q : ℕ) (m : Bytes) (p : ℕ)
    → (p < q) ⊎ (q + bpp / 8 ≤ p)
    → write_pixel bpp color q m p ≡ m p
unfolding write_pixel
write_pixel-out bpp color q m p out = ground arith

pub fb_putpixel-Within :
    (fb : Framebuffer) (x y color : ℕ) (m : Bytes)
    → IsValid fb
    → Within fb m (fb_putpixel fb x y color m)
unfolding fb_putpixel
fb_putpixel-Within fb x y color m v p out =
    elim (Bool-cases (leb (2 ^ 31) x || leb fb.width x || leb (2 ^ 31) y || leb fb.height y)) [
      | inl off ↦ rw off refl
      | inr on ↦
          let fits = pixel_fits fb x y v (ground arith) (ground arith) in
          rw on (write_pixel-out fb.bpp color _ m p (omega (arith, v.size)))
    ]

fill_row-Within :
    (fb : Framebuffer) (w x y color : ℕ) (m : Bytes)
    → IsValid fb
    → Within fb m (fill_row fb w x y color m)
unfolding fill_row
fill_row-Within fb zero x y color m v p out = refl
fill_row-Within fb (suc w) x y color m v p out =
    fill_row-Within fb w (u32 (x + 1)) y color _ v p out ∙ fb_putpixel-Within fb x y color m v p out

pub fill_rect-Within :
    (fb : Framebuffer) (h w x y color : ℕ) (m : Bytes)
    → IsValid fb
    → Within fb m (fill_rect fb h w x y color m)
unfolding fill_rect
fill_rect-Within fb zero w x y color m v p out = refl
fill_rect-Within fb (suc h) w x y color m v p out =
    fill_rect-Within fb h w x (u32 (y + 1)) color _ v p out
    ∙ fill_row-Within fb w x y color m v p out
