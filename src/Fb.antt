-- ===== src/Fb.antt =====
-- drivers/video/framebuffer.c: pixels of 32, 24 or 16 bits in a memory of bytes. An `int` is its
-- word of 32 bits, negative from 2^31 on.
pub mod Bounds
pub mod Pixels
use os.Base.{
  ℕ, zero, suc, ◌+◌, ◌-◌, ◌*◌, ◌%◌, ◌/◌, ◌^◌, Bool, true, false, ◌&&◌, ◌||◌, bit_and, bit_or, leb,
  ltb, ◌==◌, ◌!=◌, if◌then◌else◌,
}
use os.Base.Word.{u32}
use os.Strings.{Bytes, store_byte}

pub record Framebuffer : Type 0 where
  pub addr : ℕ
  pub width : ℕ
  pub height : ℕ
  pub pitch : ℕ
  pub bpp : ℕ

abbrev pub is_negative : ℕ → Bool
is_negative x = leb (2 ^ 31) x

-- little-endian
abbrev pub store16 : Bytes → ℕ → ℕ → Bytes
store16 m p v = store_byte (store_byte m p (v % 256)) (p + 1) (v / 256 % 256)

abbrev pub store32 : Bytes → ℕ → ℕ → Bytes
store32 m p v = store16 (store16 m p (v % 65536)) (p + 2) (v / 65536)

abbrev pub load16 : Bytes → ℕ → ℕ
load16 m p = m p + 256 * m (p + 1)

-- The fields of `multiboot_info_t` that `fb_init` reads.
pub record FramebufferInfo : Type 0 where
  pub framebuffer_addr : ℕ
  pub framebuffer_pitch : ℕ
  pub framebuffer_width : ℕ
  pub framebuffer_height : ℕ
  pub framebuffer_bpp : ℕ

-- The address, of 64 bits there, is cut to a pointer.
pub fb_init : FramebufferInfo → Framebuffer
fb_init mbd = record {
  addr = u32 mbd.framebuffer_addr;
  width = mbd.framebuffer_width;
  height = mbd.framebuffer_height;
  pitch = mbd.framebuffer_pitch;
  bpp = mbd.framebuffer_bpp;
}

-- The conversion to 5:6:5.
pub rgb565_of : ℕ → ℕ
rgb565_of color =
    let r = bit_and (color / 2 ^ 16) 0xFF in
    let g = bit_and (color / 2 ^ 8) 0xFF in
    let b = bit_and color 0xFF in
    bit_or (bit_or (r / 2 ^ 3 * 2 ^ 11) (g / 2 ^ 2 * 2 ^ 5)) (b / 2 ^ 3)

-- The end of `fb_putpixel`, at the address of the pixel.
pub write_pixel : (bpp color pixel_ptr : ℕ) → Bytes → Bytes
write_pixel bpp color pixel_ptr m =
    if bpp == 32
    then store32 m pixel_ptr color
    else if bpp == 24
    then (let blue = store_byte m pixel_ptr (bit_and color 0xFF) in
        let green = store_byte blue (pixel_ptr + 1) (bit_and (color / 2 ^ 8) 0xFF) in
        store_byte green (pixel_ptr + 2) (bit_and (color / 2 ^ 16) 0xFF))
    else if bpp == 16
    then store16 m pixel_ptr (rgb565_of color)
    else m

pub fb_putpixel : Framebuffer → (x y color : ℕ) → Bytes → Bytes
fb_putpixel fb x y color m =
    if is_negative x || leb fb.width x || is_negative y || leb fb.height y
    then m
    else write_pixel fb.bpp color (u32 (fb.addr + y * fb.pitch + x * (fb.bpp / 8))) m

-- The comparison with `(int)fb->width` is of two `int`s that are not negative, for a width below 2^31.
pub fb_getpixel : (x y : ℕ) → Framebuffer → Bytes → ℕ
fb_getpixel x y fb m =
    if is_negative x || leb fb.width x
    then 0
    else if is_negative y || leb fb.height y
    then 0
    else load16 m (u32 (fb.addr + 2 * u32 (y * fb.width + x)))

-- The inner and the outer loop over a rectangle of `w` by `h` pixels at `x`, `y`.
pub fill_row : Framebuffer → (w x y color : ℕ) → Bytes → Bytes
fill_row fb zero x y color m = m
fill_row fb (suc w) x y color m = fill_row fb w (u32 (x + 1)) y color (fb_putpixel fb x y color m)

pub fill_rect : Framebuffer → (h w x y color : ℕ) → Bytes → Bytes
fill_rect fb zero w x y color m = m
fill_rect fb (suc h) w x y color m =
    fill_rect fb h w x (u32 (y + 1)) color (fill_row fb w x y color m)

pub fb_clear : Framebuffer → (color : ℕ) → Bytes → Bytes
fb_clear fb color m = fill_rect fb fb.height fb.width 0 0 color m
