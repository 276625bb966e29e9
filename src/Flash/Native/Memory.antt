-- ===== src/Flash/Native/Memory.antt =====
-- flash/native.rs: what `flash_bin` makes of the flash memory of the device.
use freematics_gui.Base.{ℕ, ◌+◌, ◌%◌, ◌<◌, ◌≡◌, refl, sym, ap, ◌∙◌, Bool, true, false, [], ◌∷◌}
use mathlib.Core.Path.{subst}
use freematics_gui.Base.Result.{Result, ok, err}
use freematics_gui.Text.{Text}
use freematics_gui.Text.Utf8.{Bytes}
use freematics_gui.Flash.Native.{
  Espflash, flash_bin, app_flash_addr, connect_baud, flash_baud, opened_native, connected,
}
use freematics_gui.Flash.Native.Steps.{flash_bin_iff}

-- The bytes stand in the memory, from an address on.
abbrev pub Stands : (ℕ → ℕ) → ℕ → Bytes → Type 0
Stands cells a [] = Unit
Stands cells a (b ∷ bs) = (cells a ≡ b) × Stands cells (a + 1) bs

module _ {W H L : Type 0} (flasher : Espflash W H L) where
  -- The flash memory of the device that is attached, and what the flasher does to it: a write that
  -- succeeds puts the image at its address, and a write at the start of a sector erases no byte before
  -- that, whether it succeeds or not. Opening the port and reaching the bootloader change nothing.
  pub record Memory : Type 0 where
    pub cells : W → ℕ → ℕ
    pub open_kept :
        (path : Text) (baud ms a : ℕ) (w : W)
        → cells (flasher.open_native path baud ms w).1 a ≡ cells w a
    pub connect_kept :
        (h : H) (stub verify skip : Bool) (baud a : ℕ) (w : W)
        → cells (flasher.connect h stub verify skip baud w).1 a ≡ cells w a
    pub write_stands :
        (l : L) (addr : ℕ) (image : Bytes) (w : W)
        → (flasher.write_bin_to_flash l addr image w).0.1 ≡ ok tt
        → Stands (cells (flasher.write_bin_to_flash l addr image w).1) addr image
    pub write_kept :
        (l : L) (addr a : ℕ) (image : Bytes) (w : W)
        → addr % 4096 ≡ 0
        → a < addr
        → cells (flasher.write_bin_to_flash l addr image w).1 a ≡ cells w a

module _ {W H L : Type 0} (flasher : Espflash W H L) (memory : Memory flasher) (path : Text)
    (image : Bytes) where
  -- A flash that succeeds leaves the image at 0x10000.
  pub flash_bin-Stands :
      (w : W)
      → (flash_bin flasher path image w).0.result ≡ ok tt
      → Stands (memory.cells (flash_bin flasher path image w).1) 0x10000 image
  unfolding flash_bin
  flash_bin-Stands w h =
      let p = (flash_bin_iff flasher path image w).0.0 h in
      let stands =
        memory.write_stands p.loader app_flash_addr image p.w2 (ap (λ r. r.0.1) p.writes) in
      let last : (flash_bin flasher path image w).1 ≡ p.w3 =
        rw (p.opens, p.connects, p.writes) refl in
      let same : (flasher.write_bin_to_flash p.loader app_flash_addr image p.w2).1 ≡ p.w3 =
        ap (λ r. r.1) p.writes in
      subst (λ v. Stands (memory.cells v) 0x10000 image) (same ∙ sym last) stands

  connected-kept :
      (a : ℕ) (r : Result Text L × W)
      → a < 0x10000
      → memory.cells (connected flasher path image r).1 a ≡ memory.cells r.1 a
  connected-kept a (err e, w) low = refl
  connected-kept a (ok l, w) low = memory.write_kept l 0x10000 a image w refl low

  opened_native-kept :
      (a : ℕ) (r : Result Text H × W)
      → a < 0x10000
      → memory.cells (opened_native flasher path image r).1 a ≡ memory.cells r.1 a
  opened_native-kept a (err e, w) low = refl
  opened_native-kept a (ok h, w) low =
      connected-kept a (flasher.connect h true false false flash_baud w) low
      ∙ memory.connect_kept h true false false flash_baud a w

  -- A flash changes nothing below 0x10000, however it ends.
  pub flash_bin-kept :
      (a : ℕ) (w : W)
      → a < 0x10000
      → memory.cells (flash_bin flasher path image w).1 a ≡ memory.cells w a
  unfolding flash_bin
  flash_bin-kept a w low =
      opened_native-kept a (flasher.open_native path connect_baud 10000 w) low
      ∙ memory.open_kept path connect_baud 10000 a w
