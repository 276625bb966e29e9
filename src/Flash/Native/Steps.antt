-- ===== src/Flash/Native/Steps.antt =====
-- flash/native.rs: when `flash_bin` succeeds, and what it reports.
use freematics_gui.Base.{◌≡◌, ◌↔◌, refl, ap, ◌∙◌, true, false, List}
use freematics_gui.Base.Result
use freematics_gui.Base.Result.{Result, ok, err}
use freematics_gui.Text.{Text}
use freematics_gui.Text.Utf8.{Bytes}
use freematics_gui.Flash.Native.{
  Call, Espflash, calls, fresh, flash_bin, app_flash_addr, connect_baud, flash_baud, written,
  connected, opened_native,
}

module _ {W H L : Type 0} (flasher : Espflash W H L) (path : Text) (image : Bytes) where
  -- The port opens, the bootloader answers, and the image is written at the address of the
  -- application.
  pub record Writes (w : W) : Type 0 where
    pub port : H
    pub loader : L
    pub progress : List Call
    pub w1 : W
    pub w2 : W
    pub w3 : W
    pub opens : flasher.open_native path 115200 10000 w ≡ (ok port, w1)
    pub connects : flasher.connect port true false false 460800 w1 ≡ (ok loader, w2)
    pub writes : flasher.write_bin_to_flash loader 0x10000 image w2 ≡ ((progress, ok tt), w3)

  map_err-ok :
      (f : Text → Text) (r : Result Text (Unit {0})) → Result.map_err f r ≡ ok tt → r ≡ ok tt
  map_err-ok f (ok tt) h = refl
  map_err-ok f (err e) h = cc

  sound_written :
      (h : H) (l : L) (w w1 w2 : W)
      → flasher.open_native path connect_baud 10000 w ≡ (ok h, w1)
      → flasher.connect h true false false flash_baud w1 ≡ (ok l, w2)
      → (r : (List Call × Result Text (Unit {0})) × W)
      → flasher.write_bin_to_flash l app_flash_addr image w2 ≡ r
      → (written flasher r).0.result ≡ ok tt
      → Writes w
  sound_written h l w w1 w2 o c ((ks, r), w3) e k = record {
    port = h;
    loader = l;
    progress = ks;
    w1 = w1;
    w2 = w2;
    w3 = w3;
    opens = o;
    connects = c;
    writes = e ∙ ap (λ x. ((ks, x), w3)) (map_err-ok _ r k);
  }

  sound_connected :
      (h : H) (w w1 : W)
      → flasher.open_native path connect_baud 10000 w ≡ (ok h, w1)
      → (r : Result Text L × W) → flasher.connect h true false false flash_baud w1 ≡ r
      → (connected flasher path image r).0.result ≡ ok tt
      → Writes w
  sound_connected h w w1 o (err e, w2) c k = cc
  sound_connected h w w1 o (ok l, w2) c k =
      sound_written h l w w1 w2 o c (flasher.write_bin_to_flash l app_flash_addr image w2) refl k

  sound_opened :
      (w : W) (r : Result Text H × W)
      → flasher.open_native path connect_baud 10000 w ≡ r
      → (opened_native flasher path image r).0.result ≡ ok tt
      → Writes w
  sound_opened w (err e, w1) o k = cc
  sound_opened w (ok h, w1) o k =
      sound_connected h w w1 o (flasher.connect h true false false flash_baud w1) refl k

  -- `flash_bin` succeeds exactly when the port opens at 115200 baud, the bootloader answers, and the
  -- whole image is written at 0x10000; the percentages that it reports are then those of the calls
  -- that the write made.
  pub flash_bin_iff :
      (w : W)
      → (((flash_bin flasher path image w).0.result ≡ ok tt) ↔ Writes w)
        × ((p : Writes w)
            → (flash_bin flasher path image w).0.reported ≡ (calls fresh p.progress).reported)
  unfolding flash_bin
  flash_bin_iff w = (
    (
      sound_opened w (flasher.open_native path connect_baud 10000 w) refl,
      λ p. rw (p.opens, p.connects, p.writes) refl,
    ),
    λ p. rw (p.opens, p.connects, p.writes) refl,
  )
