-- ===== src/Flash/Native.antt =====
-- flash/native.rs: the progress that the native flasher reports. The flasher of the crate espflash
-- calls `init`, `update`, `verifying` and `finish`; each call may report a percentage.
pub mod Percent
pub mod Steps
pub mod Memory
use freematics_gui.Base.{
  ℕ, ◌-◌, ◌*◌, ◌/◌, ◌^◌, ◌==◌, List, [], ◌∷◌, ◌++◌, if◌then◌else◌, Bool, true, false,
}
use freematics_gui.Base.Result
use freematics_gui.Base.Result.{Result, ok, err}
use freematics_gui.Text.{Text, codes}
use freematics_gui.Text.Utf8.{Bytes}
use Prim.Native.Nat.{min}

-- The calls of `ProgressCallbacks`.
pub data Call : Type 0 where
  init : ℕ → ℕ → Call
  update : ℕ → Call
  verifying : Call
  finish : Bool → Call

abbrev pub max_usize : ℕ
max_usize = 2 ^ 64 - 1

-- `total` and the percentages that went to the closure.
pub record Progress : Type 0 where
  pub total : ℕ
  pub reported : List ℕ

abbrev pub saturating_mul : ℕ → ℕ → ℕ
saturating_mul a b = min (a * b) max_usize

unfoldable pub percent : ℕ → ℕ → ℕ
percent total current = if total == 0 then 0 else min (saturating_mul current 100 / total) 100

abbrev report : Progress → ℕ → Progress
report p pct = record p { reported = p.reported ++ pct ∷ [] }

unfoldable pub call : Progress → Call → Progress
unfolding percent
call p (init addr total) = report (record p { total = total }) 0
call p (update current) = report p (percent p.total current)
call p verifying = p
call p (finish skipped) = report p 100

unfoldable pub calls : Progress → List Call → Progress
calls p [] = p
calls p (k ∷ ks) = calls (call p k) ks

abbrev pub fresh : Progress
fresh = record { total = 0; reported = [] }

-- The percentages that a flash reported, in their order, and how it ended.
pub record Flashed : Type 0 where
  pub reported : List ℕ
  pub result : Result Text (Unit {0})

-- What the crates serialport and espflash do for a flash, over the state of the system: `H` is an
-- open port, `L` a flasher that is connected to the bootloader. A write makes its calls, and ends.
pub record Espflash (W H L : Type 0) : Type 0 where
  -- the port by its path, baud rate and timeout in milliseconds
  pub open_native : Text → ℕ → ℕ → W → Result Text H × W
  -- the chip and its reset modes are fixed; the stub, the check, the skip, and the baud rate
  pub connect : H → Bool → Bool → Bool → ℕ → W → Result Text L × W
  pub write_bin_to_flash : L → ℕ → Bytes → W → (List Call × Result Text (Unit {0})) × W

abbrev pub app_flash_addr : ℕ
app_flash_addr = 0x10000

abbrev pub connect_baud : ℕ
connect_baud = 115200

abbrev pub flash_baud : ℕ
flash_baud = 460800

abbrev pub aborted : Text → Text → Flashed
aborted what e = record { reported = []; result = err (what ++ e) }

module _ {W H L : Type 0} (flasher : Espflash W H L) where
  abbrev written : (List Call × Result Text (Unit {0})) × W → Flashed × W
  written ((ks, r), w) = (
    record {
      reported = (calls fresh ks).reported;
      result = Result.map_err (λ e. codes "flash write failed: " ++ e) r;
    },
    w,
  )

  abbrev connected : Text → Bytes → Result Text L × W → Flashed × W
  connected path image (err e, w) =
      (aborted (codes "could not connect to the ESP32 bootloader on " ++ (path ++ codes ": ")) e, w)
  connected path image (ok l, w) = written (flasher.write_bin_to_flash l app_flash_addr image w)

  abbrev opened_native : Text → Bytes → Result Text H × W → Flashed × W
  opened_native path image (err e, w) =
      (aborted (codes "failed to open " ++ (path ++ codes " for flashing: ")) e, w)
  opened_native path image (ok h, w) =
      connected path image (flasher.connect h true false false flash_baud w)

  unfoldable pub flash_bin : Text → Bytes → W → Flashed × W
  flash_bin path image w = opened_native path image (flasher.open_native path connect_baud 10000 w)
