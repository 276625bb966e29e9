-- ===== src/Commands/Flashing.antt =====
-- commands.rs, `flash_firmware_cmd`. The flasher is a parameter: it gives the percentages that it
-- reported, in their order, and how it ended. The state carries the events that were emitted.
pub mod Gate
pub mod Memory
pub mod Shown
pub mod Failed
pub mod Events
use freematics_gui.Base.{
  ℕ, Bool, not, Option, none, some, if◌then◌else◌, is_empty, List, [], ◌∷◌, ◌++◌, leb, ◌==◌,
}
use freematics_gui.Base.Result
use freematics_gui.Base.Result.{Result, ok, err}
use freematics_gui.Text.{Text, codes}
use freematics_gui.Text.Utf8.{Bytes}
use freematics_gui.Files.{Files}
use freematics_gui.Protocol.Port.{IoError, Outcome, done, failed, spinning, Task, ◌>>=◌, outcome}
use freematics_gui.Backup.Schema.{Json, FirmwareInfo, get_firmware_info}
use freematics_gui.Flash.Native.{Flashed}
use freematics_gui.Flash.Sha.{verify_sha256_bytes}

pub record FlashProgressEvent : Type 0 where
  pub percentage : ℕ
  pub stage : Text

abbrev pub stage_of : ℕ → Text
stage_of pct = if leb 100 pct then codes "done" else codes "writing"

-- The closure that the flasher calls, with `last_pct` carried along.
unfoldable pub progress_events : ℕ → List ℕ → List FlashProgressEvent
progress_events last_pct [] = []
progress_events last_pct (pct ∷ pcts) =
    let later = progress_events pct pcts in
    if pct == last_pct then later else record { percentage = pct; stage = stage_of pct } ∷ later

-- The firmware that the program embeds, and its manifest.
pub record Bundle : Type 0 where
  pub manifest : Text
  pub image : Bytes

module _ {W V : Type 0} (fs : Files W) (json : Json V) (sha256_hex : Bytes → Text)
    (b : Bundle) where
  abbrev pub checked : FirmwareInfo → Result Text Bytes
  checked info =
      if not (verify_sha256_bytes sha256_hex b.image info.sha256)
      then err (codes "bundled firmware SHA256 mismatch — build artifact may be corrupt")
      else ok b.image

  unfoldable pub firmware_data : Option Text → W → Result Text Bytes
  firmware_data (some p) w =
      if not (fs.exists p w)
      then err (codes "firmware file not found: " ++ p)
      else Result.map_err
          (λ (e : IoError). codes "failed to read firmware " ++ (p ++ (codes ": " ++ e.message)))
          (fs.read p w)
  firmware_data none w = Result.◌>>=◌ (get_firmware_info json b.manifest) checked

abbrev pub all_done : FlashProgressEvent
all_done = record { percentage = 100; stage = codes "done" }

abbrev pub flash_error : Text → FlashProgressEvent
flash_error e = record { percentage = 0; stage = codes "error: " ++ e }

abbrev pub Emitting : Type 0 → Type 0
Emitting W = W × List FlashProgressEvent

module _ {W : Type 0} (poisoned : W → Bool) (flash_bin : Text → Bytes → W → Flashed × W) where
  -- The work of the blocking thread.
  unfoldable pub flash_session : Text → Bytes → Task (Emitting W) (Unit {0})
  flash_session port bytes (w, es) =
      let (flashed, w') = flash_bin port bytes w in
      if poisoned w
      then (failed (codes "serial port lock poisoned"), (w, es))
      else (outcome flashed.result, (w', es ++ progress_events 0 flashed.reported))

  -- The last event, by the result.
  abbrev pub announced : Outcome Text (Unit {0}) × Emitting W → Outcome Text (Unit {0}) × Emitting W
  announced (done u, (w, es)) = (done u, (w, es ++ all_done ∷ []))
  announced (failed e, (w, es)) = (failed e, (w, es ++ flash_error e ∷ []))
  announced (spinning, x) = (spinning, x)

  abbrev pub flash_bytes : Text → Bytes → Task (Emitting W) (Unit {0})
  flash_bytes port bytes x =
      if is_empty bytes
      then (failed (codes "firmware file is empty"), x)
      else announced (flash_session port bytes x)

  module _ {V : Type 0} (fs : Files W) (json : Json V) (sha256_hex : Bytes → Text)
      (b : Bundle) where
    unfoldable pub flash_firmware_cmd : Text → Option Text → Task (Emitting W) (Unit {0})
    flash_firmware_cmd port firmware_path (w, es) =
        ((λ x. (outcome (firmware_data fs json sha256_hex b firmware_path w), x))
            >>= flash_bytes port)
          (w, es)
