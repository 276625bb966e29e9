-- ===== src/Commands/Flashing/Shown.antt =====
-- commands.rs, `flash_firmware_cmd` with flash/native.rs: all the events of a flash that succeeds.
use freematics_gui.Base.{ℕ, ◌<◌, ◌≡◌, ◌⊎◌, Bool, List}
use freematics_gui.Base.Result.{ok}
use freematics_gui.Text.{Text, codes}
use freematics_gui.Text.Utf8.{Bytes}
use freematics_gui.Files.{Files}
use freematics_gui.Flash.Native.{Espflash}
use freematics_gui.Commands.Flashing.{FlashProgressEvent}
use freematics_gui.Commands.Flashing.Events.{IsNonDecreasing, flash_calls}

-- An event of a flash under way, or of one whose bytes are all there.
abbrev pub IsStaged : FlashProgressEvent → Type 0
IsStaged e =
    ((e.percentage < 100) × (e.stage ≡ codes "writing"))
    ⊎ ((e.percentage ≡ 100) × (e.stage ≡ codes "done"))

-- A write that succeeds calls back in order: at its start, after bytes that never grow fewer, and at
-- its end.
abbrev pub IsOrderly : {W H L : Type 0} → Espflash W H L → Type 0
IsOrderly {W} {H} {L} flasher =
    (l : L) (addr : ℕ) (image : Bytes) (w : W)
    → (flasher.write_bin_to_flash l addr image w).0.1 ≡ ok tt
    → (total : ℕ) × (currents : List ℕ) × (skipped : Bool) × IsNonDecreasing 0 currents
      × ((flasher.write_bin_to_flash l addr image w).0.0 ≡ flash_calls addr total currents skipped)
