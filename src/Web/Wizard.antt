-- ===== src/Web/Wizard.antt =====
-- src/views/flash-wizard.ts: what the wizard knows, and what its functions change. What is only
-- displayed is left out: the label of the firmware and the percentage.
pub mod Steps
pub mod Ready
pub mod Late
use freematics_gui.Base.{
  ℕ, ◌+◌, ◌==◌, Bool, true, false, ◌||◌, if◌then◌else◌, is_empty, List, [], ◌∷◌, Option, none, some,
}
use freematics_gui.Text.{Text}

pub data WizardStep : Type 0 where
  warning : WizardStep
  backup : WizardStep
  flash : WizardStep
  restore : WizardStep

-- What is awaited: a path for the backup, `exportConfig`, `flashFirmware`, `importConfig`, a dialog
-- for a firmware and one for a backup, and `getFirmwareInfo`.
pub data Call : Type 0 where
  resolving : ℕ → Call
  exporting : ℕ → Text → Call
  flashing : Option Text → Call
  importing : Text → Call
  picking_firmware : Call
  picking_backup : Call
  loading_info : Call

-- `gen` is `backupGen` and `listening` says that there is an `unsubFlash`. The last two fields are of
-- the world: how often `flashFirmware` was called, and where `exportConfig` has saved a backup.
pub record Wizard : Type 0 where
  pub step : WizardStep
  pub acknowledged : Bool
  pub backup_path : Text
  pub backup_done : Bool
  pub backup_error : Bool
  pub backup_skipped : Bool
  pub gen : ℕ
  pub flash_error : Bool
  pub restore_done : Bool
  pub restore_error : Bool
  pub closed : Bool
  pub listening : Bool
  pub firmware_path : Option Text
  pub firmware_available : Bool
  pub pending : List Call
  pub flashes : ℕ
  pub saved : List Text

abbrev pub start : Text → Wizard
start path = record {
  step = warning;
  acknowledged = false;
  backup_path = path;
  backup_done = false;
  backup_error = false;
  backup_skipped = false;
  gen = 0;
  flash_error = false;
  restore_done = false;
  restore_error = false;
  closed = false;
  listening = false;
  firmware_path = none;
  firmware_available = true;
  pending = loading_info ∷ [];
  flashes = 0;
  saved = [];
}

abbrev pub fw_ready : Wizard → Bool
fw_ready w = w.firmware_available || is_chosen w.firmware_path
  where
    is_chosen : Option Text → Bool
    is_chosen none = false
    is_chosen (some p) = true

-- `runBackup` up to its `await`: the path is there already, or asked for.
unfoldable pub run_backup : Wizard → Wizard
run_backup w =
    let next = w.gen + 1 in
    record w {
      gen = next;
      backup_error = false;
      backup_done = false;
      pending =
          (if is_empty w.backup_path then resolving next else exporting next w.backup_path)
          ∷ w.pending;
    }

-- `runBackup` once the path is there, which `resolveBackupPath` has kept.
unfoldable pub path_resolved : ℕ → Text → Wizard → Wizard
path_resolved i p w =
    if i == w.gen
    then record w { backup_path = p; pending = exporting i p ∷ w.pending }
    else record w { backup_path = p }

-- The end of `runBackup`. A later run makes an earlier one's result void, but the file is there.
unfoldable pub export_succeeded : ℕ → Text → Wizard → Wizard
export_succeeded i p w =
    if i == w.gen
    then record w { backup_done = true; saved = p ∷ w.saved }
    else record w { saved = p ∷ w.saved }

unfoldable pub export_failed : ℕ → Wizard → Wizard
export_failed i w = if i == w.gen then record w { backup_error = true; backup_done = false } else w

abbrev pub run_flash : Wizard → Wizard
run_flash w = record w {
  step = flash;
  flash_error = false;
  listening = true;
  flashes = w.flashes + 1;
  pending = flashing w.firmware_path ∷ w.pending;
}

unfoldable pub run_restore : Wizard → Wizard
run_restore w =
    if w.backup_skipped
    then record w { restore_error = false; restore_done = true }
    else record w { restore_error = false; pending = importing w.backup_path ∷ w.pending }

unfoldable pub finish_flash : Wizard → Wizard
finish_flash w =
    if w.closed
    then w
    else if w.flash_error
    then record w { listening = false }
    else run_restore (record w { listening = false; step = restore })

-- `runFlash` once `flashFirmware` has come back: only while the wizard waits for it.
unfoldable pub flash_succeeded : WizardStep → Wizard → Wizard
flash_succeeded warning w = w
flash_succeeded backup w = w
flash_succeeded flash w = if w.closed then w else finish_flash w
flash_succeeded restore w = w

unfoldable pub flash_failed : Wizard → Wizard
flash_failed w = if w.closed then w else record w { flash_error = true }

-- "Next" of the first step, which a first-run setup follows with the flash.
unfoldable pub next_warning : Bool → Wizard → Wizard
next_warning skip w =
    if skip
    then run_flash (record w { backup_skipped = true })
    else run_backup (record w { step = backup })

abbrev pub close : Wizard → Wizard
close w = record w { closed = true; listening = false }

abbrev pub backup_picked : Text → Wizard → Wizard
backup_picked p w = run_backup (record w { backup_path = p; backup_done = false })

-- What `getFirmwareInfo` says of the firmware that comes with the program.
unfoldable pub info_loaded : Bool → Option Text → Wizard → Wizard
info_loaded available none w = record w { firmware_available = available }
info_loaded available (some p) w = w
