-- ===== src/Web/Wizard/Steps.antt =====
-- src/views/flash-wizard.ts: what may happen to the wizard at a time. The user presses what is
-- enabled, an `await` comes back, or the program reports the progress of the flash.
use freematics_gui.Base.{
  ℕ, ◌≡◌, Bool, true, false, ◌||◌, ◌⊎◌, is_empty, List, ◌∷◌, ◌++◌, Option, some,
}
use freematics_gui.Text.{Text}
use freematics_gui.Web.Wizard.{
  warning, backup, restore, Call, resolving, exporting, flashing, importing, picking_firmware,
  picking_backup, loading_info, Wizard, fw_ready, path_resolved, export_succeeded, export_failed,
  run_flash, run_restore, finish_flash, flash_succeeded, flash_failed, next_warning, close,
  backup_picked, info_loaded,
}

-- A call that comes back is not awaited any more.
abbrev pub without : List Call → Wizard → Wizard
without calls w = record w { pending = calls }

-- `skip` is the option `skipBackup`.
module _ (skip : Bool) where
  pub data Step (w : Wizard) : Wizard → Type 0 where
    acknowledge :
        (b : Bool) → w.closed ≡ false → w.step ≡ warning → Step w (record w { acknowledged = b })
    press_pick_firmware :
        w.closed ≡ false
        → w.step ≡ warning
        → Step w (record w { pending = picking_firmware ∷ w.pending })
    press_next :
        w.closed ≡ false
        → w.step ≡ warning
        → w.acknowledged ≡ true
        → fw_ready w ≡ true
        → Step w (next_warning skip w)
    press_pick_backup :
        w.closed ≡ false
        → w.step ≡ backup
        → Step w (record w { pending = picking_backup ∷ w.pending })
    press_skip :
        w.closed ≡ false
        → w.step ≡ backup
        → w.backup_done ≡ false
        → Step w (run_flash (record w { backup_skipped = true }))
    press_flash : w.closed ≡ false → w.step ≡ backup → w.backup_done ≡ true → Step w (run_flash w)
    cancel_warning : w.closed ≡ false → w.step ≡ warning → Step w (close w)
    cancel_backup : w.closed ≡ false → w.step ≡ backup → Step w (close w)
    press_retry :
        w.closed ≡ false
        → w.step ≡ restore
        → w.restore_error ≡ true
        → Step w (run_restore (record w { restore_error = false }))
    press_done :
        w.closed ≡ false
        → w.step ≡ restore
        → (w.restore_done || w.restore_error) ≡ true
        → Step w (close w)
    -- The shell draws the page anew, which it can at any time.
    unmounted : Step w (close w)
    resolved :
        (before after : List Call) (i : ℕ) (p : Text)
        → w.pending ≡ before ++ resolving i ∷ after
        → Step w (path_resolved i p (without (before ++ after) w))
    not_resolved :
        (before after : List Call) (i : ℕ)
        → w.pending ≡ before ++ resolving i ∷ after
        → Step w (export_failed i (without (before ++ after) w))
    exported :
        (before after : List Call) (i : ℕ) (p : Text)
        → w.pending ≡ before ++ exporting i p ∷ after
        → Step w (export_succeeded i p (without (before ++ after) w))
    not_exported :
        (before after : List Call) (i : ℕ) (p : Text)
        → w.pending ≡ before ++ exporting i p ∷ after
        → Step w (export_failed i (without (before ++ after) w))
    progressed : w.listening ≡ true → Step w (finish_flash w)  -- to 100 percent
    flashed :
        (before after : List Call) (f : Option Text)
        → w.pending ≡ before ++ flashing f ∷ after
        → Step w (flash_succeeded w.step (without (before ++ after) w))
    not_flashed :
        (before after : List Call) (f : Option Text)
        → w.pending ≡ before ++ flashing f ∷ after
        → Step w (flash_failed (without (before ++ after) w))
    imported :
        (before after : List Call) (p : Text)
        → w.pending ≡ before ++ importing p ∷ after
        → Step w (record (without (before ++ after) w) { restore_done = true })
    not_imported :
        (before after : List Call) (p : Text)
        → w.pending ≡ before ++ importing p ∷ after
        → Step w
            (record (without (before ++ after) w) { restore_error = true; restore_done = false })
    firmware_picked :
        (before after : List Call) (p : Text)
        → is_empty p ≡ false
        → w.pending ≡ before ++ picking_firmware ∷ after
        → Step w (record (without (before ++ after) w) {
          firmware_path = some p;
          firmware_available = true;
        })
    place_picked :
        (before after : List Call) (p : Text)
        → is_empty p ≡ false
        → w.pending ≡ before ++ picking_backup ∷ after
        → Step w (backup_picked p (without (before ++ after) w))
    loaded :
        (before after : List Call) (available : Bool)
        → w.pending ≡ before ++ loading_info ∷ after
        → Step w (info_loaded available w.firmware_path (without (before ++ after) w))
    -- A dialog that gives no path, or an empty one.
    given_up :
        (before after : List Call)
        → (w.pending ≡ before ++ picking_firmware ∷ after)
          ⊎ (w.pending ≡ before ++ picking_backup ∷ after)
        → Step w (without (before ++ after) w)

  pub data Reach (w : Wizard) : Wizard → Type 0 where
    here : Reach w w
    later : {v u : Wizard} → Reach w v → Step v u → Reach w u
