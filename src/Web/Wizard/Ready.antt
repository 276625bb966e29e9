-- ===== src/Web/Wizard/Ready.antt =====
-- src/views/flash-wizard.ts: what has happened before the wizard flashes.
use freematics_gui.Base.{◌≡◌, ◌≢◌, Bool, true, false, not, ◌||◌, is_empty, arith, refl}
use freematics_gui.Text.{Text}
use freematics_gui.Web.Wizard.{
  WizardStep, warning, backup, flash, restore, Wizard, start, run_backup, path_resolved,
  export_succeeded, export_failed, run_restore, finish_flash, flash_succeeded, flash_failed,
  next_warning, info_loaded,
}
use freematics_gui.Web.Wizard.Steps.{
  Step, acknowledge, press_pick_firmware, press_next, press_pick_backup, press_skip, press_flash,
  cancel_warning, cancel_backup, press_retry, press_done, unmounted, resolved, not_resolved,
  exported, not_exported, progressed, flashed, not_flashed, imported, not_imported, firmware_picked,
  place_picked, loaded, given_up, Reach, here, later,
}

-- The progress of a wizard, by its step.
pub record IsReady (w : Wizard) : Type 0 where
  pub saved : w.backup_done ≡ true → is_empty w.saved ≡ false
  pub at_warning : w.step ≡ warning → (w.flashes ≡ 0) × (w.backup_skipped ≡ false)
  pub at_backup :
      w.step ≡ backup → (w.flashes ≡ 0) × (w.acknowledged ≡ true) × (w.backup_skipped ≡ false)
  pub at_flash :
      w.step ≡ flash
      → (w.flashes ≡ 1)
        × (w.acknowledged ≡ true)
        × ((w.backup_skipped || not (is_empty w.saved)) ≡ true)
  pub at_restore :
      w.step ≡ restore
      → (w.flashes ≡ 1)
        × (w.acknowledged ≡ true)
        × ((w.backup_skipped || not (is_empty w.saved)) ≡ true)
  pub listening : w.listening ≡ true → w.step ≡ flash

module _ (skip : Bool) where
  Step-IsReady : {w v : Wizard} → Step skip w v → IsReady w → IsReady v
  unfolding run_backup path_resolved export_succeeded export_failed run_restore finish_flash
      flash_succeeded flash_failed next_warning info_loaded
  Step-IsReady {w} (acknowledge b o e) k = ground arith
  Step-IsReady {w} (press_pick_firmware o e) k = ground arith
  Step-IsReady {w} (press_next o e a f) k = ground arith
  Step-IsReady {w} (press_pick_backup o e) k = ground arith
  Step-IsReady {w} (press_skip o e d) k = ground arith
  Step-IsReady {w} (press_flash o e d) k = ground arith
  Step-IsReady {w} (cancel_warning o e) k = ground arith
  Step-IsReady {w} (cancel_backup o e) k = ground arith
  Step-IsReady {w} (press_retry o e d) k = ground arith
  Step-IsReady {w} (press_done o e d) k = ground arith
  Step-IsReady {w} unmounted k = ground arith
  Step-IsReady {w} (not_resolved before after i e) k = ground arith
  Step-IsReady {w} (resolved before after i p e) k = ground arith
  Step-IsReady {w} (exported before after i p e) k = ground arith
  Step-IsReady {w} (not_exported before after i p e) k = ground arith
  Step-IsReady {w} (progressed e) k = ground arith
  Step-IsReady {w} (flashed before after f e) k = ground arith
  Step-IsReady {w} (not_flashed before after f e) k = ground arith
  Step-IsReady {w} (imported before after p e) k = ground arith
  Step-IsReady {w} (not_imported before after p e) k = ground arith
  Step-IsReady {w} (firmware_picked before after p h e) k = ground arith
  Step-IsReady {w} (place_picked before after p h e) k = ground arith
  Step-IsReady {w} (loaded before after b e) k = ground arith
  Step-IsReady {w} (given_up before after e) k = ground arith

  start-IsReady : (path : Text) → IsReady (start path)
  start-IsReady path = ground arith

  pub Reach-IsReady : (path : Text) {w : Wizard} → Reach skip (start path) w → IsReady w
  Reach-IsReady path here = start-IsReady path
  Reach-IsReady path (later r s) = Step-IsReady s (Reach-IsReady path r)

  -- A wizard calls `flashFirmware` at most once, whatever the user presses and whenever answers come.
  -- If it has, then the user has ticked that the risks are understood, and has a backup that was
  -- saved or has skipped it (as a first-run setup does).
  pub flashes-once :
      (path : Text) (w : Wizard)
      → Reach skip (start path) w
      → w.flashes ≢ 0
      → (w.flashes ≡ 1)
        × (w.acknowledged ≡ true)
        × ((w.backup_skipped || not (is_empty w.saved)) ≡ true)
  flashes-once path w r h = let k = Reach-IsReady path r in split w.step refl k h
    where
      split :
          (st : WizardStep)
          → w.step ≡ st
          → IsReady w
          → w.flashes ≢ 0
          → (w.flashes ≡ 1)
            × (w.acknowledged ≡ true)
            × ((w.backup_skipped || not (is_empty w.saved)) ≡ true)
      split warning e k h = absurd (h (k.at_warning e).0)
      split backup e k h = absurd (h (k.at_backup e).0)
      split flash e k h = k.at_flash e
      split restore e k h = k.at_restore e
