-- ===== src/Web/Wizard/Late.antt =====
-- src/views/flash-wizard.ts, `onPickBackup`: a place for the backup that comes when the wizard has
-- gone on.
use freematics_gui.Base.{◌+◌, ◌≡◌, refl, ap, Bool, true, false, is_empty, [], ◌∷◌, arith}
use freematics_gui.Text.{Text}
use freematics_gui.Web.Wizard.{
  backup, flash, restore, Call, exporting, importing, flashing, picking_backup, Wizard, start,
  run_backup, run_flash, run_restore, finish_flash, flash_succeeded, backup_picked,
}
use freematics_gui.Web.Wizard.Steps.{
  press_pick_backup, press_flash, place_picked, flashed, Reach, here, later, without,
}
use freematics_gui.Web.Wizard.Ready.{Reach-IsReady}

flash_succeeded-restores :
    (w : Wizard)
    → w.closed ≡ false
    → w.flash_error ≡ false
    → w.backup_skipped ≡ false
    → flash_succeeded flash w ≡ record w {
      listening = false;
      step = restore;
      restore_error = false;
      pending = importing w.backup_path ∷ w.pending;
    }
unfolding flash_succeeded finish_flash run_restore
flash_succeeded-restores w c f s = ground arith

module _ (skip : Bool) where
  -- Let a wizard have saved a backup. If the user presses "Change location" and goes on to the flash
  -- before the dialog gives a location `p`, then the wizard can come to import from `p`, not from
  -- where it saved: a backup at `p` is asked for when the flash is under way already, and has not
  -- come back when the import begins; nothing is saved in between.
  pub place_picked-late :
      (path p : Text) (w : Wizard)
      → Reach skip (start path) w
      → w.closed ≡ false
      → w.step ≡ backup
      → w.backup_done ≡ true
      → is_empty p ≡ false
      → (t : Wizard) × Reach skip w t
        × (t.step ≡ restore)
        × (t.pending ≡ importing p ∷ exporting (w.gen + 1) p ∷ w.pending)
        × (t.saved ≡ w.saved)
  unfolding run_backup
  place_picked-late path p w r o at ready h =
      let asked = record w { pending = picking_backup ∷ w.pending } in
      let flashing_now = run_flash asked in
      let f = flashing w.firmware_path in
      let placed = backup_picked p (without (f ∷ w.pending) flashing_now) in
      let waits : placed.pending ≡ exporting (w.gen + 1) p ∷ f ∷ w.pending =
        ap (λ (c : Call). c ∷ f ∷ w.pending) (rw h refl) in
      let rest = without (exporting (w.gen + 1) p ∷ w.pending) placed in
      let skipped : w.backup_skipped ≡ false = ((Reach-IsReady skip path r).at_backup at).2 in
      let restored = flash_succeeded-restores rest o refl skipped in
      (
        flash_succeeded flash rest,
        later
            (later (later (later here (press_pick_backup o at)) (press_flash o at ready))
              (place_picked (f ∷ []) w.pending p h refl))
            (flashed (exporting (w.gen + 1) p ∷ []) w.pending w.firmware_path waits),
        ap (λ t. t.step) restored,
        ap (λ t. t.pending) restored,
        ap (λ t. t.saved) restored,
      )
