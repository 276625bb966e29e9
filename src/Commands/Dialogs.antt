-- ===== src/Commands/Dialogs.antt =====
-- commands.rs: the commands that ask for a path. The dialog plugin and the paths of the system are
-- parameters.
use freematics_gui.Base.{ℕ, ◌++◌, List, [], ◌∷◌, Option, get_or, ◌>>=◌}
use freematics_gui.Base.Result.{Result, ok}
use freematics_gui.Text.{Text, codes}
use freematics_gui.Text.Decimal.{show}

-- A dialog shows a filter, by its name and its extensions, and gives the file that was chosen, if
-- one was: `FilePath`, here `P`.
pub record Dialog (W P : Type 0) : Type 0 where
  pub save_file : Text → List Text → Text → W → Option P × W
  pub pick_file : Text → List Text → W → Option P × W
  -- `into_path().ok()` and `to_string_lossy`
  pub into_path : P → Option Text

module _ {W P : Type 0} (dialog : Dialog W P) where
  abbrev chosen : Option P × W → Result Text (Option Text) × W
  chosen (p, w) = (ok (p >>= dialog.into_path), w)

  unfoldable pub pick_save_path : Text → W → Result Text (Option Text) × W
  pick_save_path default_name w =
      chosen (dialog.save_file (codes "JSON") (codes "json" ∷ []) default_name w)

  unfoldable pub pick_open_path : W → Result Text (Option Text) × W
  pick_open_path w = chosen (dialog.pick_file (codes "JSON") (codes "json" ∷ []) w)

  unfoldable pub pick_firmware_path : W → Result Text (Option Text) × W
  pick_firmware_path w = chosen (dialog.pick_file (codes "Firmware") (codes "bin" ∷ []) w)

-- `secs` is the time since the epoch, if the clock is not before it; `push` is `PathBuf::push` on the
-- temporary directory.
unfoldable pub temp_backup_path : (Text → Text) → Option ℕ → Result Text Text
unfolding show
temp_backup_path push secs =
    ok (push (codes "freematics-backup-" ++ (show (get_or secs 0) ++ codes ".json")))
