-- ===== src/Flash/Esptool.antt =====
-- flash/esptool.rs: the esptool runner and `flash_firmware_with`. The trait `FlashRunner` is a
-- parameter, and so is the subprocess of its real implementation.
pub mod Gate
use freematics_gui.Base.{
  ℕ, Bool, true, false, not, ◌||◌, List, [], ◌∷◌, ◌++◌, Option, none, some, if◌then◌else◌,
}
use freematics_gui.Base.Result.{Result, ok, err}
use freematics_gui.Text.{Text, codes, text_eq}
use freematics_gui.Text.Decimal.{show}
use freematics_gui.Text.Utf8.{Bytes}
use freematics_gui.Files.{Files}
use freematics_gui.Protocol.Port.{Task, ◌>>=◌, pure, fail, act, and_then, outcome, failed, IoError}
use freematics_gui.Flash.Sha.{verify_sha256}
use freematics_gui.Flash.Progress.{parse_progress}

abbrev pub default_baud : ℕ
default_baud = 921600

-- `CommandFlashRunner`
pub record CommandFlashRunner : Type 0 where
  pub program : Option Text

unfoldable pub resolve_invocation : CommandFlashRunner → Text × List Text
resolve_invocation runner = elim runner.program [
  | some prog ↦
      if text_eq prog (codes "python3") || text_eq prog (codes "python")
      then (prog, codes "-m" ∷ codes "esptool" ∷ [])
      else (prog, [])
  | none ↦ (codes "esptool.py", [])
]

-- `std::process::Output`, its streams decoded.
pub record Output : Type 0 where
  pub succeeded : Bool
  pub stdout : Text
  pub stderr : Text

unfoldable pub build_cli_args : Text → ℕ → Text → List Text
build_cli_args port baud path =
    codes "--port"
    ∷ port
    ∷ codes "--baud"
    ∷ show baud
    ∷ codes "write_flash"
    ∷ codes "0x10000"
    ∷ path
    ∷ []

-- A runner: what `run` gives for the arguments, and the state after it.
abbrev pub Runner : Type 0 → Type 0
Runner W = List Text → W → Result Text Text × W

module _ {W : Type 0} where
  abbrev ran : Text → Result IoError Output × W → Result Text Text × W
  ran program (err e, w) =
      (err (codes "failed to spawn " ++ (program ++ (codes ": " ++ e.message))), w)
  ran program (ok out, w) =
      (if out.succeeded then ok (out.stdout ++ out.stderr) else err (out.stdout ++ out.stderr), w)

  -- `spawn` runs a program with its arguments and waits for it.
  unfoldable pub run_command :
      (Text → List Text → W → Result IoError Output × W) → CommandFlashRunner → Runner W
  unfolding resolve_invocation
  run_command spawn runner args w =
      let (program, prefix) = resolve_invocation runner in
      ran program (spawn program (prefix ++ args) w)

  module _ (fs : Files W) (sha256_hex : Bytes → Text) (run : Runner W) (port path : Text) where
    -- Behind the checks: the output is parsed for its progress, and the result is dropped.
    abbrev flash : Bool → Task W (Unit {0})
    flash true = do
      output ← act (run (build_cli_args port default_baud path))
      let progress = parse_progress output
      pure tt
    flash false = fail (codes "SHA256 mismatch — refusing to flash")

    unfoldable pub flash_firmware_with : Text → Task W (Unit {0})
    flash_firmware_with expected w =
        if not (fs.exists path w)
        then (failed (codes "binary not found: " ++ path), w)
        else and_then (outcome (verify_sha256 sha256_hex fs path expected w), w) flash
