-- ===== src/Flash/Esptool/Gate.antt =====
-- flash/esptool.rs: when `flash_firmware_with` runs the flasher.
use freematics_gui.Base.{◌≡◌, refl, true, ◌++◌, Bool-cases, inl, inr}
use freematics_gui.Base.Result.{Result, ok, err, Result-cases}
use freematics_gui.Text.{Text, codes, trim, eq_ignore_ascii_case}
use freematics_gui.Text.Utf8.{Bytes}
use freematics_gui.Files.{Files}
use freematics_gui.Protocol.Port.{Outcome, done, failed}
use freematics_gui.Flash.Sha.{verify_sha256, compute_sha256}
use freematics_gui.Flash.Esptool.{Runner, flash_firmware_with, build_cli_args, default_baud}

-- The output of a run is dropped, its error is kept.
abbrev pub concluded : Result Text Text → Outcome Text (Unit {0})
concluded (ok out) = done tt
concluded (err e) = failed e

module _ {W : Type 0} (fs : Files W) (sha256_hex : Bytes → Text) (path expected : Text) where
  -- The image is there, can be read, and has the expected digest, in upper or lower case.
  abbrev pub Matches : W → Type 0
  Matches w =
      (image : Bytes) × (fs.exists path w ≡ true)
      × (fs.read path w ≡ ok image)
      × (eq_ignore_ascii_case (sha256_hex image) (trim expected) ≡ true)

  module _ (run : Runner W) (port : Text) (w : W) where
    -- With a file that is missing, cannot be read or has another digest, the runner is not called:
    -- the world stays as it is, and flashing fails.
    pub flash-refused :
        ¬ (Matches w)
        → (reason : Text) × (flash_firmware_with fs sha256_hex run port path expected w
            ≡ (failed reason, w))
    unfolding flash_firmware_with verify_sha256 compute_sha256
    flash-refused h = elim (Bool-cases (fs.exists path w)) [
      | inr e ↦ (codes "binary not found: " ++ path, rw e refl)
      | inl e ↦ elim (Result-cases (fs.read path w)) [
        | inr (x, r) ↦
            (codes "failed to read " ++ (path ++ (codes ": " ++ x.message)), rw (e, r) refl)
        | inl (image, r) ↦
            elim (Bool-cases (eq_ignore_ascii_case (sha256_hex image) (trim expected))) [
              | inl m ↦ absurd (h (image, e, r, m))
              | inr m ↦ (codes "SHA256 mismatch — refusing to flash", rw (e, r, m) refl)
            ]
      ]
    ]

    -- With a matching file flashing is one call of the runner, with the arguments for the port and
    -- the file: it succeeds where the run does, and fails with the run's error otherwise.
    pub flash-run :
        Matches w
        → (o : Result Text Text) (w' : W) → run (build_cli_args port default_baud path) w ≡ (o, w')
        → flash_firmware_with fs sha256_hex run port path expected w ≡ (concluded o, w')
    unfolding flash_firmware_with verify_sha256 compute_sha256
    flash-run (image, e, r, m) (ok out) w' h = rw (e, r, m, h) refl
    flash-run (image, e, r, m) (err x) w' h = rw (e, r, m, h) refl
