-- ===== src/Flash/Sha.antt =====
-- flash/esptool.rs: the check of a firmware image against its SHA-256. The digest in hex, which the
-- crates sha2 and hex compute, is a parameter.
use freematics_gui.Base.{Bool, ◌++◌}
use freematics_gui.Base.Result
use freematics_gui.Base.Result.{Result, ok}
use freematics_gui.Text.{Text, codes, eq_ignore_ascii_case, trim}
use freematics_gui.Text.Utf8.{Bytes}
use freematics_gui.Files.{Files}
use freematics_gui.Protocol.Port.{IoError}

module _ (sha256_hex : Bytes → Text) where
  unfoldable pub verify_sha256_bytes : Bytes → Text → Bool
  verify_sha256_bytes image expected = eq_ignore_ascii_case (sha256_hex image) (trim expected)

  module _ {W : Type 0} (fs : Files W) where
    unfoldable pub compute_sha256 : Text → W → Result Text Text
    compute_sha256 path w =
        Result.◌>>=◌
          (Result.map_err
            (λ (e : IoError). codes "failed to read " ++ (path ++ (codes ": " ++ e.message)))
            (fs.read path w))
          (λ image. ok (sha256_hex image))

    unfoldable pub verify_sha256 : Text → Text → W → Result Text Bool
    verify_sha256 path expected w =
        Result.◌>>=◌ (compute_sha256 path w)
          (λ actual. ok (eq_ignore_ascii_case actual (trim expected)))
