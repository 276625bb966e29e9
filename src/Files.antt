-- ===== src/Files.antt =====
-- std::fs as the program uses it: a parameter, over a state of the file system.
use freematics_gui.Base.{Bool}
use freematics_gui.Base.Result.{Result}
use freematics_gui.Text.{Text}
use freematics_gui.Text.Utf8.{Bytes}
use freematics_gui.Protocol.Port.{IoError}

pub record Files (W : Type 0) : Type 0 where
  pub exists : Text → W → Bool
  pub read : Text → W → Result IoError Bytes
  pub read_to_string : Text → W → Result IoError Text
  -- `File::create`, and `write_all` on the file that it opened
  pub create : Text → W → Result IoError (Unit {0}) × W
  pub write_all : Text → Bytes → W → Result IoError (Unit {0}) × W
