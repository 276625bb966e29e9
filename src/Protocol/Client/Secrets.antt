-- ===== src/Protocol/Client/Secrets.antt =====
-- protocol/client.rs: what `redact` hides in the log, and what it does not.
use freematics_gui.Base.{◌≡◌, refl}
use freematics_gui.Text.{Text, split_once, text_eq}
use freematics_gui.Protocol.Client.{redact}
use freematics_gui.Protocol.Client.Ack.{set_command}

-- The command that `set` sends is logged as it is, its value included, whatever its key is.
pub redact-set_command : (key val : Text) → redact (set_command key val) ≡ set_command key val
unfolding redact set_command split_once text_eq
redact-set_command key val = refl
