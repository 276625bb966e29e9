-- ===== src/Device/Link.antt =====
-- The serial line between the application and the device, as a port: it loses nothing, and the
-- device handles what it was sent when the application flushes. The clock stands still.
pub mod Commands
pub mod Imports
pub mod RoundTrip
pub mod Survival
pub mod Readings
pub mod Injection
pub mod Refusals
pub mod Computer
pub mod Transfer
pub mod Restart
pub mod Dumps
use freematics_gui.Base.{ℕ, [], ◌∷◌, ◌++◌}
use freematics_gui.Base.Result.{ok}
use freematics_gui.Text.{Text}
use freematics_gui.Text.Utf8.{Bytes}
use freematics_gui.Protocol.Port.{Read, byte, silent, Port}
use freematics_gui.Protocol.Client.{SerialClient}
use freematics_gui.Device.Handler.{Device, Firmware, process_serial}

-- `to_device` was written and not flushed; `to_host` was printed and not read; `beside` is the rest of
-- the computer that the application runs on.
pub record Line (N F X : Type 0) : Type 0 where
  pub device : Device N F
  pub to_device : Bytes
  pub to_host : Bytes
  pub beside : X

-- The application has written nothing that the device has not handled.
abbrev pub idle : {N F X : Type 0} → X → Device N F → Bytes → Line N F X
idle x d out = record { device = d; to_device = []; to_host = out; beside = x }

abbrev next_byte : Bytes → Read
next_byte [] = silent
next_byte (b ∷ bs) = byte b

abbrev rest : Bytes → Bytes
rest [] = []
rest (b ∷ bs) = bs

module _ {N F : Type 0} (X : Type 0) (fw : Firmware N F) where
  abbrev pub served : Line N F X → Line N F X
  served s =
      let (d, out) = process_serial fw [] s.to_device s.device in
      record s { device = d; to_device = []; to_host = s.to_host ++ out }

  abbrev pub link : Port (Line N F X)
  link = record {
    read = λ s. (next_byte s.to_host, record s { to_host = rest s.to_host });
    write_all = λ bs s. (ok tt, record s { to_device = s.to_device ++ bs });
    flush = λ s. (ok tt, served s);
    set_timeout = λ ms s. (ok tt, s);
    clear_input = λ s. (ok tt, record s { to_host = [] });
    now = λ s. (0, s);
    sleep = λ ms s. s;
  }

  abbrev pub link_client : (Text → Text) → ℕ → SerialClient (Line N F X)
  link_client debug fuel = record { port = link; debug = debug; fuel = fuel }
