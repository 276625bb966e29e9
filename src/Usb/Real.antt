-- ===== src/Usb/Real.antt =====
-- usb/serial_port.rs: `RealSerialPort`. The crate serialport is a parameter: `H` is its open port,
-- and its operations act on the state of the system.
pub mod Opened
use freematics_gui.Base.{ℕ, Bool, false}
use freematics_gui.Base.Result
use freematics_gui.Base.Result.{Result, ok, err}
use freematics_gui.Text.{Text}
use freematics_gui.Text.Utf8.{Bytes}
use freematics_gui.Protocol.Port.{other, IoError, Read, Port}
use freematics_gui.Protocol.Client.{SerialClient}
use freematics_gui.Commands.{System}

pub record SerialCrate (W H : Type 0) : Type 0 where
  -- `new(path, baud).timeout(ms).open()`
  pub open_path : Text → ℕ → ℕ → W → Result Text H × W
  pub write_request_to_send : Bool → H → W → Result Text (Unit {0}) × W
  pub write_data_terminal_ready : Bool → H → W → Result Text (Unit {0}) × W
  -- `clear(ClearBuffer::Input)`
  pub clear : H → W → Result Text (Unit {0}) × W
  pub set_timeout : ℕ → H → W → Result Text (Unit {0}) × W
  pub read : H → W → Read × W
  pub write_all : Bytes → H → W → Result IoError (Unit {0}) × W
  pub flush : H → W → Result IoError (Unit {0}) × W
  pub now : W → ℕ × W
  pub sleep : ℕ → W → W

abbrev pub baud_rate : ℕ
baud_rate = 115200

abbrev pub open_timeout : ℕ
open_timeout = 2000

abbrev pub other_error : Text → IoError
other_error e = record { kind = other; message = e }

module _ {W H : Type 0} (crate : SerialCrate W H) where
  -- What follows on a port that the crate has opened: RTS and DTR are put down, and after 150 ms the
  -- input is dropped. None of it makes the opening fail.
  unfoldable pub settle : H → W → W
  settle h w =
      let w1 : W = (crate.write_request_to_send false h w).1 in
      let w2 : W = (crate.write_data_terminal_ready false h w1).1 in
      (crate.clear h (crate.sleep 150 w2)).1

  abbrev opened : Result Text H × W → Result IoError H × W
  opened (err e, w) = (err (other_error e), w)
  opened (ok h, w) = (ok h, settle h w)

  unfoldable pub open_real : Text → W → Result IoError H × W
  open_real path w = opened (crate.open_path path baud_rate open_timeout w)

  -- `Read`, `Write` and `SerialPortOps` of the real port.
  unfoldable pub real_port : H → Port W
  real_port h = record {
    read = crate.read h;
    write_all = λ bs. crate.write_all bs h;
    flush = crate.flush h;
    set_timeout = λ ms w.
        (Result.map_err other_error (crate.set_timeout ms h w).0, (crate.set_timeout ms h w).1);
    clear_input = λ w. (Result.map_err other_error (crate.clear h w).0, (crate.clear h w).1);
    now = crate.now;
    sleep = crate.sleep;
  }

  abbrev with_client :
      (Text → Text) → ℕ → Result IoError H × W → Result IoError (SerialClient W) × W
  with_client debug fuel (err e, w) = (err e, w)
  with_client debug fuel (ok h, w) =
      (ok (record { port = real_port h; debug = debug; fuel = fuel }), w)

  -- The system that `with_serial` runs on.
  unfoldable pub real_system : (W → Bool) → (Text → Text) → ℕ → System W
  real_system poisoned debug fuel = record {
    poisoned = poisoned;
    open_port = λ path w. with_client debug fuel (open_real path w);
  }
