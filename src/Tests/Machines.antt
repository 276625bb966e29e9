-- ===== src/Tests/Machines.antt =====
-- Opening a port whose driver refuses one of the calls.
use freematics_gui.Base.{◌≡◌, refl, Bool, true, false, []}
use freematics_gui.Base.Result.{ok, err}
use freematics_gui.Text.{codes}
use freematics_gui.Text.Utf8.{Bytes}
use freematics_gui.Protocol.Port.{silent}
use freematics_gui.Usb.Real.{SerialCrate, open_real, settle}
use freematics_gui.Usb.Real.Opened.{Drives, IsSettled, open_real-IsSettled}

-- One port: its control lines and what it has received.
pub record Pins : Type 0 where
  pub rts : Bool
  pub dtr : Bool
  pub received : Bytes

abbrev one_port : SerialCrate Pins (Unit {0})
one_port = record {
  open_path = λ path baud ms w. (ok tt, record w { rts = true; dtr = true });
  write_request_to_send = λ b h w. (ok tt, record w { rts = b });
  write_data_terminal_ready = λ b h w. (err (codes "not supported"), w);
  clear = λ h w. (ok tt, record w { received = [] });
  set_timeout = λ ms h w. (ok tt, w);
  read = λ h w. (silent, w);
  write_all = λ bs h w. (ok tt, w);
  flush = λ h w. (ok tt, w);
  now = λ w. (0, w);
  sleep = λ ms w. record w { received = codes "boot" };
}

one_port-Drives : Drives one_port
one_port-Drives = record {
  rts = λ h w. w.rts;
  dtr = λ h w. w.dtr;
  received = λ h w. w.received;
  rts_set = λ b h w e. refl;
  dtr_set = λ b h w e. cc;
  received-clear = λ h w e. refl;
  rts_kept = λ b h w. refl;
  rts-sleep = λ ms h w. refl;
  dtr-sleep = λ ms h w. refl;
  rts-clear = λ h w. refl;
  dtr-clear = λ h w. refl;
}

abbrev at_rest : Pins
at_rest = record { rts = false; dtr = true; received = [] }

open_real-IsSettled_example :
    (w0 : Pins) × (one_port.open_path (codes "COM3") 115200 2000 at_rest ≡ (ok tt, w0))
    × IsSettled one_port one_port-Drives tt w0 at_rest
open_real-IsSettled_example =
    open_real-IsSettled one_port one_port-Drives (codes "COM3") at_rest tt at_rest
      (unfold open_real settle in refl)
