-- ===== src/Usb/Handle.antt =====
-- usb/serial_port.rs: `SerialPortHandle`, a line at a time over a port.
use freematics_gui.Base.{ℕ, zero, suc, ◌==◌, ◌||◌, true, false, [], ◌∷◌, ◌++◌, is_empty}
use freematics_gui.Text.{Text, codes}
use freematics_gui.Text.Utf8.{Bytes, as_bytes, from_utf8}
use freematics_gui.Protocol.Port.{
  unexpected_eof, IoError, byte, silent, broken, Port, done, failed, spinning, Io, ◌>>=◌, ◌>>◌, act,
}
use freematics_gui.Protocol.Client.{decoded}

abbrev pub port_closed : IoError
port_closed = record { kind = unexpected_eof; message = codes "port closed" }

module _ {S : Type 0} (port : Port S) where
  unfoldable pub write_line : Text → Io S (Unit {0})
  write_line line = do
    act (port.write_all (as_bytes line))
    act (port.write_all (b'\r' ∷ []))
    act port.flush

  -- The loop of `read_line`, a round for each byte. Here the end of the data is an error.
  unfoldable pub read_bytes : ℕ → Bytes → Io S Bytes
  read_bytes zero out s = (spinning, s)
  read_bytes (suc n) out s =
      let s' : S = (port.read s).1 in
      elim (port.read s).0 [
        | silent ↦ (failed port_closed, s')
        | broken e ↦ (failed e, s')
        | byte b ↦ elim (b == b'\r' || b == b'\n') [
          | true ↦ elim (is_empty out) [ true ↦ read_bytes n out s' | false ↦ (done out, s') ]
          | false ↦ read_bytes n (out ++ b ∷ []) s'
        ]
      ]

  unfoldable pub read_line : ℕ → Io S Text
  read_line fuel = do out ← read_bytes fuel []; decoded (from_utf8 out)
