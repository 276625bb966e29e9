-- ===== src/Tests/Toys.antt =====
-- Concrete values for the parameters of the model: whole numbers for floats, and a port that plays
-- a list of reads, as the `MockPort` of the tests in protocol/client.rs does.
use freematics_gui.Base.{ℕ, zero, suc, ◌/◌, ◌++◌, true, List, [], ◌∷◌, map, ltb}
use freematics_gui.Base.Result.{ok}
use freematics_gui.Text.{Text, codes}
use freematics_gui.Text.Utf8.{Bytes, as_bytes}
use freematics_gui.Text.Decimal.{parse_unsigned, show}
use freematics_gui.Protocol.Float.{Float}
use freematics_gui.Protocol.Port.{Read, byte, silent, Port}
use freematics_gui.Protocol.Config.{default}
use freematics_gui.Protocol.Client.{SerialClient}
use freematics_gui.Backup.Schema.{BackupFile, new_backup}
use freematics_gui.Protocol.Client.Traffic.{frame}

abbrev pub whole : Float ℕ
whole = record {
  tenths = λ n. n / 10;
  from_text = parse_unsigned 1000000;
  to_text = show;
  is_finite = λ n. true;
  is_less = ltb;
}

abbrev pub next_read : List Read → Read
next_read [] = silent
next_read (r ∷ rs) = r

abbrev pub after_read : List Read → List Read
after_read [] = []
after_read (r ∷ rs) = rs

-- Writes succeed, the clock stands still, and at the end of the list the port is silent.
abbrev pub script_port : Port (List Read)
script_port = record {
  read = λ s. (next_read s, after_read s);
  write_all = λ bs s. (ok tt, s);
  flush = λ s. (ok tt, s);
  set_timeout = λ ms s. (ok tt, s);
  clear_input = λ s. (ok tt, s);
  now = λ s. (0, s);
  sleep = λ ms s. s;
}

abbrev pub script_client : SerialClient (List Read)
script_client = record { port = script_port; debug = λ s. s; fuel = 100 }

-- The reads of a text.
abbrev pub says : Text → List Read
says s = map byte (as_bytes s)

abbrev repeated : ℕ → Text → Text
repeated zero s = []
repeated (suc n) s = s ++ repeated n s

-- A device that accepts every command of a configuration.
abbrev pub accepting : List Read
accepting = says (repeated 29 (codes "OK\r"))

-- Each command once.
abbrev pub wire : List Text → Bytes
wire [] = []
wire (cmd ∷ cmds) = frame cmd ++ wire cmds

abbrev pub sample : BackupFile ℕ
sample = new_backup [] (codes "ONE+") (codes "1") (codes "ab") (default whole)
