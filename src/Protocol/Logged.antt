-- ===== src/Protocol/Logged.antt =====
-- A port with a record of all that the program hands to `write_all`, so that statements can speak of
-- what was sent over any port.
use freematics_gui.Base.{◌++◌}
use freematics_gui.Text.Utf8.{Bytes}
use freematics_gui.Protocol.Port.{Port}
use freematics_gui.Protocol.Client.{SerialClient}

module _ {S : Type 0} where
  abbrev pub logged : Port S → Port (S × Bytes)
  logged p = record {
    read = λ x. ((p.read x.0).0, ((p.read x.0).1, x.1));
    write_all = λ bs x. ((p.write_all bs x.0).0, ((p.write_all bs x.0).1, x.1 ++ bs));
    flush = λ x. ((p.flush x.0).0, ((p.flush x.0).1, x.1));
    set_timeout = λ ms x. ((p.set_timeout ms x.0).0, ((p.set_timeout ms x.0).1, x.1));
    clear_input = λ x. ((p.clear_input x.0).0, ((p.clear_input x.0).1, x.1));
    now = λ x. ((p.now x.0).0, ((p.now x.0).1, x.1));
    sleep = λ ms x. (p.sleep ms x.0, x.1);
  }

  abbrev pub with_log : SerialClient S → SerialClient (S × Bytes)
  with_log c = record { port = logged c.port; debug = c.debug; fuel = c.fuel }
