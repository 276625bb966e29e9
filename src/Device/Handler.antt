-- ===== src/Device/Handler.antt =====
-- firmware/overlay/serial_handler.cpp: what the device does with the lines that it receives. The
-- windows that keep it awake and quiet are times, and are left out; the readings of the live data
-- are a parameter.
pub mod Pairs
use freematics_gui.Base.{
  ◌==◌, Bool, true, false, if◌then◌else◌, is_empty, drop, List, [], ◌∷◌, ◌++◌, Option, none, some,
  length,
}
use freematics_gui.Text.{codes, text_eq, starts_with, split_once}
use freematics_gui.Text.Utf8.{Bytes}
use freematics_gui.Device.Strings.{Numbers, trim, drop_cr, to_upper_case, to_lower_case}
use freematics_gui.Device.Settings.{Config, set}
use freematics_gui.Device.Settings.Printed.{dump, get}
use freematics_gui.Device.Nvs.{Nvs, save, load}

pub record Device (N F : Type 0) : Type 0 where
  pub cfg : Config F
  pub store : N

-- What the sketch around the handler is made of.
pub record Firmware (N F : Type 0) : Type 0 where
  pub nvs : Nvs N
  pub num : Numbers F
  -- `fcmLiveQuery`
  pub live_query : Bytes → Bytes

abbrev pub ok_reply : Bytes
ok_reply = codes "OK\r\n"

abbrev pub err_reply : Bytes
err_reply = codes "ERR\r\n"

abbrev pub live_names : List Bytes
live_names =
    codes "BATT"
    ∷ codes "RSSI"
    ∷ codes "VIN"
    ∷ codes "LAT"
    ∷ codes "LNG"
    ∷ codes "ALT"
    ∷ codes "SAT"
    ∷ codes "SPD"
    ∷ codes "CRS"
    ∷ codes "UPTIME"
    ∷ codes "NET_OP"
    ∷ codes "NET_IP"
    ∷ []

abbrev pub legacy_names : List Bytes
legacy_names = codes "APN" ∷ codes "SSID" ∷ codes "WPWD" ∷ []

abbrev among : Bytes → List Bytes → Bool
among up [] = false
among up (n ∷ ns) = if text_eq up n then true else among up ns

module _ {N F : Type 0} (fw : Firmware N F) where
  -- The device and what it prints.
  abbrev pub Reply : Type 0
  Reply = Device N F × Bytes

  abbrev pub stored : Device N F → Option (Config F) → Reply
  stored d none = (d, err_reply)
  stored d (some cfg) = (record d { cfg = cfg }, ok_reply)

  abbrev stored_anyway : Device N F → Option (Config F) → Reply
  stored_anyway d none = (d, ok_reply)
  stored_anyway d (some cfg) = (record d { cfg = cfg }, ok_reply)

  -- `CFG=key=val`, behind its first `=`
  abbrev pub set_pair : Device N F → Option (Bytes × Bytes) → Reply
  set_pair d none = (d, err_reply)
  set_pair d (some (key, val)) = stored d (set fw.num (trim key) val d.cfg)

  unfoldable pub live_line : Bytes → Device N F → Reply
  live_line up d =
      if among up live_names then (d, fw.live_query up ++ codes "\r\n") else (d, codes "ERROR\r\n")

  -- `APN?`, `APN=` and their like, one after the other
  unfoldable pub legacy_line : List Bytes → Bytes → Bytes → Device N F → Reply
  legacy_line [] line up d = live_line up d
  legacy_line (name ∷ names) line up d =
      let rest : Reply = legacy_line names line up d in
      let key : Bytes = to_lower_case name in
      if text_eq up (name ++ codes "?")
      then (d, get fw.num key d.cfg ++ codes "\r\n")
      else if starts_with up (name ++ codes "=")
      then stored_anyway d (set fw.num key (drop (length (name ++ codes "=")) line) d.cfg)
      else rest

  -- A line that is trimmed and not empty. A restart reads the configuration from flash.
  unfoldable pub command_line : Bytes → Bytes → Device N F → Reply
  command_line line up d =
      if text_eq up (codes "CFG_DUMP")
      then (d, dump fw.num d.cfg ++ ok_reply)
      else if text_eq up (codes "CFG_SAVE")
      then (record d { store = save fw.nvs fw.num d.cfg d.store }, ok_reply)
      else if text_eq up (codes "CFG_LOAD")
      then (record d { cfg = load fw.nvs fw.num d.store }, ok_reply)
      else if text_eq up (codes "REBOOT")
      then (record d { cfg = load fw.nvs fw.num d.store }, ok_reply)
      else if starts_with up (codes "CFG=")
      then set_pair d (split_once b'=' (drop 4 line))
      else legacy_line legacy_names line up d

  unfoldable pub handle_command_line : Bytes → Device N F → Reply
  handle_command_line line d =
      let l : Bytes = trim (drop_cr (trim line)) in
      if is_empty l then (d, []) else command_line l (to_upper_case l) d

  -- `readStringUntil('\n')` cuts the bytes that are there into lines; what stands behind the last line
  -- feed is a line when the wait for more is over. The replies come one after the other.
  unfoldable pub process_serial : Bytes → Bytes → Device N F → Reply
  process_serial line [] d = if is_empty line then (d, []) else handle_command_line line d
  process_serial line (b ∷ bs) d = elim (b == b'\n') [
    | true ↦
        let (d1, out1) = handle_command_line line d in
        let (d2, out2) = process_serial [] bs d1 in (d2, out1 ++ out2)
    | false ↦ process_serial (line ++ b ∷ []) bs d
  ]
