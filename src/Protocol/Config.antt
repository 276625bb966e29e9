-- ===== src/Protocol/Config.antt =====
-- protocol/types.rs: the device configuration, how a dump is read and how it is written back.
pub mod RoundTrip
pub mod Lines
pub mod LastWins
use freematics_gui.Base.{
  ℕ, ◌^◌, ◌-◌, Bool, true, false, List, [], ◌∷◌, Option, none, some, get_or, if◌then◌else◌,
  is_empty,
}
use freematics_gui.Base.Int.{ℤ, pos}
use freematics_gui.Base.Result.{Result, ok}
use freematics_gui.Text.{Text, codes, text_eq, trim, split_once}
use freematics_gui.Text.Decimal.{parse_unsigned, parse_signed, show, show_signed}
use freematics_gui.Protocol.Float.{Float}
use freematics_gui.Protocol.Modes.{
  ServerProtocol, udp, GnssMode, standalone, StorageMode, one_of, show_protocol, protocol_from_str,
  show_gnss, gnss_from_str, show_storage, storage_from_str, bool_str, parse_bool,
}

pub record DeviceConfig (F : Type 0) : Type 0 where
  pub cell_apn : Text
  pub wifi_ssid : Text
  pub wifi_password : Text
  pub server_host : Text
  pub server_port : ℕ
  pub server_protocol : ServerProtocol
  pub server_path : Text
  pub gnss_mode : GnssMode
  pub storage : StorageMode
  pub enable_obd : Bool
  pub enable_mems : Bool
  pub enable_wifi : Bool
  pub enable_ble : Bool
  pub enable_httpd : Bool
  pub sim_pin : Text
  pub apn_username : Text
  pub apn_password : Text
  pub wifi_ap_ssid : Text
  pub wifi_ap_password : Text
  pub motion_threshold : F
  pub jumpstart_voltage : ℤ
  pub cooling_down_temp : ℤ
  pub gnss_always_on : Bool
  pub gnss_reset_timeout : ℤ
  pub max_obd_errors : ℤ
  pub server_sync_interval : ℤ
  pub ping_back_interval : ℤ
  pub board_has_psram : Bool

-- The fields, by the names of the struct; `from_dump_lines` and `to_set_commands` go by them.
pub data Field : Type 0 where
  cell_apn : Field
  wifi_ssid : Field
  wifi_password : Field
  server_host : Field
  server_port : Field
  server_protocol : Field
  server_path : Field
  gnss_mode : Field
  storage : Field
  enable_obd : Field
  enable_mems : Field
  enable_wifi : Field
  enable_ble : Field
  enable_httpd : Field
  sim_pin : Field
  apn_username : Field
  apn_password : Field
  wifi_ap_ssid : Field
  wifi_ap_password : Field
  motion_threshold : Field
  jumpstart_voltage : Field
  cooling_down_temp : Field
  gnss_always_on : Field
  gnss_reset_timeout : Field
  max_obd_errors : Field
  server_sync_interval : Field
  ping_back_interval : Field
  board_has_psram : Field

unfoldable pub parse_u16 : Text → ℕ
parse_u16 s = get_or (parse_unsigned (2 ^ 16 - 1) (trim s)) 0

unfoldable pub parse_i32 : Text → ℤ
parse_i32 s = get_or (parse_signed (trim s)) (pos 0)

-- The keys that the match of `from_dump_lines` names, an arm to a line.
abbrev pub keys : Field → List Text
keys cell_apn = codes "apn" ∷ codes "cell_apn" ∷ []
keys wifi_ssid = codes "ssid" ∷ codes "wifi_ssid" ∷ []
keys wifi_password = codes "wpwd" ∷ codes "wifi_password" ∷ []
keys server_host = codes "srv_host" ∷ codes "server_host" ∷ []
keys server_port = codes "srv_port" ∷ codes "server_port" ∷ []
keys server_protocol = codes "srv_proto" ∷ codes "server_protocol" ∷ []
keys server_path = codes "srv_path" ∷ codes "server_path" ∷ []
keys gnss_mode = codes "gnss" ∷ codes "gnss_mode" ∷ []
keys storage = codes "storage" ∷ []
keys enable_obd = codes "obd" ∷ codes "enable_obd" ∷ []
keys enable_mems = codes "mems" ∷ codes "enable_mems" ∷ []
keys enable_wifi = codes "wifi" ∷ codes "enable_wifi" ∷ []
keys enable_ble = codes "ble" ∷ codes "enable_ble" ∷ []
keys enable_httpd = codes "httpd" ∷ codes "enable_httpd" ∷ []
keys sim_pin = codes "sim_pin" ∷ []
keys apn_username = codes "apn_user" ∷ codes "apn_username" ∷ []
keys apn_password = codes "apn_pass" ∷ codes "apn_password" ∷ []
keys wifi_ap_ssid = codes "ap_ssid" ∷ codes "wifi_ap_ssid" ∷ []
keys wifi_ap_password = codes "ap_pwd" ∷ codes "wifi_ap_password" ∷ []
keys motion_threshold = codes "motion_thr" ∷ codes "motion_threshold" ∷ []
keys jumpstart_voltage = codes "jumpstart_v" ∷ codes "jumpstart_voltage" ∷ []
keys cooling_down_temp = codes "cooling_t" ∷ codes "cooling_temp" ∷ codes "cooling_down_temp" ∷ []
keys gnss_always_on = codes "gnss_always" ∷ codes "gnss_always_on" ∷ []
keys gnss_reset_timeout =
    codes "gnss_reset_t" ∷ codes "gnss_reset_to" ∷ codes "gnss_reset_timeout" ∷ []
keys max_obd_errors = codes "max_obd_err" ∷ codes "max_obd_errors" ∷ []
keys server_sync_interval =
    codes "srv_sync_int" ∷ codes "sync_interval" ∷ codes "server_sync_interval" ∷ []
keys ping_back_interval =
    codes "pingback_int" ∷ codes "ping_interval" ∷ codes "ping_back_interval" ∷ []
keys board_has_psram = codes "psram" ∷ codes "board_has_psram" ∷ []

abbrev pub all_fields : List Field
all_fields =
    cell_apn ∷ wifi_ssid ∷ wifi_password ∷ server_host ∷ server_port ∷ server_protocol ∷ server_path
    ∷ gnss_mode ∷ storage ∷ enable_obd ∷ enable_mems ∷ enable_wifi ∷ enable_ble ∷ enable_httpd
    ∷ sim_pin ∷ apn_username ∷ apn_password ∷ wifi_ap_ssid ∷ wifi_ap_password ∷ motion_threshold
    ∷ jumpstart_voltage ∷ cooling_down_temp ∷ gnss_always_on ∷ gnss_reset_timeout ∷ max_obd_errors
    ∷ server_sync_interval ∷ ping_back_interval ∷ board_has_psram ∷ []

-- The arm that a key selects.
field_among : List Field → Text → Option Field
unfolding text_eq
field_among [] k = none
field_among (f ∷ fs) k = if one_of k (keys f) then some f else field_among fs k

unfoldable pub field_of : Text → Option Field
unfolding field_among
field_of = field_among all_fields

module _ {F : Type 0} (fl : Float F) where
  unfoldable pub parse_f32 : Text → F
  parse_f32 s = get_or (fl.from_text (trim s)) (fl.tenths 0)

  unfoldable pub default : DeviceConfig F
  default = record {
    cell_apn = [];
    wifi_ssid = [];
    wifi_password = [];
    server_host = codes "hub.freematics.com";
    server_port = 0;
    server_protocol = udp;
    server_path = [];
    gnss_mode = standalone;
    storage = StorageMode.none;
    enable_obd = true;
    enable_mems = true;
    enable_wifi = false;
    enable_ble = false;
    enable_httpd = false;
    sim_pin = [];
    apn_username = [];
    apn_password = [];
    wifi_ap_ssid = codes "Freematics";
    wifi_ap_password = [];
    motion_threshold = fl.tenths 4;
    jumpstart_voltage = pos 14500;
    cooling_down_temp = pos 80;
    gnss_always_on = false;
    gnss_reset_timeout = pos 0;
    max_obd_errors = pos 5;
    server_sync_interval = pos 30;
    ping_back_interval = pos 0;
    board_has_psram = false;
  }

  -- What an arm does.
  unfoldable pub assign : Field → Text → DeviceConfig F → DeviceConfig F
  assign cell_apn v cfg = record cfg { cell_apn = v }
  assign wifi_ssid v cfg = record cfg { wifi_ssid = v }
  assign wifi_password v cfg = record cfg { wifi_password = v }
  assign server_host v cfg = record cfg { server_host = v }
  assign server_port v cfg = record cfg { server_port = parse_u16 v }
  assign server_protocol v cfg = record cfg { server_protocol = protocol_from_str v }
  assign server_path v cfg = record cfg { server_path = v }
  assign gnss_mode v cfg = record cfg { gnss_mode = gnss_from_str v }
  assign storage v cfg = record cfg { storage = storage_from_str v }
  assign enable_obd v cfg = record cfg { enable_obd = parse_bool v }
  assign enable_mems v cfg = record cfg { enable_mems = parse_bool v }
  assign enable_wifi v cfg = record cfg { enable_wifi = parse_bool v }
  assign enable_ble v cfg = record cfg { enable_ble = parse_bool v }
  assign enable_httpd v cfg = record cfg { enable_httpd = parse_bool v }
  assign sim_pin v cfg = record cfg { sim_pin = v }
  assign apn_username v cfg = record cfg { apn_username = v }
  assign apn_password v cfg = record cfg { apn_password = v }
  assign wifi_ap_ssid v cfg = record cfg { wifi_ap_ssid = v }
  assign wifi_ap_password v cfg = record cfg { wifi_ap_password = v }
  assign motion_threshold v cfg = record cfg { motion_threshold = parse_f32 v }
  assign jumpstart_voltage v cfg = record cfg { jumpstart_voltage = parse_i32 v }
  assign cooling_down_temp v cfg = record cfg { cooling_down_temp = parse_i32 v }
  assign gnss_always_on v cfg = record cfg { gnss_always_on = parse_bool v }
  assign gnss_reset_timeout v cfg = record cfg { gnss_reset_timeout = parse_i32 v }
  assign max_obd_errors v cfg = record cfg { max_obd_errors = parse_i32 v }
  assign server_sync_interval v cfg = record cfg { server_sync_interval = parse_i32 v }
  assign ping_back_interval v cfg = record cfg { ping_back_interval = parse_i32 v }
  assign board_has_psram v cfg = record cfg { board_has_psram = parse_bool v }

  abbrev pub assign_if : Option Field → Text → DeviceConfig F → DeviceConfig F
  assign_if none v cfg = cfg
  assign_if (some f) v cfg = assign f v cfg

  abbrev pub apply_pair : Option (Text × Text) → DeviceConfig F → DeviceConfig F
  apply_pair none cfg = cfg
  apply_pair (some (k, v)) cfg = assign_if (field_of (trim k)) (trim v) cfg

  -- One round of the loop of `from_dump_lines`.
  unfoldable pub apply_line : Text → DeviceConfig F → DeviceConfig F
  apply_line line cfg =
      if is_empty (trim line) then cfg else apply_pair (split_once b'=' (trim line)) cfg

  unfoldable pub apply_lines : List Text → DeviceConfig F → DeviceConfig F
  apply_lines [] cfg = cfg
  apply_lines (l ∷ ls) cfg = apply_lines ls (apply_line l cfg)

  unfoldable pub from_dump_lines : List Text → Result Text (DeviceConfig F)
  from_dump_lines lines = ok (apply_lines lines default)

  unfoldable pub to_set_commands : DeviceConfig F → List (Text × Text)
  to_set_commands cfg =
      (codes "apn", cfg.cell_apn)
      ∷ (codes "ssid", cfg.wifi_ssid)
      ∷ (codes "wpwd", cfg.wifi_password)
      ∷ (codes "srv_host", cfg.server_host)
      ∷ (codes "srv_port", show cfg.server_port)
      ∷ (codes "srv_proto", show_protocol cfg.server_protocol)
      ∷ (codes "srv_path", cfg.server_path)
      ∷ (codes "gnss", show_gnss cfg.gnss_mode)
      ∷ (codes "storage", show_storage cfg.storage)
      ∷ (codes "obd", bool_str cfg.enable_obd)
      ∷ (codes "mems", bool_str cfg.enable_mems)
      ∷ (codes "wifi", bool_str cfg.enable_wifi)
      ∷ (codes "ble", bool_str cfg.enable_ble)
      ∷ (codes "httpd", bool_str cfg.enable_httpd)
      ∷ (codes "sim_pin", cfg.sim_pin)
      ∷ (codes "apn_user", cfg.apn_username)
      ∷ (codes "apn_pass", cfg.apn_password)
      ∷ (codes "ap_ssid", cfg.wifi_ap_ssid)
      ∷ (codes "ap_pwd", cfg.wifi_ap_password)
      ∷ (codes "motion_thr", fl.to_text cfg.motion_threshold)
      ∷ (codes "jumpstart_v", show_signed cfg.jumpstart_voltage)
      ∷ (codes "cooling_t", show_signed cfg.cooling_down_temp)
      ∷ (codes "gnss_always", bool_str cfg.gnss_always_on)
      ∷ (codes "gnss_reset_t", show_signed cfg.gnss_reset_timeout)
      ∷ (codes "max_obd_err", show_signed cfg.max_obd_errors)
      ∷ (codes "srv_sync_int", show_signed cfg.server_sync_interval)
      ∷ (codes "pingback_int", show_signed cfg.ping_back_interval)
      ∷ (codes "psram", bool_str cfg.board_has_psram)
      ∷ []
