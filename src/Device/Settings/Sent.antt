-- ===== src/Device/Settings/Sent.antt =====
-- firmware/overlay/configstore.cpp: the setters on the values that protocol/types.rs prints.
use freematics_gui.Base.{
  ℕ, suc, ◌^◌, ◌<◌, ◌≤◌, ◌≡◌, refl, Bool, true, false, List, [], ◌∷◌, Option, none, some, All,
  arith,
}
use freematics_gui.Base.Int.{ℤ, pos, negsuc, pos_part, neg_part}
use freematics_gui.Text.{Text, codes, text_eq}
use freematics_gui.Text.Utf8.{as_bytes, encode_char}
use freematics_gui.Text.Ascii.{IsAscii, as_bytes-IsAscii}
use freematics_gui.Text.Decimal.{show, show_signed, show-digits, IsDigit}
use freematics_gui.Protocol.Float.{Float}
use freematics_gui.Protocol.Modes.{
  ServerProtocol, GnssMode, StorageMode, udp, https_get, https_post, standalone, cellular, spiffs,
  sd, show_protocol, show_gnss, show_storage, bool_str,
}
use freematics_gui.Protocol.Config.{DeviceConfig, to_set_commands}
use freematics_gui.Device.Strings.{Numbers, to_lower_case}
use freematics_gui.Device.Settings.{Config, set, parse_i16, parse_u16, parse_bool, valid_enum}

-- What fits `int16_t`.
abbrev pub IsI16 : ℤ → Type 0
IsI16 a = (pos_part a < 2 ^ 15) × (neg_part a ≤ 2 ^ 15)

-- `toInt` reads the decimal numeral of a `long` as the number that it spells.
abbrev pub ReadsNumerals : {F : Type 0} → Numbers F → Type 0
ReadsNumerals num =
    (a : ℤ) → pos_part a < 2 ^ 31 → neg_part a ≤ 2 ^ 31 → num.to_int (show_signed a) ≡ a

digits-IsAscii : (s : Text) → All IsDigit s → IsAscii s
digits-IsAscii [] h = tt
digits-IsAscii (c ∷ s) (hc, hs) = (omega (arith, hc), digits-IsAscii s hs)

pub as_bytes-show : (n : ℕ) → as_bytes (show n) ≡ show n
as_bytes-show n = as_bytes-IsAscii (show n) (digits-IsAscii (show n) (show-digits n))

pub as_bytes-show_signed : (a : ℤ) → as_bytes (show_signed a) ≡ show_signed a
unfolding show_signed
as_bytes-show_signed (pos n) = as_bytes-show n
as_bytes-show_signed (negsuc n) =
    as_bytes-IsAscii (b'-' ∷ show (suc n))
      (omega arith, digits-IsAscii (show (suc n)) (show-digits (suc n)))

pub bool_sent : (b : Bool) → parse_bool (as_bytes (bool_str b)) ≡ b
unfolding parse_bool bool_str as_bytes encode_char text_eq to_lower_case
bool_sent true = refl
bool_sent false = refl

pub protocol_sent :
    (p : ServerProtocol)
    → valid_enum (as_bytes (show_protocol p)) (codes "udp") (codes "https_get") (codes "https_post")
      ≡ true
unfolding valid_enum show_protocol as_bytes encode_char text_eq
protocol_sent udp = refl
protocol_sent https_get = refl
protocol_sent https_post = refl

pub gnss_sent :
    (g : GnssMode)
    → valid_enum (as_bytes (show_gnss g)) (codes "none") (codes "standalone") (codes "cellular")
      ≡ true
unfolding valid_enum show_gnss as_bytes encode_char text_eq
gnss_sent GnssMode.none = refl
gnss_sent standalone = refl
gnss_sent cellular = refl

pub storage_sent :
    (m : StorageMode)
    → valid_enum (as_bytes (show_storage m)) (codes "none") (codes "spiffs") (codes "sd") ≡ true
unfolding valid_enum show_storage as_bytes encode_char text_eq
storage_sent StorageMode.none = refl
storage_sent spiffs = refl
storage_sent sd = refl

module _ {F : Type 0} (num : Numbers F) where
  -- The pairs are set one after the other, and none is refused.
  unfoldable pub set_each : List (Text × Text) → Config F → Option (Config F)
  set_each [] cfg = some cfg
  set_each ((key, val) ∷ rest) cfg = elim (set num key (as_bytes val) cfg) [
    | none ↦ none
    | some next ↦ set_each rest next
  ]

  module _ (reads : ReadsNumerals num) where
    pub i16_sent : (a : ℤ) → IsI16 a → parse_i16 num (as_bytes (show_signed a)) ≡ some a
    unfolding parse_i16
    i16_sent a (h, k) =
        rw (as_bytes-show_signed a, reads a (omega (arith, h)) (omega (arith, k))) (ground arith)

    pub u16_sent : (n : ℕ) → n < 2 ^ 16 → parse_u16 num (as_bytes (show n)) ≡ some n
    unfolding parse_u16 show_signed
    u16_sent n h =
        rw (as_bytes-show n, reads (pos n) (omega (arith, h)) (omega arith)) (ground arith)

  module _ {G : Type 0} (fl : Float G) where
    -- A configuration of the application as the device keeps it.
    unfoldable pub kept_config : DeviceConfig G → Config F
    kept_config cfg = record {
      apn = as_bytes cfg.cell_apn;
      ssid = as_bytes cfg.wifi_ssid;
      wpwd = as_bytes cfg.wifi_password;
      srv_host = as_bytes cfg.server_host;
      srv_port = cfg.server_port;
      srv_proto = as_bytes (show_protocol cfg.server_protocol);
      srv_path = as_bytes cfg.server_path;
      gnss = as_bytes (show_gnss cfg.gnss_mode);
      storage = as_bytes (show_storage cfg.storage);
      obd = cfg.enable_obd;
      mems = cfg.enable_mems;
      wifi = cfg.enable_wifi;
      ble = cfg.enable_ble;
      httpd = cfg.enable_httpd;
      sim_pin = as_bytes cfg.sim_pin;
      apn_user = as_bytes cfg.apn_username;
      apn_pass = as_bytes cfg.apn_password;
      ap_ssid = as_bytes cfg.wifi_ap_ssid;
      ap_pwd = as_bytes cfg.wifi_ap_password;
      motion_thr = num.to_float (as_bytes (fl.to_text cfg.motion_threshold));
      jumpstart_v = cfg.jumpstart_voltage;
      cooling_t = cfg.cooling_down_temp;
      gnss_always = cfg.gnss_always_on;
      gnss_reset_t = cfg.gnss_reset_timeout;
      max_obd_err = cfg.max_obd_errors;
      srv_sync_int = cfg.server_sync_interval;
      pingback_int = cfg.ping_back_interval;
      psram = cfg.board_has_psram;
    }

    -- What the device's own types hold.
    pub record Fits (cfg : DeviceConfig G) : Type 0 where
      pub server_port_fits : cfg.server_port < 2 ^ 16
      pub jumpstart_fits : IsI16 cfg.jumpstart_voltage
      pub cooling_fits : IsI16 cfg.cooling_down_temp
      pub gnss_reset_fits : IsI16 cfg.gnss_reset_timeout
      pub max_obd_fits : IsI16 cfg.max_obd_errors
      pub sync_fits : IsI16 cfg.server_sync_interval
      pub ping_fits : IsI16 cfg.ping_back_interval

    pub set_each-to_set_commands :
        (reads : ReadsNumerals num) (cfg : DeviceConfig G) (base : Config F)
        → Fits cfg
        → set_each (to_set_commands fl cfg) base ≡ some (kept_config cfg)
    unfolding set_each to_set_commands set text_eq kept_config
    set_each-to_set_commands reads cfg base h =
        rw
          (
            set_each,
            u16_sent reads cfg.server_port h.server_port_fits,
            set_each,
            protocol_sent cfg.server_protocol,
            set_each,
            gnss_sent cfg.gnss_mode,
            set_each,
            storage_sent cfg.storage,
            set_each,
            i16_sent reads cfg.jumpstart_voltage h.jumpstart_fits,
            set_each,
            i16_sent reads cfg.cooling_down_temp h.cooling_fits,
            set_each,
            i16_sent reads cfg.gnss_reset_timeout h.gnss_reset_fits,
            set_each,
            i16_sent reads cfg.max_obd_errors h.max_obd_fits,
            set_each,
            i16_sent reads cfg.server_sync_interval h.sync_fits,
            set_each,
            i16_sent reads cfg.ping_back_interval h.ping_fits,
            set_each,
            bool_sent cfg.enable_obd,
            bool_sent cfg.enable_mems,
            bool_sent cfg.enable_wifi,
            bool_sent cfg.enable_ble,
            bool_sent cfg.enable_httpd,
            bool_sent cfg.gnss_always_on,
            bool_sent cfg.board_has_psram,
          )
          refl
