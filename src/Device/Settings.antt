-- ===== src/Device/Settings.antt =====
-- firmware/overlay/configstore.cpp and configstore.h: the configuration in the device's memory.
pub mod Printed
pub mod Sent
pub mod Halted
pub mod Dumped
use freematics_gui.Base.{
  ℕ, ◌||◌, Bool, true, false, if◌then◌else◌, List, [], ◌∷◌, ◌++◌, Option, none, some,
}
use freematics_gui.Base.Int.{ℤ, pos, negsuc, ltb_ℤ}
use freematics_gui.Text.{codes, text_eq}
use freematics_gui.Text.Utf8.{Bytes}
use freematics_gui.Text.Decimal.{show, show_signed}
use freematics_gui.Device.Strings.{Numbers, to_lower_case}

pub record Config (F : Type 0) : Type 0 where
  pub apn : Bytes
  pub ssid : Bytes
  pub wpwd : Bytes
  pub srv_host : Bytes
  pub srv_port : ℕ
  pub srv_proto : Bytes
  pub srv_path : Bytes
  pub gnss : Bytes
  pub storage : Bytes
  pub obd : Bool
  pub mems : Bool
  pub wifi : Bool
  pub ble : Bool
  pub httpd : Bool
  pub sim_pin : Bytes
  pub apn_user : Bytes
  pub apn_pass : Bytes
  pub ap_ssid : Bytes
  pub ap_pwd : Bytes
  pub motion_thr : F
  pub jumpstart_v : ℤ
  pub cooling_t : ℤ
  pub gnss_always : Bool
  pub gnss_reset_t : ℤ
  pub max_obd_err : ℤ
  pub srv_sync_int : ℤ
  pub pingback_int : ℤ
  pub psram : Bool

unfoldable pub parse_bool : Bytes → Bool
parse_bool v =
    let t : Bytes = to_lower_case v in
    text_eq t (codes "1")
    || text_eq t (codes "true")
    || text_eq t (codes "yes")
    || text_eq t (codes "on")

unfoldable pub valid_enum : Bytes → Bytes → Bytes → Bytes → Bool
valid_enum v a b c = text_eq v a || text_eq v b || text_eq v c

-- The number of a `u16` that is not negative.
abbrev unsigned : ℤ → Option ℕ
unsigned (pos n) = some n
unsigned (negsuc n) = none

module _ {F : Type 0} (num : Numbers F) where
  unfoldable pub parse_i16 : Bytes → Option ℤ
  parse_i16 v =
      let n : ℤ = num.to_int v in
      if ltb_ℤ n (negsuc 32767) || ltb_ℤ (pos 32767) n then none else some n

  unfoldable pub parse_u16 : Bytes → Option ℕ
  parse_u16 v =
      let n : ℤ = num.to_int v in
      if ltb_ℤ n (pos 0) || ltb_ℤ (pos 65535) n then none else unsigned n

  unfoldable pub defaults : Config F
  defaults = record {
    apn = [];
    ssid = [];
    wpwd = [];
    srv_host = codes "hub.freematics.com";
    srv_port = 0;
    srv_proto = codes "udp";
    srv_path = [];
    gnss = codes "standalone";
    storage = codes "none";
    obd = true;
    mems = true;
    wifi = false;
    ble = false;
    httpd = false;
    sim_pin = [];
    apn_user = [];
    apn_pass = [];
    ap_ssid = codes "Freematics";
    ap_pwd = [];
    motion_thr = num.two_fifths;
    jumpstart_v = pos 14500;
    cooling_t = pos 80;
    gnss_always = false;
    gnss_reset_t = pos 0;
    max_obd_err = pos 5;
    srv_sync_int = pos 30;
    pingback_int = pos 0;
    psram = false;
  }

  -- A number that was parsed is stored; otherwise the setter is refused.
  abbrev pub with_i16 : Option ℤ → (ℤ → Config F) → Option (Config F)
  with_i16 none store = none
  with_i16 (some n) store = some (store n)

  abbrev pub with_u16 : Option ℕ → (ℕ → Config F) → Option (Config F)
  with_u16 none store = none
  with_u16 (some n) store = some (store n)

  -- `none` where the source returns false; the configuration is then as it was.
  unfoldable pub set : Bytes → Bytes → Config F → Option (Config F)
  set key val cfg =
      if text_eq key (codes "apn")
      then some (record cfg { apn = val })
      else if text_eq key (codes "ssid")
      then some (record cfg { ssid = val })
      else if text_eq key (codes "wpwd")
      then some (record cfg { wpwd = val })
      else if text_eq key (codes "srv_host")
      then some (record cfg { srv_host = val })
      else if text_eq key (codes "srv_port")
      then with_u16 (parse_u16 val) (λ n. record cfg { srv_port = n })
      else if text_eq key (codes "srv_proto")
      then (if valid_enum val (codes "udp") (codes "https_get") (codes "https_post")
          then some (record cfg { srv_proto = val })
          else none)
      else if text_eq key (codes "srv_path")
      then some (record cfg { srv_path = val })
      else if text_eq key (codes "gnss")
      then (if valid_enum val (codes "none") (codes "standalone") (codes "cellular")
          then some (record cfg { gnss = val })
          else none)
      else if text_eq key (codes "storage")
      then (if valid_enum val (codes "none") (codes "spiffs") (codes "sd")
          then some (record cfg { storage = val })
          else none)
      else if text_eq key (codes "obd")
      then some (record cfg { obd = parse_bool val })
      else if text_eq key (codes "mems")
      then some (record cfg { mems = parse_bool val })
      else if text_eq key (codes "wifi")
      then some (record cfg { wifi = parse_bool val })
      else if text_eq key (codes "ble")
      then some (record cfg { ble = parse_bool val })
      else if text_eq key (codes "httpd")
      then some (record cfg { httpd = parse_bool val })
      else if text_eq key (codes "sim_pin")
      then some (record cfg { sim_pin = val })
      else if text_eq key (codes "apn_user")
      then some (record cfg { apn_user = val })
      else if text_eq key (codes "apn_pass")
      then some (record cfg { apn_pass = val })
      else if text_eq key (codes "ap_ssid")
      then some (record cfg { ap_ssid = val })
      else if text_eq key (codes "ap_pwd")
      then some (record cfg { ap_pwd = val })
      else if text_eq key (codes "motion_thr")
      then some (record cfg { motion_thr = num.to_float val })
      else if text_eq key (codes "jumpstart_v")
      then with_i16 (parse_i16 val) (λ n. record cfg { jumpstart_v = n })
      else if text_eq key (codes "cooling_t")
      then with_i16 (parse_i16 val) (λ n. record cfg { cooling_t = n })
      else if text_eq key (codes "gnss_always")
      then some (record cfg { gnss_always = parse_bool val })
      else if text_eq key (codes "gnss_reset_t")
      then with_i16 (parse_i16 val) (λ n. record cfg { gnss_reset_t = n })
      else if text_eq key (codes "max_obd_err")
      then with_i16 (parse_i16 val) (λ n. record cfg { max_obd_err = n })
      else if text_eq key (codes "srv_sync_int")
      then with_i16 (parse_i16 val) (λ n. record cfg { srv_sync_int = n })
      else if text_eq key (codes "pingback_int")
      then with_i16 (parse_i16 val) (λ n. record cfg { pingback_int = n })
      else if text_eq key (codes "psram")
      then some (record cfg { psram = parse_bool val })
      else none
