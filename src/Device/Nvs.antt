-- ===== src/Device/Nvs.antt =====
-- firmware/overlay/configstore.cpp: how the configuration is kept in flash. The key-value store of
-- the ESP32 is a parameter.
pub mod Kept
pub mod Reload
use freematics_gui.Base.{ℕ, Bool, true, false, not, ◌==◌, Option, get_or, take}
use freematics_gui.Base.Int.{ℤ}
use freematics_gui.Text.{Text, codes}
use freematics_gui.Text.Utf8.{Bytes}
use freematics_gui.Device.Strings.{Numbers}
use freematics_gui.Device.Settings.{Config, defaults}

-- Namespace "cfg". Each operation opens the store and closes it; a put that cannot open it leaves it
-- as it is, and a get then finds nothing.
pub record Nvs (N : Type 0) : Type 0 where
  pub set_str : Text → Bytes → N → N
  pub set_u8 : Text → ℕ → N → N
  pub set_i16 : Text → ℤ → N → N
  pub set_u16 : Text → ℕ → N → N
  pub commit : N → N
  pub get_str : Text → N → Option Bytes
  pub get_u8 : Text → N → Option ℕ
  pub get_i16 : Text → N → Option ℤ
  pub get_u16 : Text → N → Option ℕ

abbrev pub bit : Bool → ℕ
bit true = 1
bit false = 0

module _ {N F : Type 0} (nvs : Nvs N) (num : Numbers F) where
  abbrev pub set_bool : Text → Bool → N → N
  set_bool key val = nvs.set_u8 key (bit val)

  abbrev pub get_bool : Text → Bool → N → Bool
  get_bool key def n = not (get_or (nvs.get_u8 key n) (bit def) == 0)

  -- Stored as a string of 15 characters at most.
  abbrev pub set_float : Text → F → N → N
  set_float key val = nvs.set_str key (take 15 (num.fixed_4 val))

  abbrev pub get_float : Text → F → N → F
  get_float key def n = num.to_float (get_or (nvs.get_str key n) (take 15 (num.fixed_4 def)))

  unfoldable pub save : Config F → N → N
  save cfg n =
      let n1 : N = nvs.set_str (codes "apn") cfg.apn n in
      let n2 : N = nvs.set_str (codes "ssid") cfg.ssid n1 in
      let n3 : N = nvs.set_str (codes "wpwd") cfg.wpwd n2 in
      let n4 : N = nvs.set_str (codes "srv_host") cfg.srv_host n3 in
      let n5 : N = nvs.set_u16 (codes "srv_port") cfg.srv_port n4 in
      let n6 : N = nvs.set_str (codes "srv_proto") cfg.srv_proto n5 in
      let n7 : N = nvs.set_str (codes "srv_path") cfg.srv_path n6 in
      let n8 : N = nvs.set_str (codes "gnss") cfg.gnss n7 in
      let n9 : N = nvs.set_str (codes "storage") cfg.storage n8 in
      let n10 : N = set_bool (codes "obd") cfg.obd n9 in
      let n11 : N = set_bool (codes "mems") cfg.mems n10 in
      let n12 : N = set_bool (codes "wifi") cfg.wifi n11 in
      let n13 : N = set_bool (codes "ble") cfg.ble n12 in
      let n14 : N = set_bool (codes "httpd") cfg.httpd n13 in
      let n15 : N = nvs.set_str (codes "sim_pin") cfg.sim_pin n14 in
      let n16 : N = nvs.set_str (codes "apn_user") cfg.apn_user n15 in
      let n17 : N = nvs.set_str (codes "apn_pass") cfg.apn_pass n16 in
      let n18 : N = nvs.set_str (codes "ap_ssid") cfg.ap_ssid n17 in
      let n19 : N = nvs.set_str (codes "ap_pwd") cfg.ap_pwd n18 in
      let n20 : N = set_float (codes "motion_thr") cfg.motion_thr n19 in
      let n21 : N = nvs.set_i16 (codes "jumpstart_v") cfg.jumpstart_v n20 in
      let n22 : N = nvs.set_i16 (codes "cooling_t") cfg.cooling_t n21 in
      let n23 : N = set_bool (codes "gnss_always") cfg.gnss_always n22 in
      let n24 : N = nvs.set_i16 (codes "gnss_reset_t") cfg.gnss_reset_t n23 in
      let n25 : N = nvs.set_i16 (codes "max_obd_err") cfg.max_obd_err n24 in
      let n26 : N = nvs.set_i16 (codes "srv_sync_int") cfg.srv_sync_int n25 in
      let n27 : N = nvs.set_i16 (codes "pingback_int") cfg.pingback_int n26 in
      let n28 : N = set_bool (codes "psram") cfg.psram n27 in nvs.commit n28

  unfoldable pub load : N → Config F
  load n =
      let d : Config F = defaults num in
      record {
        apn = get_or (nvs.get_str (codes "apn") n) d.apn;
        ssid = get_or (nvs.get_str (codes "ssid") n) d.ssid;
        wpwd = get_or (nvs.get_str (codes "wpwd") n) d.wpwd;
        srv_host = get_or (nvs.get_str (codes "srv_host") n) d.srv_host;
        srv_port = get_or (nvs.get_u16 (codes "srv_port") n) d.srv_port;
        srv_proto = get_or (nvs.get_str (codes "srv_proto") n) d.srv_proto;
        srv_path = get_or (nvs.get_str (codes "srv_path") n) d.srv_path;
        gnss = get_or (nvs.get_str (codes "gnss") n) d.gnss;
        storage = get_or (nvs.get_str (codes "storage") n) d.storage;
        obd = get_bool (codes "obd") d.obd n;
        mems = get_bool (codes "mems") d.mems n;
        wifi = get_bool (codes "wifi") d.wifi n;
        ble = get_bool (codes "ble") d.ble n;
        httpd = get_bool (codes "httpd") d.httpd n;
        sim_pin = get_or (nvs.get_str (codes "sim_pin") n) d.sim_pin;
        apn_user = get_or (nvs.get_str (codes "apn_user") n) d.apn_user;
        apn_pass = get_or (nvs.get_str (codes "apn_pass") n) d.apn_pass;
        ap_ssid = get_or (nvs.get_str (codes "ap_ssid") n) d.ap_ssid;
        ap_pwd = get_or (nvs.get_str (codes "ap_pwd") n) d.ap_pwd;
        motion_thr = get_float (codes "motion_thr") d.motion_thr n;
        jumpstart_v = get_or (nvs.get_i16 (codes "jumpstart_v") n) d.jumpstart_v;
        cooling_t = get_or (nvs.get_i16 (codes "cooling_t") n) d.cooling_t;
        gnss_always = get_bool (codes "gnss_always") d.gnss_always n;
        gnss_reset_t = get_or (nvs.get_i16 (codes "gnss_reset_t") n) d.gnss_reset_t;
        max_obd_err = get_or (nvs.get_i16 (codes "max_obd_err") n) d.max_obd_err;
        srv_sync_int = get_or (nvs.get_i16 (codes "srv_sync_int") n) d.srv_sync_int;
        pingback_int = get_or (nvs.get_i16 (codes "pingback_int") n) d.pingback_int;
        psram = get_bool (codes "psram") d.psram n;
      }
