-- ===== src/Device/Settings/Printed.antt =====
-- firmware/overlay/configstore.cpp: how the configuration is printed, a field alone and all of them.
use freematics_gui.Base.{Bool, true, false, if◌then◌else◌, List, [], ◌∷◌, ◌++◌}
use freematics_gui.Text.{codes, text_eq}
use freematics_gui.Text.Utf8.{Bytes}
use freematics_gui.Text.Decimal.{show, show_signed}
use freematics_gui.Device.Strings.{Numbers}
use freematics_gui.Device.Settings.{Config}

abbrev pub bool_bytes : Bool → Bytes
bool_bytes true = codes "1"
bool_bytes false = codes "0"

module _ {F : Type 0} (num : Numbers F) where
  unfoldable pub get : Bytes → Config F → Bytes
  get key cfg =
      if text_eq key (codes "apn")
      then cfg.apn
      else if text_eq key (codes "ssid")
      then cfg.ssid
      else if text_eq key (codes "wpwd")
      then cfg.wpwd
      else if text_eq key (codes "srv_host")
      then cfg.srv_host
      else if text_eq key (codes "srv_port")
      then show cfg.srv_port
      else if text_eq key (codes "srv_proto")
      then cfg.srv_proto
      else if text_eq key (codes "srv_path")
      then cfg.srv_path
      else if text_eq key (codes "gnss")
      then cfg.gnss
      else if text_eq key (codes "storage")
      then cfg.storage
      else if text_eq key (codes "obd")
      then bool_bytes cfg.obd
      else if text_eq key (codes "mems")
      then bool_bytes cfg.mems
      else if text_eq key (codes "wifi")
      then bool_bytes cfg.wifi
      else if text_eq key (codes "ble")
      then bool_bytes cfg.ble
      else if text_eq key (codes "httpd")
      then bool_bytes cfg.httpd
      else if text_eq key (codes "sim_pin")
      then cfg.sim_pin
      else if text_eq key (codes "apn_user")
      then cfg.apn_user
      else if text_eq key (codes "apn_pass")
      then cfg.apn_pass
      else if text_eq key (codes "ap_ssid")
      then cfg.ap_ssid
      else if text_eq key (codes "ap_pwd")
      then cfg.ap_pwd
      else if text_eq key (codes "motion_thr")
      then num.fixed_4 cfg.motion_thr
      else if text_eq key (codes "jumpstart_v")
      then show_signed cfg.jumpstart_v
      else if text_eq key (codes "cooling_t")
      then show_signed cfg.cooling_t
      else if text_eq key (codes "gnss_always")
      then bool_bytes cfg.gnss_always
      else if text_eq key (codes "gnss_reset_t")
      then show_signed cfg.gnss_reset_t
      else if text_eq key (codes "max_obd_err")
      then show_signed cfg.max_obd_err
      else if text_eq key (codes "srv_sync_int")
      then show_signed cfg.srv_sync_int
      else if text_eq key (codes "pingback_int")
      then show_signed cfg.pingback_int
      else if text_eq key (codes "psram")
      then bool_bytes cfg.psram
      else []

  -- The keys and what is printed for them, in the order of the dump.
  unfoldable pub entries : Config F → List (Bytes × Bytes)
  entries cfg =
      (codes "apn", cfg.apn)
      ∷ (codes "ssid", cfg.ssid)
      ∷ (codes "wpwd", cfg.wpwd)
      ∷ (codes "srv_host", cfg.srv_host)
      ∷ (codes "srv_port", show cfg.srv_port)
      ∷ (codes "srv_proto", cfg.srv_proto)
      ∷ (codes "srv_path", cfg.srv_path)
      ∷ (codes "gnss", cfg.gnss)
      ∷ (codes "storage", cfg.storage)
      ∷ (codes "obd", bool_bytes cfg.obd)
      ∷ (codes "mems", bool_bytes cfg.mems)
      ∷ (codes "wifi", bool_bytes cfg.wifi)
      ∷ (codes "ble", bool_bytes cfg.ble)
      ∷ (codes "httpd", bool_bytes cfg.httpd)
      ∷ (codes "sim_pin", cfg.sim_pin)
      ∷ (codes "apn_user", cfg.apn_user)
      ∷ (codes "apn_pass", cfg.apn_pass)
      ∷ (codes "ap_ssid", cfg.ap_ssid)
      ∷ (codes "ap_pwd", cfg.ap_pwd)
      ∷ (codes "motion_thr", num.fixed_4 cfg.motion_thr)
      ∷ (codes "jumpstart_v", show_signed cfg.jumpstart_v)
      ∷ (codes "cooling_t", show_signed cfg.cooling_t)
      ∷ (codes "gnss_always", bool_bytes cfg.gnss_always)
      ∷ (codes "gnss_reset_t", show_signed cfg.gnss_reset_t)
      ∷ (codes "max_obd_err", show_signed cfg.max_obd_err)
      ∷ (codes "srv_sync_int", show_signed cfg.srv_sync_int)
      ∷ (codes "pingback_int", show_signed cfg.pingback_int)
      ∷ (codes "psram", bool_bytes cfg.psram)
      ∷ []

  abbrev pub joined : List (Bytes × Bytes) → Bytes
  joined [] = []
  joined ((key, val) ∷ rest) = key ++ (b'=' ∷ (val ++ (b'\n' ∷ joined rest)))

  unfoldable pub dump : Config F → Bytes
  dump cfg = joined (entries cfg)
