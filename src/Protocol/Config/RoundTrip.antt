-- ===== src/Protocol/Config/RoundTrip.antt =====
-- protocol/types.rs: `from_dump_lines` after `to_set_commands`.
use freematics_gui.Base.{ℕ, ◌^◌, ◌-◌, ◌<◌, ◌≡◌, refl, ap, ◌∙◌, List, [], ◌∷◌, map, some, arith}
use freematics_gui.Base.Int.{ℤ, IsI32}
use freematics_gui.Base.Result.{ok}
use freematics_gui.Text.{Text, trim}
use freematics_gui.Text.Decimal.{show, show_signed, parse_unsigned-show, parse_signed-show_signed}
use freematics_gui.Text.Clean.{trim-show, trim-show_signed}
use freematics_gui.Protocol.Float.{Float}
use freematics_gui.Protocol.Modes.{
  show_protocol, show_gnss, show_storage, bool_str, protocol_from_str-show_protocol,
  gnss_from_str-show_gnss, storage_from_str-show_storage, parse_bool-bool_str, trim-show_protocol,
  trim-show_gnss, trim-show_storage, trim-bool_str,
}
use freematics_gui.Protocol.Config.{
  DeviceConfig, Field, all_fields, default, assign, apply_line, apply_lines, from_dump_lines,
  to_set_commands, parse_u16, parse_i32, parse_f32, cell_apn, wifi_ssid, wifi_password, server_host,
  server_port, server_protocol, server_path, gnss_mode, storage, enable_obd, enable_mems,
  enable_wifi, enable_ble, enable_httpd, sim_pin, apn_username, apn_password, wifi_ap_ssid,
  wifi_ap_password, motion_threshold, jumpstart_voltage, cooling_down_temp, gnss_always_on,
  gnss_reset_timeout, max_obd_errors, server_sync_interval, ping_back_interval, board_has_psram,
}
use freematics_gui.Protocol.Config.Lines.{
  line_of, apply_line-line_of, first_key, first_key-IsKey, field_of-first_key,
}

-- What a configuration must be to survive the trip: its texts have no white space at their ends,
-- its numbers fit their types, and its threshold is printed so that it is read back.
pub record IsSendable {F : Type 0} (fl : Float F) (cfg : DeviceConfig F) : Type 0 where
  pub cell_apn_trimmed : trim cfg.cell_apn ≡ cfg.cell_apn
  pub wifi_ssid_trimmed : trim cfg.wifi_ssid ≡ cfg.wifi_ssid
  pub wifi_password_trimmed : trim cfg.wifi_password ≡ cfg.wifi_password
  pub server_host_trimmed : trim cfg.server_host ≡ cfg.server_host
  pub server_port_fits : cfg.server_port < 2 ^ 16
  pub server_path_trimmed : trim cfg.server_path ≡ cfg.server_path
  pub sim_pin_trimmed : trim cfg.sim_pin ≡ cfg.sim_pin
  pub apn_username_trimmed : trim cfg.apn_username ≡ cfg.apn_username
  pub apn_password_trimmed : trim cfg.apn_password ≡ cfg.apn_password
  pub wifi_ap_ssid_trimmed : trim cfg.wifi_ap_ssid ≡ cfg.wifi_ap_ssid
  pub wifi_ap_password_trimmed : trim cfg.wifi_ap_password ≡ cfg.wifi_ap_password
  pub motion_threshold_solid :
      trim (fl.to_text cfg.motion_threshold) ≡ fl.to_text cfg.motion_threshold
  pub motion_threshold_read :
      fl.from_text (fl.to_text cfg.motion_threshold) ≡ some cfg.motion_threshold
  pub jumpstart_voltage_fits : IsI32 cfg.jumpstart_voltage
  pub cooling_down_temp_fits : IsI32 cfg.cooling_down_temp
  pub gnss_reset_timeout_fits : IsI32 cfg.gnss_reset_timeout
  pub max_obd_errors_fits : IsI32 cfg.max_obd_errors
  pub server_sync_interval_fits : IsI32 cfg.server_sync_interval
  pub ping_back_interval_fits : IsI32 cfg.ping_back_interval

parse_u16-show : (n : ℕ) → n < 2 ^ 16 → parse_u16 (show n) ≡ n
unfolding parse_u16
parse_u16-show n h = rw (trim-show n, parse_unsigned-show (2 ^ 16 - 1) n (omega arith)) refl

parse_i32-show_signed : (a : ℤ) → IsI32 a → parse_i32 (show_signed a) ≡ a
unfolding parse_i32
parse_i32-show_signed a h = rw (trim-show_signed a, parse_signed-show_signed a h) refl

module _ {F : Type 0} (fl : Float F) where
  parse_f32-to_text :
      (x : F)
      → trim (fl.to_text x) ≡ fl.to_text x
      → fl.from_text (fl.to_text x) ≡ some x
      → parse_f32 fl (fl.to_text x) ≡ x
  unfolding parse_f32
  parse_f32-to_text x h e = rw (h, e) refl

  -- The value of a field as `to_set_commands` prints it.
  render : Field → DeviceConfig F → Text
  render cell_apn cfg = cfg.cell_apn
  render wifi_ssid cfg = cfg.wifi_ssid
  render wifi_password cfg = cfg.wifi_password
  render server_host cfg = cfg.server_host
  render server_port cfg = show cfg.server_port
  render server_protocol cfg = show_protocol cfg.server_protocol
  render server_path cfg = cfg.server_path
  render gnss_mode cfg = show_gnss cfg.gnss_mode
  render storage cfg = show_storage cfg.storage
  render enable_obd cfg = bool_str cfg.enable_obd
  render enable_mems cfg = bool_str cfg.enable_mems
  render enable_wifi cfg = bool_str cfg.enable_wifi
  render enable_ble cfg = bool_str cfg.enable_ble
  render enable_httpd cfg = bool_str cfg.enable_httpd
  render sim_pin cfg = cfg.sim_pin
  render apn_username cfg = cfg.apn_username
  render apn_password cfg = cfg.apn_password
  render wifi_ap_ssid cfg = cfg.wifi_ap_ssid
  render wifi_ap_password cfg = cfg.wifi_ap_password
  render motion_threshold cfg = fl.to_text cfg.motion_threshold
  render jumpstart_voltage cfg = show_signed cfg.jumpstart_voltage
  render cooling_down_temp cfg = show_signed cfg.cooling_down_temp
  render gnss_always_on cfg = bool_str cfg.gnss_always_on
  render gnss_reset_timeout cfg = show_signed cfg.gnss_reset_timeout
  render max_obd_errors cfg = show_signed cfg.max_obd_errors
  render server_sync_interval cfg = show_signed cfg.server_sync_interval
  render ping_back_interval cfg = show_signed cfg.ping_back_interval
  render board_has_psram cfg = bool_str cfg.board_has_psram

  -- `base` with one field of `cfg`.
  copy : Field → DeviceConfig F → DeviceConfig F → DeviceConfig F
  copy cell_apn cfg base = record base { cell_apn = cfg.cell_apn }
  copy wifi_ssid cfg base = record base { wifi_ssid = cfg.wifi_ssid }
  copy wifi_password cfg base = record base { wifi_password = cfg.wifi_password }
  copy server_host cfg base = record base { server_host = cfg.server_host }
  copy server_port cfg base = record base { server_port = cfg.server_port }
  copy server_protocol cfg base = record base { server_protocol = cfg.server_protocol }
  copy server_path cfg base = record base { server_path = cfg.server_path }
  copy gnss_mode cfg base = record base { gnss_mode = cfg.gnss_mode }
  copy storage cfg base = record base { storage = cfg.storage }
  copy enable_obd cfg base = record base { enable_obd = cfg.enable_obd }
  copy enable_mems cfg base = record base { enable_mems = cfg.enable_mems }
  copy enable_wifi cfg base = record base { enable_wifi = cfg.enable_wifi }
  copy enable_ble cfg base = record base { enable_ble = cfg.enable_ble }
  copy enable_httpd cfg base = record base { enable_httpd = cfg.enable_httpd }
  copy sim_pin cfg base = record base { sim_pin = cfg.sim_pin }
  copy apn_username cfg base = record base { apn_username = cfg.apn_username }
  copy apn_password cfg base = record base { apn_password = cfg.apn_password }
  copy wifi_ap_ssid cfg base = record base { wifi_ap_ssid = cfg.wifi_ap_ssid }
  copy wifi_ap_password cfg base = record base { wifi_ap_password = cfg.wifi_ap_password }
  copy motion_threshold cfg base = record base { motion_threshold = cfg.motion_threshold }
  copy jumpstart_voltage cfg base = record base { jumpstart_voltage = cfg.jumpstart_voltage }
  copy cooling_down_temp cfg base = record base { cooling_down_temp = cfg.cooling_down_temp }
  copy gnss_always_on cfg base = record base { gnss_always_on = cfg.gnss_always_on }
  copy gnss_reset_timeout cfg base = record base { gnss_reset_timeout = cfg.gnss_reset_timeout }
  copy max_obd_errors cfg base = record base { max_obd_errors = cfg.max_obd_errors }
  copy server_sync_interval cfg base = record base {
    server_sync_interval = cfg.server_sync_interval;
  }
  copy ping_back_interval cfg base = record base { ping_back_interval = cfg.ping_back_interval }
  copy board_has_psram cfg base = record base { board_has_psram = cfg.board_has_psram }

  assign-render :
      (f : Field) (cfg base : DeviceConfig F)
      → IsSendable fl cfg
      → assign fl f (render f cfg) base ≡ copy f cfg base
  unfolding assign render copy
  assign-render cell_apn cfg base h = refl
  assign-render wifi_ssid cfg base h = refl
  assign-render wifi_password cfg base h = refl
  assign-render server_host cfg base h = refl
  assign-render server_port cfg base h = rw (parse_u16-show cfg.server_port h.server_port_fits) refl
  assign-render server_protocol cfg base h =
      rw (protocol_from_str-show_protocol cfg.server_protocol) refl
  assign-render server_path cfg base h = refl
  assign-render gnss_mode cfg base h = rw (gnss_from_str-show_gnss cfg.gnss_mode) refl
  assign-render storage cfg base h = rw (storage_from_str-show_storage cfg.storage) refl
  assign-render enable_obd cfg base h = rw (parse_bool-bool_str cfg.enable_obd) refl
  assign-render enable_mems cfg base h = rw (parse_bool-bool_str cfg.enable_mems) refl
  assign-render enable_wifi cfg base h = rw (parse_bool-bool_str cfg.enable_wifi) refl
  assign-render enable_ble cfg base h = rw (parse_bool-bool_str cfg.enable_ble) refl
  assign-render enable_httpd cfg base h = rw (parse_bool-bool_str cfg.enable_httpd) refl
  assign-render sim_pin cfg base h = refl
  assign-render apn_username cfg base h = refl
  assign-render apn_password cfg base h = refl
  assign-render wifi_ap_ssid cfg base h = refl
  assign-render wifi_ap_password cfg base h = refl
  assign-render motion_threshold cfg base h =
      rw (parse_f32-to_text cfg.motion_threshold h.motion_threshold_solid h.motion_threshold_read)
        refl
  assign-render jumpstart_voltage cfg base h =
      rw (parse_i32-show_signed cfg.jumpstart_voltage h.jumpstart_voltage_fits) refl
  assign-render cooling_down_temp cfg base h =
      rw (parse_i32-show_signed cfg.cooling_down_temp h.cooling_down_temp_fits) refl
  assign-render gnss_always_on cfg base h = rw (parse_bool-bool_str cfg.gnss_always_on) refl
  assign-render gnss_reset_timeout cfg base h =
      rw (parse_i32-show_signed cfg.gnss_reset_timeout h.gnss_reset_timeout_fits) refl
  assign-render max_obd_errors cfg base h =
      rw (parse_i32-show_signed cfg.max_obd_errors h.max_obd_errors_fits) refl
  assign-render server_sync_interval cfg base h =
      rw (parse_i32-show_signed cfg.server_sync_interval h.server_sync_interval_fits) refl
  assign-render ping_back_interval cfg base h =
      rw (parse_i32-show_signed cfg.ping_back_interval h.ping_back_interval_fits) refl
  assign-render board_has_psram cfg base h = rw (parse_bool-bool_str cfg.board_has_psram) refl

  trim-render :
      (f : Field) (cfg : DeviceConfig F) → IsSendable fl cfg → trim (render f cfg) ≡ render f cfg
  unfolding render
  trim-render cell_apn cfg h = h.cell_apn_trimmed
  trim-render wifi_ssid cfg h = h.wifi_ssid_trimmed
  trim-render wifi_password cfg h = h.wifi_password_trimmed
  trim-render server_host cfg h = h.server_host_trimmed
  trim-render server_port cfg h = trim-show cfg.server_port
  trim-render server_protocol cfg h = trim-show_protocol cfg.server_protocol
  trim-render server_path cfg h = h.server_path_trimmed
  trim-render gnss_mode cfg h = trim-show_gnss cfg.gnss_mode
  trim-render storage cfg h = trim-show_storage cfg.storage
  trim-render enable_obd cfg h = trim-bool_str cfg.enable_obd
  trim-render enable_mems cfg h = trim-bool_str cfg.enable_mems
  trim-render enable_wifi cfg h = trim-bool_str cfg.enable_wifi
  trim-render enable_ble cfg h = trim-bool_str cfg.enable_ble
  trim-render enable_httpd cfg h = trim-bool_str cfg.enable_httpd
  trim-render sim_pin cfg h = h.sim_pin_trimmed
  trim-render apn_username cfg h = h.apn_username_trimmed
  trim-render apn_password cfg h = h.apn_password_trimmed
  trim-render wifi_ap_ssid cfg h = h.wifi_ap_ssid_trimmed
  trim-render wifi_ap_password cfg h = h.wifi_ap_password_trimmed
  trim-render motion_threshold cfg h = h.motion_threshold_solid
  trim-render jumpstart_voltage cfg h = trim-show_signed cfg.jumpstart_voltage
  trim-render cooling_down_temp cfg h = trim-show_signed cfg.cooling_down_temp
  trim-render gnss_always_on cfg h = trim-bool_str cfg.gnss_always_on
  trim-render gnss_reset_timeout cfg h = trim-show_signed cfg.gnss_reset_timeout
  trim-render max_obd_errors cfg h = trim-show_signed cfg.max_obd_errors
  trim-render server_sync_interval cfg h = trim-show_signed cfg.server_sync_interval
  trim-render ping_back_interval cfg h = trim-show_signed cfg.ping_back_interval
  trim-render board_has_psram cfg h = trim-bool_str cfg.board_has_psram

  abbrev command_of : DeviceConfig F → Field → Text × Text
  command_of cfg f = (first_key f, render f cfg)

  line-copy :
      (f : Field) (cfg base : DeviceConfig F)
      → IsSendable fl cfg
      → apply_line fl (line_of (command_of cfg f)) base ≡ copy f cfg base
  line-copy f cfg base h =
      apply_line-line_of fl (first_key f) (render f cfg) base (first_key-IsKey f)
        (trim-render f cfg h)
      ∙ rw (field_of-first_key f) (assign-render f cfg base h)

  copies : List Field → DeviceConfig F → DeviceConfig F → DeviceConfig F
  copies [] cfg base = base
  copies (f ∷ fs) cfg base = copies fs cfg (copy f cfg base)

  apply_lines-commands :
      (fs : List Field) (cfg base : DeviceConfig F)
      → IsSendable fl cfg
      → apply_lines fl (map line_of (map (command_of cfg) fs)) base ≡ copies fs cfg base
  unfolding apply_lines copies
  apply_lines-commands [] cfg base h = refl
  apply_lines-commands (f ∷ fs) cfg base h =
      ap (apply_lines fl (map line_of (map (command_of cfg) fs))) (line-copy f cfg base h)
      ∙ apply_lines-commands fs cfg (copy f cfg base) h

  to_set_commands-map :
      (cfg : DeviceConfig F) → to_set_commands fl cfg ≡ map (command_of cfg) all_fields
  unfolding to_set_commands render
  to_set_commands-map cfg = refl

  copies-all : (cfg base : DeviceConfig F) → copies all_fields cfg base ≡ cfg
  unfolding copies copy
  copies-all cfg base = refl

  -- Printing a configuration as `key=value` lines and reading them as a dump gives the
  -- configuration back, if its texts are trimmed, its numbers in range and its threshold readable.
  pub from_dump_lines-to_set_commands :
      (cfg : DeviceConfig F)
      → IsSendable fl cfg
      → from_dump_lines fl (map line_of (to_set_commands fl cfg)) ≡ ok cfg
  unfolding from_dump_lines
  from_dump_lines-to_set_commands cfg h =
      rw to_set_commands-map
        (ap ok (apply_lines-commands all_fields cfg (default fl) h ∙ copies-all cfg (default fl)))
