-- ===== src/Device/Settings/Dumped.antt =====
-- firmware/overlay/configstore.cpp: the dump of a configuration that the application wrote, beside
-- the commands of protocol/types.rs.
use freematics_gui.Base.{
  ◌≡◌, refl, ap, ◌∙◌, Bool, true, false, List, [], ◌∷◌, Option, none, some, is_empty, if◌then◌else◌,
  map,
}
use freematics_gui.Base.Result.{ok}
use freematics_gui.Text.{Text, trim, split_once}
use freematics_gui.Text.Utf8.{Bytes, as_bytes, encode_char}
use freematics_gui.Protocol.Float.{Float}
use freematics_gui.Protocol.Modes.{bool_str}
use freematics_gui.Protocol.Config.{
  DeviceConfig, Field, cell_apn, assign, assign_if, apply_pair, apply_line, apply_lines,
  from_dump_lines, to_set_commands, field_of, default, parse_f32,
}
use freematics_gui.Device.Strings.{Numbers}
use freematics_gui.Device.Settings.Printed.{bool_bytes, entries}
use freematics_gui.Device.Settings.Sent.{kept_config, as_bytes-show, as_bytes-show_signed}

-- The threshold is printed as the device prints it.
abbrev pub as_printed : {G : Type 0} → Float G → Text → Float G
as_printed fl m = record fl { to_text = λ x. m }

-- A pair of texts, the value in bytes.
abbrev pub in_bytes : Text × Text → Bytes × Bytes
in_bytes (k, v) = (k, as_bytes v)

bool_bytes-bool_str : (b : Bool) → as_bytes (bool_str b) ≡ bool_bytes b
unfolding bool_str as_bytes encode_char
bool_bytes-bool_str true = refl
bool_bytes-bool_str false = refl

module _ {F G : Type 0} (num : Numbers F) (fl : Float G) (m : Text) where
  pub entries-kept :
      (cfg : DeviceConfig G)
      → num.fixed_4 (num.to_float (as_bytes (fl.to_text cfg.motion_threshold))) ≡ as_bytes m
      → entries num (kept_config num fl cfg) ≡ map in_bytes (to_set_commands (as_printed fl m) cfg)
  unfolding entries kept_config to_set_commands
  entries-kept cfg e =
      rw
        (
          as_bytes-show cfg.server_port,
          as_bytes-show_signed cfg.jumpstart_voltage,
          as_bytes-show_signed cfg.cooling_down_temp,
          as_bytes-show_signed cfg.gnss_reset_timeout,
          as_bytes-show_signed cfg.max_obd_errors,
          as_bytes-show_signed cfg.server_sync_interval,
          as_bytes-show_signed cfg.ping_back_interval,
          bool_bytes-bool_str cfg.enable_obd,
          bool_bytes-bool_str cfg.enable_mems,
          bool_bytes-bool_str cfg.enable_wifi,
          bool_bytes-bool_str cfg.enable_ble,
          bool_bytes-bool_str cfg.enable_httpd,
          bool_bytes-bool_str cfg.gnss_always_on,
          bool_bytes-bool_str cfg.board_has_psram,
          e,
        )
        refl

module _ {G : Type 0} (fl : Float G) (m : Text) where
  assign-as_printed :
      (f : Field) (v : Text) (cfg : DeviceConfig G)
      → assign (as_printed fl m) f v cfg ≡ assign fl f v cfg
  unfolding assign parse_f32
  assign-as_printed cell_apn v cfg = refl
  assign-as_printed _ v cfg = refl

  assign_if-as_printed :
      (o : Option Field) (v : Text) (cfg : DeviceConfig G)
      → assign_if (as_printed fl m) o v cfg ≡ assign_if fl o v cfg
  assign_if-as_printed none v cfg = refl
  assign_if-as_printed (some f) v cfg = assign-as_printed f v cfg

  apply_pair-as_printed :
      (o : Option (Text × Text)) (cfg : DeviceConfig G)
      → apply_pair (as_printed fl m) o cfg ≡ apply_pair fl o cfg
  apply_pair-as_printed none cfg = refl
  apply_pair-as_printed (some (k, v)) cfg = assign_if-as_printed (field_of (trim k)) (trim v) cfg

  apply_line-as_printed :
      (l : Text) (cfg : DeviceConfig G) → apply_line (as_printed fl m) l cfg ≡ apply_line fl l cfg
  unfolding apply_line
  apply_line-as_printed l cfg =
      ap (λ c. if is_empty (trim l) then cfg else c)
        (apply_pair-as_printed (split_once b'=' (trim l)) cfg)

  apply_lines-as_printed :
      (ls : List Text) (cfg : DeviceConfig G)
      → apply_lines (as_printed fl m) ls cfg ≡ apply_lines fl ls cfg
  unfolding apply_lines
  apply_lines-as_printed [] cfg = refl
  apply_lines-as_printed (l ∷ ls) cfg =
      ap (apply_lines (as_printed fl m) ls) (apply_line-as_printed l cfg)
      ∙ apply_lines-as_printed ls (apply_line fl l cfg)

  -- How a number is printed is nothing to a dump that is read.
  pub from_dump_lines-as_printed :
      (ls : List Text) → from_dump_lines (as_printed fl m) ls ≡ from_dump_lines fl ls
  unfolding from_dump_lines default
  from_dump_lines-as_printed ls = ap ok (apply_lines-as_printed ls (default fl))
