-- ===== src/Device/Settings/Halted.antt =====
-- firmware/overlay/configstore.cpp: a sequence of setters that one of them refuses.
use freematics_gui.Base.{
  ◌^◌, ◌<◌, ◌≤◌, ◌≡◌, ◌⊎◌, inl, inr, refl, Bool, true, false, List, [], ◌∷◌, none, some, Bool-cases,
  arith, ltb,
}
use freematics_gui.Base.Int.{ℤ, pos, negsuc, pos_part, ◌≤ℤ◌}
use freematics_gui.Text.{Text, codes, text_eq}
use freematics_gui.Text.Utf8.{as_bytes}
use freematics_gui.Text.Decimal.{show_signed}
use freematics_gui.Protocol.Float.{Float}
use freematics_gui.Protocol.Modes.{bool_str}
use freematics_gui.Protocol.Config.{DeviceConfig, to_set_commands}
use freematics_gui.Device.Strings.{Numbers}
use freematics_gui.Device.Settings.{Config, set, parse_i16, parse_bool}
use freematics_gui.Device.Settings.Sent.{
  IsI16, ReadsNumerals, kept_config, as_bytes-show_signed, i16_sent, u16_sent, protocol_sent,
  gnss_sent, storage_sent,
}

-- An interval as `validate_config` lets it through: an `i32` that is not negative.
abbrev pub IsInterval : ℤ → Type 0
IsInterval a = (pos 0 ≤ℤ a) × (pos_part a < 2 ^ 31)

-- An interval that does not fit `int16_t`.
abbrev pub IsWide : ℤ → Type 0
IsWide a = 2 ^ 15 ≤ pos_part a

module _ {F : Type 0} (num : Numbers F) where
  -- The pairs are set one after the other up to one that is refused. Whether none was, and the
  -- configuration that is then there.
  unfoldable pub set_until : List (Text × Text) → Config F → Bool × Config F
  set_until [] cfg = (true, cfg)
  set_until ((key, val) ∷ rest) cfg = elim (set num key (as_bytes val) cfg) [
    | none ↦ (false, cfg)
    | some next ↦ set_until rest next
  ]

  module _ (reads : ReadsNumerals num) where
    i16_refused :
        (a : ℤ) → IsInterval a → IsWide a → parse_i16 num (as_bytes (show_signed a)) ≡ none
    unfolding parse_i16
    i16_refused a (h, k) w =
        rw (as_bytes-show_signed a, reads a k (omega (arith, h))) (ground (arith, h, w))

    fits_or_refused :
        (a : ℤ)
        → IsInterval a
        → (IsI16 a × (parse_i16 num (as_bytes (show_signed a)) ≡ some a))
          ⊎ (parse_i16 num (as_bytes (show_signed a)) ≡ none)
    fits_or_refused (negsuc n) (h, k) = absurd (omega (arith, h))
    fits_or_refused (pos n) (h, k) = elim (Bool-cases (ltb n (2 ^ 15))) [
      | inl e ↦
          let fits : IsI16 (pos n) = (ground (arith, e), omega arith) in
          inl (fits, i16_sent num reads (pos n) fits)
      | inr e ↦ inr (i16_refused (pos n) (h, k) (ground (arith, e)))
    ]

  module _ {G : Type 0} (fl : Float G) where
    -- What a device holds whose setters were called with the fields in front of the intervals.
    abbrev up_to_intervals : DeviceConfig G → Config F → Config F
    up_to_intervals cfg base = record (kept_config num fl cfg) {
      obd = parse_bool (as_bytes (bool_str cfg.enable_obd));
      mems = parse_bool (as_bytes (bool_str cfg.enable_mems));
      wifi = parse_bool (as_bytes (bool_str cfg.enable_wifi));
      ble = parse_bool (as_bytes (bool_str cfg.enable_ble));
      httpd = parse_bool (as_bytes (bool_str cfg.enable_httpd));
      gnss_always = parse_bool (as_bytes (bool_str cfg.gnss_always_on));
      gnss_reset_t = base.gnss_reset_t;
      max_obd_err = base.max_obd_err;
      srv_sync_int = base.srv_sync_int;
      pingback_int = base.pingback_int;
      psram = base.psram;
    }

    abbrev intervals : DeviceConfig G → List (Text × Text)
    intervals cfg =
        (codes "gnss_reset_t", show_signed cfg.gnss_reset_timeout)
        ∷ (codes "max_obd_err", show_signed cfg.max_obd_errors)
        ∷ (codes "srv_sync_int", show_signed cfg.server_sync_interval)
        ∷ (codes "pingback_int", show_signed cfg.ping_back_interval)
        ∷ (codes "psram", bool_str cfg.board_has_psram)
        ∷ []

    -- The fields that are not intervals fit, and one of the intervals does not.
    pub record IsTooWide (cfg : DeviceConfig G) : Type 0 where
      pub server_port_fits : cfg.server_port < 2 ^ 16
      pub jumpstart_fits : IsI16 cfg.jumpstart_voltage
      pub cooling_fits : IsI16 cfg.cooling_down_temp
      pub gnss_reset_interval : IsInterval cfg.gnss_reset_timeout
      pub max_obd_interval : IsInterval cfg.max_obd_errors
      pub sync_interval : IsInterval cfg.server_sync_interval
      pub ping_interval : IsInterval cfg.ping_back_interval
      pub wide :
          IsWide cfg.gnss_reset_timeout
          ⊎ (IsWide cfg.max_obd_errors
              ⊎ (IsWide cfg.server_sync_interval ⊎ IsWide cfg.ping_back_interval))

    module _ (reads : ReadsNumerals num) (cfg : DeviceConfig G) (base : Config F)
        (h : IsTooWide cfg) where
      set_until-intervals :
          set_until (to_set_commands fl cfg) base
          ≡ set_until (intervals cfg) (up_to_intervals cfg base)
      unfolding set_until to_set_commands set text_eq kept_config
      set_until-intervals =
          rw
            (
              set_until,
              u16_sent num reads cfg.server_port h.server_port_fits,
              set_until,
              protocol_sent cfg.server_protocol,
              set_until,
              gnss_sent cfg.gnss_mode,
              set_until,
              storage_sent cfg.storage,
              set_until,
              i16_sent num reads cfg.jumpstart_voltage h.jumpstart_fits,
              set_until,
              i16_sent num reads cfg.cooling_down_temp h.cooling_fits,
            )
            refl

      -- Halted with the fields in front as they were sent.
      abbrev IsHalted : Bool × Config F → Type 0
      IsHalted r = (r.0 ≡ false) × (r.1.apn ≡ as_bytes cfg.cell_apn)

      intervals-IsHalted : IsHalted (set_until (intervals cfg) (up_to_intervals cfg base))
      unfolding set_until set text_eq kept_config
      intervals-IsHalted =
          elim (fits_or_refused reads cfg.gnss_reset_timeout h.gnss_reset_interval) [
            | inr a ↦ rw (set_until, a) (refl, refl)
            | inl (fa, a) ↦ elim (fits_or_refused reads cfg.max_obd_errors h.max_obd_interval) [
              | inr b ↦ rw (set_until, a, set_until, b) (refl, refl)
              | inl (fb, b) ↦
                  elim (fits_or_refused reads cfg.server_sync_interval h.sync_interval) [
                    | inr c ↦ rw (set_until, a, set_until, b, set_until, c) (refl, refl)
                    | inl (fc, c) ↦
                        elim (fits_or_refused reads cfg.ping_back_interval h.ping_interval) [
                          | inr d ↦
                              rw (set_until, a, set_until, b, set_until, c, set_until, d)
                                (refl, refl)
                          | inl (fd, d) ↦ absurd (none_wide fa fb fc fd h.wide)
                        ]
                  ]
            ]
          ]
        where
          none_wide :
              IsI16 cfg.gnss_reset_timeout
              → IsI16 cfg.max_obd_errors
              → IsI16 cfg.server_sync_interval
              → IsI16 cfg.ping_back_interval
              → (IsWide cfg.gnss_reset_timeout
                  ⊎ (IsWide cfg.max_obd_errors
                      ⊎ (IsWide cfg.server_sync_interval ⊎ IsWide cfg.ping_back_interval)))
              → ⊥
          none_wide fa fb fc fd (inl w) = omega (arith, fa)
          none_wide fa fb fc fd (inr (inl w)) = omega (arith, fb)
          none_wide fa fb fc fd (inr (inr (inl w))) = omega (arith, fc)
          none_wide fa fb fc fd (inr (inr (inr w))) = omega (arith, fd)

      pub to_set_commands-IsHalted : IsHalted (set_until (to_set_commands fl cfg) base)
      to_set_commands-IsHalted = rw set_until-intervals intervals-IsHalted
