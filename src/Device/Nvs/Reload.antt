-- ===== src/Device/Nvs/Reload.antt =====
-- firmware/overlay/configstore.cpp: `load` after `save`.
use freematics_gui.Base.{
  ℕ, ◌≡◌, refl, ap, ◌∙◌, Bool, true, false, not, ◌==◌, List, [], ◌∷◌, some, All, take,
}
use freematics_gui.Base.Int.{ℤ}
use freematics_gui.Text.{Text, codes, text_eq}
use freematics_gui.Text.Utf8.{Bytes}
use freematics_gui.Device.Strings.{Numbers}
use freematics_gui.Device.Settings.{Config}
use freematics_gui.Device.Nvs.{Nvs, save, load, bit, get_float}
use freematics_gui.Device.Nvs.Kept.{
  Item, str, u8, i16, u16, Accepted, as_str, as_u8, as_i16, as_u16, Stores, put_all, last_put,
  at-put_all,
}

bit_back : (b : Bool) → not (bit b == 0) ≡ b
bit_back true = refl
bit_back false = refl

module _ {F : Type 0} (num : Numbers F) where
  -- The entries that `save` writes, in its order.
  abbrev pub items : Config F → List (Text × Item)
  items cfg =
      (codes "apn", str cfg.apn)
      ∷ (codes "ssid", str cfg.ssid)
      ∷ (codes "wpwd", str cfg.wpwd)
      ∷ (codes "srv_host", str cfg.srv_host)
      ∷ (codes "srv_port", u16 cfg.srv_port)
      ∷ (codes "srv_proto", str cfg.srv_proto)
      ∷ (codes "srv_path", str cfg.srv_path)
      ∷ (codes "gnss", str cfg.gnss)
      ∷ (codes "storage", str cfg.storage)
      ∷ (codes "obd", u8 (bit cfg.obd))
      ∷ (codes "mems", u8 (bit cfg.mems))
      ∷ (codes "wifi", u8 (bit cfg.wifi))
      ∷ (codes "ble", u8 (bit cfg.ble))
      ∷ (codes "httpd", u8 (bit cfg.httpd))
      ∷ (codes "sim_pin", str cfg.sim_pin)
      ∷ (codes "apn_user", str cfg.apn_user)
      ∷ (codes "apn_pass", str cfg.apn_pass)
      ∷ (codes "ap_ssid", str cfg.ap_ssid)
      ∷ (codes "ap_pwd", str cfg.ap_pwd)
      ∷ (codes "motion_thr", str (take 15 (num.fixed_4 cfg.motion_thr)))
      ∷ (codes "jumpstart_v", i16 cfg.jumpstart_v)
      ∷ (codes "cooling_t", i16 cfg.cooling_t)
      ∷ (codes "gnss_always", u8 (bit cfg.gnss_always))
      ∷ (codes "gnss_reset_t", i16 cfg.gnss_reset_t)
      ∷ (codes "max_obd_err", i16 cfg.max_obd_err)
      ∷ (codes "srv_sync_int", i16 cfg.srv_sync_int)
      ∷ (codes "pingback_int", i16 cfg.pingback_int)
      ∷ (codes "psram", u8 (bit cfg.psram))
      ∷ []

  -- Every entry is one that the store takes, and the threshold is read back as it was printed.
  pub record IsSavable (cfg : Config F) : Type 0 where
    pub accepted : All (λ (p : Text × Item). Accepted p.1) (items cfg)
    pub threshold_read : num.to_float (take 15 (num.fixed_4 cfg.motion_thr)) ≡ cfg.motion_thr

  module _ {N : Type 0} (nvs : Nvs N) (stores : Stores nvs) (cfg : Config F) (h : IsSavable cfg)
      (n : N) where
    at-save :
        (j : Text)
        → stores.at j (save nvs num cfg n) ≡ last_put nvs stores j (items cfg) (stores.at j n)
    unfolding save put_all
    at-save j = stores.at-commit j _ ∙ at-put_all nvs stores j (items cfg) n h.accepted

    found_str :
        (j : Text) (v : Bytes)
        → last_put nvs stores j (items cfg) (stores.at j n) ≡ some (str v)
        → nvs.get_str j (save nvs num cfg n) ≡ some v
    found_str j v e = stores.get_str_lem j _ ∙ ap as_str (at-save j ∙ e)

    found_u8 :
        (j : Text) (v : ℕ)
        → last_put nvs stores j (items cfg) (stores.at j n) ≡ some (u8 v)
        → nvs.get_u8 j (save nvs num cfg n) ≡ some v
    found_u8 j v e = stores.get_u8_lem j _ ∙ ap as_u8 (at-save j ∙ e)

    found_i16 :
        (j : Text) (v : ℤ)
        → last_put nvs stores j (items cfg) (stores.at j n) ≡ some (i16 v)
        → nvs.get_i16 j (save nvs num cfg n) ≡ some v
    found_i16 j v e = stores.get_i16_lem j _ ∙ ap as_i16 (at-save j ∙ e)

    found_u16 :
        (j : Text) (v : ℕ)
        → last_put nvs stores j (items cfg) (stores.at j n) ≡ some (u16 v)
        → nvs.get_u16 j (save nvs num cfg n) ≡ some v
    found_u16 j v e = stores.get_u16_lem j _ ∙ ap as_u16 (at-save j ∙ e)

    -- What was saved is what is loaded.
    pub load-save : load nvs num (save nvs num cfg n) ≡ cfg
    unfolding load last_put text_eq
    load-save =
        rw
          (
            found_str (codes "apn") cfg.apn refl,
            found_str (codes "ssid") cfg.ssid refl,
            found_str (codes "wpwd") cfg.wpwd refl,
            found_str (codes "srv_host") cfg.srv_host refl,
            found_u16 (codes "srv_port") cfg.srv_port refl,
            found_str (codes "srv_proto") cfg.srv_proto refl,
            found_str (codes "srv_path") cfg.srv_path refl,
            found_str (codes "gnss") cfg.gnss refl,
            found_str (codes "storage") cfg.storage refl,
            found_u8 (codes "obd") (bit cfg.obd) refl,
            found_u8 (codes "mems") (bit cfg.mems) refl,
            found_u8 (codes "wifi") (bit cfg.wifi) refl,
            found_u8 (codes "ble") (bit cfg.ble) refl,
            found_u8 (codes "httpd") (bit cfg.httpd) refl,
            found_str (codes "sim_pin") cfg.sim_pin refl,
            found_str (codes "apn_user") cfg.apn_user refl,
            found_str (codes "apn_pass") cfg.apn_pass refl,
            found_str (codes "ap_ssid") cfg.ap_ssid refl,
            found_str (codes "ap_pwd") cfg.ap_pwd refl,
            get_float,
            found_str (codes "motion_thr") (take 15 (num.fixed_4 cfg.motion_thr)) refl,
            found_i16 (codes "jumpstart_v") cfg.jumpstart_v refl,
            found_i16 (codes "cooling_t") cfg.cooling_t refl,
            found_u8 (codes "gnss_always") (bit cfg.gnss_always) refl,
            found_i16 (codes "gnss_reset_t") cfg.gnss_reset_t refl,
            found_i16 (codes "max_obd_err") cfg.max_obd_err refl,
            found_i16 (codes "srv_sync_int") cfg.srv_sync_int refl,
            found_i16 (codes "pingback_int") cfg.pingback_int refl,
            found_u8 (codes "psram") (bit cfg.psram) refl,
            h.threshold_read,
            bit_back cfg.obd,
            bit_back cfg.mems,
            bit_back cfg.wifi,
            bit_back cfg.ble,
            bit_back cfg.httpd,
            bit_back cfg.gnss_always,
            bit_back cfg.psram,
          )
          refl
