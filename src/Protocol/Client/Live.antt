-- ===== src/Protocol/Client/Live.antt =====
-- protocol/client.rs: the poll of the live data.
pub mod Total
pub mod Chatter
pub mod Returns
use freematics_gui.Base.{
  ℕ, ◌^◌, ◌-◌, Bool, ◌||◌, List, [], ◌∷◌, Option, none, some, get_or, if◌then◌else◌, is_empty,
}
use freematics_gui.Base.Int.{ℤ, pos}
use freematics_gui.Text.{Text, codes, text_eq, trim, starts_with, contains}
use freematics_gui.Text.Decimal.{parse_unsigned, parse_signed}
use freematics_gui.Protocol.Float.{Float}
use freematics_gui.Protocol.Port.{Io, ◌>>=◌, pure, attempt}
use freematics_gui.Protocol.Client.{SerialClient, send}

-- `F` is `f32` and `D` is `f64`.
pub record LiveData (F D : Type 0) : Type 0 where
  pub battery_v : F
  pub rssi : ℤ
  pub vin : Text
  pub lat : D
  pub lng : D
  pub alt : F
  pub sat : ℤ
  pub spd : F
  pub crs : F
  pub uptime_ms : ℕ
  pub net_op : Text
  pub net_ip : Text

unfoldable pub is_status_noise : Text → Bool
is_status_noise s =
    is_empty s || starts_with s (codes "[") || contains s (codes ":") || contains s (codes "...")

module _ {S : Type 0} (c : SerialClient S) where
  abbrev heard_str : Option Text → Option Text
  heard_str none = none
  heard_str (some v) =
      some (if text_eq (trim v) (codes "N/A") || is_status_noise (trim v) then [] else trim v)

  -- `send_quiet` differs from `send` in what it logs.
  unfoldable pub live_str : Text → Io S (Option Text)
  live_str key = do heard ← attempt (send c key); pure (heard_str heard)

  module _ {T : Type 0} (parse : Text → Option T) (zero_value : T) where
    abbrev heard_num : Option Text → Option T
    heard_num none = none
    heard_num (some v) =
        some (if is_status_noise (trim v) then zero_value else get_or (parse (trim v)) zero_value)

    unfoldable pub live_num : Text → Io S (Option T)
    live_num key = do heard ← attempt (send c key); pure (heard_num heard)

module _ {F D : Type 0} (fl : Float F) (db : Float D) where
  unfoldable pub default_live : LiveData F D
  default_live = record {
    battery_v = fl.tenths 0;
    rssi = pos 0;
    vin = [];
    lat = db.tenths 0;
    lng = db.tenths 0;
    alt = fl.tenths 0;
    sat = pos 0;
    spd = fl.tenths 0;
    crs = fl.tenths 0;
    uptime_ms = 0;
    net_op = [];
    net_ip = [];
  }

  abbrev pub Live : Type 0
  Live = LiveData F D

  module _ {S : Type 0} (c : SerialClient S) where
    abbrev f32_field : Text → Io S (Option F)
    f32_field = live_num c fl.from_text (fl.tenths 0)

    abbrev f64_field : Text → Io S (Option D)
    f64_field = live_num c db.from_text (db.tenths 0)

    abbrev i32_field : Text → Io S (Option ℤ)
    i32_field = live_num c parse_signed (pos 0)

    abbrev u64_field : Text → Io S (Option ℕ)
    u64_field = live_num c (parse_unsigned (2 ^ 64 - 1)) 0

    abbrev pub filled : {T : Type 0} → (T → Live) → Option T → Option Live
    filled store none = none
    filled store (some v) = some (store v)

    -- `d.field = match … { Some(v) => v, None => return Ok(d) }`: the data with the field, or
    -- `none` where the function returns.
    abbrev pub Step : Type 0
    Step = Live → Io S (Option Live)

    abbrev pub fill : {T : Type 0} → Io S (Option T) → (T → Live) → Io S (Option Live)
    fill ask store = do heard ← ask; pure (filled store heard)

    unfoldable pub live_steps : List Step
    live_steps =
        (λ d. fill (f32_field (codes "BATT")) (λ v. record d { battery_v = v }))
        ∷ (λ d. fill (i32_field (codes "RSSI")) (λ v. record d { rssi = v }))
        ∷ (λ d. fill (live_str c (codes "VIN")) (λ v. record d { vin = v }))
        ∷ (λ d. fill (f64_field (codes "LAT")) (λ v. record d { lat = v }))
        ∷ (λ d. fill (f64_field (codes "LNG")) (λ v. record d { lng = v }))
        ∷ (λ d. fill (f32_field (codes "ALT")) (λ v. record d { alt = v }))
        ∷ (λ d. fill (i32_field (codes "SAT")) (λ v. record d { sat = v }))
        ∷ (λ d. fill (f32_field (codes "SPD")) (λ v. record d { spd = v }))
        ∷ (λ d. fill (f32_field (codes "CRS")) (λ v. record d { crs = v }))
        ∷ (λ d. fill (u64_field (codes "UPTIME")) (λ v. record d { uptime_ms = v }))
        ∷ (λ d. fill (live_str c (codes "NET_OP")) (λ v. record d { net_op = v }))
        ∷ (λ d. fill (live_str c (codes "NET_IP")) (λ v. record d { net_ip = v }))
        ∷ []

    -- Without a value the data so far is returned.
    abbrev pub go_on : Live → (Live → Io S Live) → Option Live → Io S Live
    go_on d rest none = pure d
    go_on d rest (some d') = rest d'

    -- The statements of the function in turn.
    unfoldable pub poll : List Step → Live → Io S Live
    poll [] d = pure d
    poll (ask ∷ steps) d = ask d >>= go_on d (poll steps)

    unfoldable pub get_live_data : Io S Live
    get_live_data = poll live_steps default_live
