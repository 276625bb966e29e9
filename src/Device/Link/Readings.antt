-- ===== src/Device/Link/Readings.antt =====
-- protocol/client.rs, `get_live_data`, over the link to the device.
use freematics_gui.Base.{
  ℕ, ◌^◌, ◌-◌, ◌≡◌, ◌≢◌, ◌⊎◌, inl, inr, Bool, true, false, Bool-cases, Option-cases, none, some,
  refl, sym, ap, ◌∙◌, ◌||◌, [], ◌∷◌, ◌++◌, All, Option, get_or, if◌then◌else◌, append-nil,
  append_assoc, ◌▹◌,
}
use freematics_gui.Base.Int.{pos}
use freematics_gui.Text.{Text, codes, text_eq, trim, starts_with, text_eq_refl, eq_of_text_eq}
use freematics_gui.Text.Decimal.{parse_unsigned, parse_signed}
use freematics_gui.Text.Utf8.{Bytes, as_bytes, encode_char}
use freematics_gui.Protocol.Float.{Float}
use freematics_gui.Protocol.Port.{done}
use freematics_gui.Protocol.Client.{write_command, send, read_line}
use freematics_gui.Protocol.Client.Lines.{IsLine, read_line-IsLine}
use freematics_gui.Protocol.Client.Live.{
  LiveData, is_status_noise, get_live_data, poll, live_steps, live_num, live_str, default_live,
}
use freematics_gui.Protocol.Client.Live.Chatter.{IsChatter, is_status_noise_iff}
use freematics_gui.Device.Strings
use freematics_gui.Device.Strings.{trim_front, trim_back, to_upper_case, drop_cr}
use freematics_gui.Device.Handler.{
  Device, Firmware, live_names, process_serial, handle_command_line, command_line, legacy_line,
  live_line,
}
use freematics_gui.Device.Link.{idle, link_client}
use freematics_gui.Device.Link.Commands.{heard, after}
use freematics_gui.Device.Link.Dumps.{link-Delivers}

-- What a reading comes to: a text that is empty where there is none, and a number that is the zero of
-- its type where there is none.
abbrev as_text : Text → Text
as_text t = if text_eq (trim t) (codes "N/A") || is_status_noise (trim t) then [] else trim t

abbrev as_number : {T : Type 0} → (Text → Option T) → T → Text → T
as_number parse zero_value t =
    if is_status_noise (trim t) then zero_value else get_or (parse (trim t)) zero_value

or_true : (b : Bool) → (b || true) ≡ true
or_true true = refl
or_true false = refl

-- The text of a reading.
abbrev pub IsTextOf : Text → Text → Type 0
IsTextOf t v =
    ((¬ (IsChatter (trim t)) × (trim t ≢ codes "N/A")) × (v ≡ trim t))
    ⊎ ((IsChatter (trim t) ⊎ (trim t ≡ codes "N/A")) × (v ≡ []))

-- The number of a reading.
abbrev pub IsNumberOf : {T : Type 0} → (Text → Option T) → T → Text → T → Type 0
IsNumberOf parse zero_value t v =
    (¬ (IsChatter (trim t)) × (parse (trim t) ≡ some v))
    ⊎ ((IsChatter (trim t) ⊎ (parse (trim t) ≡ none)) × (v ≡ zero_value))

not-IsChatter : (t : Text) → is_status_noise t ≡ false → ¬ (IsChatter t)
not-IsChatter t h k = let noise : is_status_noise t ≡ true = (is_status_noise_iff t).1 k in cc

as_text-IsTextOf : (t : Text) → IsTextOf t (as_text t)
as_text-IsTextOf t = elim (Bool-cases (is_status_noise (trim t))) [
  | inl noise ↦ inr (
    inl ((is_status_noise_iff (trim t)).0 noise),
    rw (noise, or_true (text_eq (trim t) (codes "N/A"))) refl,
  )
  | inr clean ↦ elim (Bool-cases (text_eq (trim t) (codes "N/A"))) [
    | inl e ↦ inr (inr (eq_of_text_eq (trim t) (codes "N/A") e), rw e refl)
    | inr e ↦ inl (
      (
        not-IsChatter (trim t) clean,
        λ same.
            let same_text : text_eq (trim t) (codes "N/A") ≡ true =
              ap (λ x. text_eq x (codes "N/A")) same ∙ text_eq_refl (codes "N/A") in
            cc,
      ),
      rw (e, clean) refl,
    )
  ]
]

as_number-IsNumberOf :
    {T : Type 0} (parse : Text → Option T) (zero_value : T) (t : Text)
    → IsNumberOf parse zero_value t (as_number parse zero_value t)
as_number-IsNumberOf parse zero_value t = elim (Bool-cases (is_status_noise (trim t))) [
  | inl noise ↦ inr (inl ((is_status_noise_iff (trim t)).0 noise), rw noise refl)
  | inr clean ↦ elim (Option-cases (parse (trim t))) [
    | inl e ↦ inr (inr e, rw (clean, e) refl)
    | inr (n, e) ↦ inl (not-IsChatter (trim t) clean, e ∙ ap some (rw (clean, e) refl))
  ]
]

module _ {F D : Type 0} (fl : Float F) (db : Float D) where
  -- The live data of the readings.
  abbrev live_of : (Text → Text) → LiveData F D
  live_of reading = record {
    battery_v = as_number fl.from_text (fl.tenths 0) (reading (codes "BATT"));
    rssi = as_number parse_signed (pos 0) (reading (codes "RSSI"));
    vin = as_text (reading (codes "VIN"));
    lat = as_number db.from_text (db.tenths 0) (reading (codes "LAT"));
    lng = as_number db.from_text (db.tenths 0) (reading (codes "LNG"));
    alt = as_number fl.from_text (fl.tenths 0) (reading (codes "ALT"));
    sat = as_number parse_signed (pos 0) (reading (codes "SAT"));
    spd = as_number fl.from_text (fl.tenths 0) (reading (codes "SPD"));
    crs = as_number fl.from_text (fl.tenths 0) (reading (codes "CRS"));
    uptime_ms = as_number (parse_unsigned (2 ^ 64 - 1)) 0 (reading (codes "UPTIME"));
    net_op = as_text (reading (codes "NET_OP"));
    net_ip = as_text (reading (codes "NET_IP"));
  }

  -- The live data come from the readings.
  pub record IsLiveOf (reading : Text → Text) (d : LiveData F D) : Type 0 where
    pub battery_v : IsNumberOf fl.from_text (fl.tenths 0) (reading (codes "BATT")) d.battery_v
    pub rssi : IsNumberOf parse_signed (pos 0) (reading (codes "RSSI")) d.rssi
    pub vin : IsTextOf (reading (codes "VIN")) d.vin
    pub lat : IsNumberOf db.from_text (db.tenths 0) (reading (codes "LAT")) d.lat
    pub lng : IsNumberOf db.from_text (db.tenths 0) (reading (codes "LNG")) d.lng
    pub alt : IsNumberOf fl.from_text (fl.tenths 0) (reading (codes "ALT")) d.alt
    pub sat : IsNumberOf parse_signed (pos 0) (reading (codes "SAT")) d.sat
    pub spd : IsNumberOf fl.from_text (fl.tenths 0) (reading (codes "SPD")) d.spd
    pub crs : IsNumberOf fl.from_text (fl.tenths 0) (reading (codes "CRS")) d.crs
    pub uptime_ms :
        IsNumberOf (parse_unsigned (2 ^ 64 - 1)) 0 (reading (codes "UPTIME")) d.uptime_ms
    pub net_op : IsTextOf (reading (codes "NET_OP")) d.net_op
    pub net_ip : IsTextOf (reading (codes "NET_IP")) d.net_ip

  live_of-IsLiveOf : (reading : Text → Text) → IsLiveOf reading (live_of reading)
  live_of-IsLiveOf reading = record {
    battery_v = as_number-IsNumberOf fl.from_text (fl.tenths 0) (reading (codes "BATT"));
    rssi = as_number-IsNumberOf parse_signed (pos 0) (reading (codes "RSSI"));
    vin = as_text-IsTextOf (reading (codes "VIN"));
    lat = as_number-IsNumberOf db.from_text (db.tenths 0) (reading (codes "LAT"));
    lng = as_number-IsNumberOf db.from_text (db.tenths 0) (reading (codes "LNG"));
    alt = as_number-IsNumberOf fl.from_text (fl.tenths 0) (reading (codes "ALT"));
    sat = as_number-IsNumberOf parse_signed (pos 0) (reading (codes "SAT"));
    spd = as_number-IsNumberOf fl.from_text (fl.tenths 0) (reading (codes "SPD"));
    crs = as_number-IsNumberOf fl.from_text (fl.tenths 0) (reading (codes "CRS"));
    uptime_ms = as_number-IsNumberOf (parse_unsigned (2 ^ 64 - 1)) 0 (reading (codes "UPTIME"));
    net_op = as_text-IsTextOf (reading (codes "NET_OP"));
    net_ip = as_text-IsTextOf (reading (codes "NET_IP"));
  }

module _ {N F : Type 0} (X : Type 0) (fw : Firmware N F) where
  -- The device prints its reading for the name.
  abbrev Answers : Text → Type 0
  Answers name =
      (d : Device N F)
      → process_serial fw [] (as_bytes name ++ codes "\r\n") d
        ≡ (d, fw.live_query name ++ codes "\r\n")

  live_names-Answers : All Answers live_names
  unfolding process_serial handle_command_line command_line legacy_line live_line to_upper_case
      text_eq Strings.trim trim_front trim_back drop_cr as_bytes encode_char starts_with
  live_names-Answers =
      (λ d. ap (λ o. (d, o)) (append-nil (fw.live_query (codes "BATT") ++ codes "\r\n")))
      ▹ (λ d. ap (λ o. (d, o)) (append-nil (fw.live_query (codes "RSSI") ++ codes "\r\n")))
      ▹ (λ d. ap (λ o. (d, o)) (append-nil (fw.live_query (codes "VIN") ++ codes "\r\n")))
      ▹ (λ d. ap (λ o. (d, o)) (append-nil (fw.live_query (codes "LAT") ++ codes "\r\n")))
      ▹ (λ d. ap (λ o. (d, o)) (append-nil (fw.live_query (codes "LNG") ++ codes "\r\n")))
      ▹ (λ d. ap (λ o. (d, o)) (append-nil (fw.live_query (codes "ALT") ++ codes "\r\n")))
      ▹ (λ d. ap (λ o. (d, o)) (append-nil (fw.live_query (codes "SAT") ++ codes "\r\n")))
      ▹ (λ d. ap (λ o. (d, o)) (append-nil (fw.live_query (codes "SPD") ++ codes "\r\n")))
      ▹ (λ d. ap (λ o. (d, o)) (append-nil (fw.live_query (codes "CRS") ++ codes "\r\n")))
      ▹ (λ d. ap (λ o. (d, o)) (append-nil (fw.live_query (codes "UPTIME") ++ codes "\r\n")))
      ▹ (λ d. ap (λ o. (d, o)) (append-nil (fw.live_query (codes "NET_OP") ++ codes "\r\n")))
      ▹ (λ d. ap (λ o. (d, o)) (append-nil (fw.live_query (codes "NET_IP") ++ codes "\r\n")))
      ▹ tt

  module _ (debug : Text → Text) (fuel : ℕ) where
    -- The device has a reading for the name, which the client reads as a line.
    abbrev pub Reads : (Text → Text) → Text → Type 0
    Reads reading name =
        (fw.live_query name ≡ as_bytes (reading name))
        × IsLine (link_client X fw debug fuel) (reading name)

    send_answered :
        (reading : Text → Text) (name : Text) (x : X) (d : Device N F) (out : Bytes)
        → Answers name
        → Reads reading name
        → send (link_client X fw debug fuel) name (idle x d out) ≡ (done (reading name), heard x d)
    unfolding send write_command
    send_answered reading name x d out a (e, line) =
        let bs = as_bytes (reading name) in
        let c = link_client X fw debug fuel in
        let said : process_serial fw [] (as_bytes name ++ codes "\r\n") d
            ≡ (d, (bs ++ b'\r' ∷ []) ++ codes "\n") =
          a d
          ∙ ap (λ l. (d, l ++ codes "\r\n")) e
          ∙ ap (λ o. (d, o)) (sym (append_assoc bs (b'\r' ∷ []) (codes "\n"))) in
        ap (λ r. read_line c (after x r)) said
        ∙ read_line-IsLine c (reading name) (idle x d ((bs ++ b'\r' ∷ []) ++ codes "\n"))
            (heard x d) line (b'\r', refl, link-Delivers X fw (bs ++ b'\r' ∷ []) (codes "\n") x d)

    poll-live_of :
        {G D : Type 0} (fl : Float G) (db : Float D) (reading : Text → Text) (x : X)
        (d : Device N F) (out : Bytes)
        → All (Reads reading) live_names
        → get_live_data fl db (link_client X fw debug fuel) (idle x d out)
          ≡ (done (live_of fl db reading), heard x d)
    unfolding get_live_data poll live_steps live_num live_str default_live
    poll-live_of fl db reading x d out rs =
        let (a1, (a2, (a3, (a4, (a5, (a6, (a7, (a8, (a9, (a10, (a11, (a12, _)))))))))))) =
          live_names-Answers in
        let (r1, (r2, (r3, (r4, (r5, (r6, (r7, (r8, (r9, (r10, (r11, (r12, _)))))))))))) = rs in
        rw
          (
            send_answered reading (codes "BATT") x d out a1 r1,
            send_answered reading (codes "RSSI") x d (codes "\n") a2 r2,
            send_answered reading (codes "VIN") x d (codes "\n") a3 r3,
            send_answered reading (codes "LAT") x d (codes "\n") a4 r4,
            send_answered reading (codes "LNG") x d (codes "\n") a5 r5,
            send_answered reading (codes "ALT") x d (codes "\n") a6 r6,
            send_answered reading (codes "SAT") x d (codes "\n") a7 r7,
            send_answered reading (codes "SPD") x d (codes "\n") a8 r8,
            send_answered reading (codes "CRS") x d (codes "\n") a9 r9,
            send_answered reading (codes "UPTIME") x d (codes "\n") a10 r10,
            send_answered reading (codes "NET_OP") x d (codes "\n") a11 r11,
            send_answered reading (codes "NET_IP") x d (codes "\n") a12 r12,
          )
          refl

    -- Over the link, `get_live_data` gives each of its twelve fields from the device's reading of that
    -- field, and leaves the device as it is. Blanks at the ends apart, a text is the reading, and empty
    -- where the reading is N/A or chatter; a number is the one that the reading denotes, and the zero
    -- of its type where it denotes none or is chatter. Chatter is an empty reading, one that begins
    -- with a bracket, and one that holds a colon or three dots in a row, so an address with colons
    -- counts as chatter. This holds if each reading is a line that the client reads.
    pub get_live_data-over_link :
        {G D : Type 0} (fl : Float G) (db : Float D) (reading : Text → Text) (x : X)
        (d : Device N F) (out : Bytes)
        → All (Reads reading) live_names
        → (live : LiveData G D) × (get_live_data fl db (link_client X fw debug fuel) (idle x d out)
            ≡ (done live, heard x d))
          × IsLiveOf fl db reading live
    get_live_data-over_link fl db reading x d out rs = (
      live_of fl db reading,
      poll-live_of fl db reading x d out rs,
      live_of-IsLiveOf fl db reading,
    )
