-- ===== src/Protocol/Config/LastWins.antt =====
-- protocol/types.rs: which line of a dump each field is taken from.
use freematics_gui.Base.{
  ℕ, zero, suc, ◌≡◌, refl, sym, ap, ◌∙◌, true, false, List, [], ◌∷◌, Option, none, some,
  Option-cases, Bool-cases, inl, inr, if◌then◌else◌, is_empty, ◌==◌, All, ==_iff,
}
use mathlib.Core.Path.{subst}
use freematics_gui.Base.Result.{ok}
use freematics_gui.Text.{Text, trim, split_once, text_eq, eq_of_text_eq}
use freematics_gui.Protocol.Float.{Float}
use freematics_gui.Protocol.Modes.{one_of}
use freematics_gui.Protocol.Config.{
  DeviceConfig, Field, default, assign, assign_if, apply_pair, apply_line, apply_lines,
  from_dump_lines, keys, all_fields, field_among, field_of, cell_apn, wifi_ssid, wifi_password,
  server_host, server_port, server_protocol, server_path, gnss_mode, storage, enable_obd,
  enable_mems, enable_wifi, enable_ble, enable_httpd, sim_pin, apn_username, apn_password,
  wifi_ap_ssid, wifi_ap_password, motion_threshold, jumpstart_voltage, cooling_down_temp,
  gnss_always_on, gnss_reset_timeout, max_obd_errors, server_sync_interval, ping_back_interval,
  board_has_psram,
}
use freematics_gui.Protocol.Config.Lines.{field_of-keys}

-- The two configurations have the same value in the field.
abbrev pub SameAt : {F : Type 0} → Field → DeviceConfig F → DeviceConfig F → Type 0
SameAt cell_apn a b = a.cell_apn ≡ b.cell_apn
SameAt wifi_ssid a b = a.wifi_ssid ≡ b.wifi_ssid
SameAt wifi_password a b = a.wifi_password ≡ b.wifi_password
SameAt server_host a b = a.server_host ≡ b.server_host
SameAt server_port a b = a.server_port ≡ b.server_port
SameAt server_protocol a b = a.server_protocol ≡ b.server_protocol
SameAt server_path a b = a.server_path ≡ b.server_path
SameAt gnss_mode a b = a.gnss_mode ≡ b.gnss_mode
SameAt storage a b = a.storage ≡ b.storage
SameAt enable_obd a b = a.enable_obd ≡ b.enable_obd
SameAt enable_mems a b = a.enable_mems ≡ b.enable_mems
SameAt enable_wifi a b = a.enable_wifi ≡ b.enable_wifi
SameAt enable_ble a b = a.enable_ble ≡ b.enable_ble
SameAt enable_httpd a b = a.enable_httpd ≡ b.enable_httpd
SameAt sim_pin a b = a.sim_pin ≡ b.sim_pin
SameAt apn_username a b = a.apn_username ≡ b.apn_username
SameAt apn_password a b = a.apn_password ≡ b.apn_password
SameAt wifi_ap_ssid a b = a.wifi_ap_ssid ≡ b.wifi_ap_ssid
SameAt wifi_ap_password a b = a.wifi_ap_password ≡ b.wifi_ap_password
SameAt motion_threshold a b = a.motion_threshold ≡ b.motion_threshold
SameAt jumpstart_voltage a b = a.jumpstart_voltage ≡ b.jumpstart_voltage
SameAt cooling_down_temp a b = a.cooling_down_temp ≡ b.cooling_down_temp
SameAt gnss_always_on a b = a.gnss_always_on ≡ b.gnss_always_on
SameAt gnss_reset_timeout a b = a.gnss_reset_timeout ≡ b.gnss_reset_timeout
SameAt max_obd_errors a b = a.max_obd_errors ≡ b.max_obd_errors
SameAt server_sync_interval a b = a.server_sync_interval ≡ b.server_sync_interval
SameAt ping_back_interval a b = a.ping_back_interval ≡ b.ping_back_interval
SameAt board_has_psram a b = a.board_has_psram ≡ b.board_has_psram

abbrev index : Field → ℕ
index cell_apn = 0
index wifi_ssid = 1
index wifi_password = 2
index server_host = 3
index server_port = 4
index server_protocol = 5
index server_path = 6
index gnss_mode = 7
index storage = 8
index enable_obd = 9
index enable_mems = 10
index enable_wifi = 11
index enable_ble = 12
index enable_httpd = 13
index sim_pin = 14
index apn_username = 15
index apn_password = 16
index wifi_ap_ssid = 17
index wifi_ap_password = 18
index motion_threshold = 19
index jumpstart_voltage = 20
index cooling_down_temp = 21
index gnss_always_on = 22
index gnss_reset_timeout = 23
index max_obd_errors = 24
index server_sync_interval = 25
index ping_back_interval = 26
index board_has_psram = 27

nth : List Field → ℕ → Option Field
nth [] i = none
nth (f ∷ fs) zero = some f
nth (f ∷ fs) (suc i) = nth fs i

nth-index : (f : Field) → nth all_fields (index f) ≡ some f
unfolding nth
nth-index cell_apn = refl
nth-index _ = refl

index_inj : (f g : Field) → index f ≡ index g → some f ≡ some g
index_inj f g e = sym (nth-index f) ∙ ap (nth all_fields) e ∙ nth-index g

module _ {F : Type 0} (fl : Float F) where
  assign-SameAt :
      (f g : Field) (v : Text) (cfg : DeviceConfig F)
      → SameAt f (assign fl g v cfg) (if index f == index g then assign fl g v cfg else cfg)
  unfolding assign
  assign-SameAt cell_apn cell_apn v cfg = refl
  assign-SameAt wifi_ssid cell_apn v cfg = refl
  assign-SameAt wifi_password cell_apn v cfg = refl
  assign-SameAt server_host cell_apn v cfg = refl
  assign-SameAt server_port cell_apn v cfg = refl
  assign-SameAt server_protocol cell_apn v cfg = refl
  assign-SameAt server_path cell_apn v cfg = refl
  assign-SameAt gnss_mode cell_apn v cfg = refl
  assign-SameAt storage cell_apn v cfg = refl
  assign-SameAt enable_obd cell_apn v cfg = refl
  assign-SameAt enable_mems cell_apn v cfg = refl
  assign-SameAt enable_wifi cell_apn v cfg = refl
  assign-SameAt enable_ble cell_apn v cfg = refl
  assign-SameAt enable_httpd cell_apn v cfg = refl
  assign-SameAt sim_pin cell_apn v cfg = refl
  assign-SameAt apn_username cell_apn v cfg = refl
  assign-SameAt apn_password cell_apn v cfg = refl
  assign-SameAt wifi_ap_ssid cell_apn v cfg = refl
  assign-SameAt wifi_ap_password cell_apn v cfg = refl
  assign-SameAt motion_threshold cell_apn v cfg = refl
  assign-SameAt jumpstart_voltage cell_apn v cfg = refl
  assign-SameAt cooling_down_temp cell_apn v cfg = refl
  assign-SameAt gnss_always_on cell_apn v cfg = refl
  assign-SameAt gnss_reset_timeout cell_apn v cfg = refl
  assign-SameAt max_obd_errors cell_apn v cfg = refl
  assign-SameAt server_sync_interval cell_apn v cfg = refl
  assign-SameAt ping_back_interval cell_apn v cfg = refl
  assign-SameAt board_has_psram cell_apn v cfg = refl
  assign-SameAt _ _ v cfg = refl

-- The value that a line gives a field: it is split at its first `=`, and its trimmed key is one of
-- the keys of the field.
abbrev pub named : Field → Option (Text × Text) → Option Text
named f none = none
named f (some (k, v)) = if one_of (trim k) (keys f) then some (trim v) else none

abbrev pub value_in : Field → Text → Option Text
value_in f l = named f (split_once b'=' (trim l))

abbrev pub or_else : Option Text → Option Text → Option Text
or_else none o = o
or_else (some v) o = some v

-- The value in the last line that has one.
unfoldable pub last_value : Field → List Text → Option Text
last_value f [] = none
last_value f (l ∷ ls) = or_else (last_value f ls) (value_in f l)

select : (P : Text → Type 0) (k : Text) (ks : List Text) → one_of k ks ≡ true → All P ks → P k
select P k [] h a = cc
select P k (j ∷ ks) h (pj, a) = elim (Bool-cases (text_eq k j)) [
  | inl e ↦ rw (eq_of_text_eq k j e) pj
  | inr e ↦ select P k ks (rw e at h) a
]

-- A key names a field exactly when it selects the arm of the field.
field_of_named : (f : Field) (k : Text) → one_of k (keys f) ≡ true → field_of k ≡ some f
field_of_named f k h = select (λ j. field_of j ≡ some f) k (keys f) h (field_of-keys f)

abbrev NamedBy : Text → Option Field → Type 0
NamedBy k none = ⊥
NamedBy k (some f) = one_of k (keys f) ≡ true

named_of_field_among :
    (fs : List Field) (g : Field) (k : Text) → field_among fs k ≡ some g → one_of k (keys g) ≡ true
unfolding field_among
named_of_field_among [] g k h = cc
named_of_field_among (f ∷ fs) g k h = elim (Bool-cases (one_of k (keys f))) [
  | inl e ↦ subst (NamedBy k) (rw e at h) e
  | inr e ↦ named_of_field_among fs g k (rw e at h)
]

-- A key that names no such field selects another arm, or none.
field_of_not_named :
    (f g : Field) (k : Text)
    → one_of k (keys f) ≡ false
    → field_of k ≡ some g
    → (index f == index g) ≡ false
unfolding field_of
field_of_not_named f g k h e = elim (Bool-cases (index f == index g)) [
  | inr d ↦ d
  | inl d ↦
      let same : some f ≡ some g = index_inj f g ((==_iff (index f) (index g)).0 d) in
      let yes_f : one_of k (keys f) ≡ true = named_of_field_among all_fields f k (e ∙ sym same) in
      cc
]

SameAt-refl : {F : Type 0} (f : Field) (a : DeviceConfig F) → SameAt f a a
SameAt-refl cell_apn a = refl
SameAt-refl _ a = refl

SameAt-trans :
    {F : Type 0} (f : Field) (a b c : DeviceConfig F) → SameAt f a b → SameAt f b c → SameAt f a c
SameAt-trans cell_apn a b c p q = p ∙ q
SameAt-trans _ a b c p q = p ∙ q

module _ {F : Type 0} (fl : Float F) where
  -- The configuration with the value, if there is one.
  abbrev pub given : Field → Option Text → DeviceConfig F → DeviceConfig F
  given f none cfg = cfg
  given f (some v) cfg = assign fl f v cfg

  assign-congr :
      (f : Field) (v : Text) (a b : DeviceConfig F) → SameAt f (assign fl f v a) (assign fl f v b)
  unfolding assign
  assign-congr cell_apn v a b = refl
  assign-congr _ v a b = refl

  given-congr :
      (f : Field) (o : Option Text) (a b : DeviceConfig F)
      → SameAt f a b
      → SameAt f (given f o a) (given f o b)
  given-congr f none a b h = h
  given-congr f (some v) a b h = assign-congr f v a b

  given-or_else :
      (f : Field) (o p : Option Text) (a : DeviceConfig F)
      → SameAt f (given f o (given f p a)) (given f (or_else o p) a)
  given-or_else f none p a = SameAt-refl f (given f p a)
  given-or_else f (some v) p a = assign-congr f v (given f p a) a

  assign_ne :
      (f g : Field) (v : Text) (cfg : DeviceConfig F)
      → (index f == index g) ≡ false
      → SameAt f (assign fl g v cfg) cfg
  assign_ne f g v cfg h = rw h at (assign-SameAt fl f g v cfg)

  assign_if-SameAt :
      (f : Field) (k v : Text) (cfg : DeviceConfig F)
      → SameAt f
          (assign_if fl (field_of k) v cfg)
          (given f (if one_of k (keys f) then some v else none) cfg)
  assign_if-SameAt f k v cfg = elim (Bool-cases (one_of k (keys f))) [
    | inl e ↦ rw (e, field_of_named f k e) (SameAt-refl f (assign fl f v cfg))
    | inr e ↦ elim (Option-cases (field_of k)) [
      | inl n ↦ rw (e, n) (SameAt-refl f cfg)
      | inr (g, n) ↦ rw (e, n) (assign_ne f g v cfg (field_of_not_named f g k e n))
    ]
  ]

  apply_pair-SameAt :
      (f : Field) (o : Option (Text × Text)) (cfg : DeviceConfig F)
      → SameAt f (apply_pair fl o cfg) (given f (named f o) cfg)
  apply_pair-SameAt f none cfg = SameAt-refl f cfg
  apply_pair-SameAt f (some (k, v)) cfg = assign_if-SameAt f (trim k) (trim v) cfg

  apply_trimmed-SameAt :
      (f : Field) (t : Text) (cfg : DeviceConfig F)
      → SameAt f
          (if is_empty t then cfg else apply_pair fl (split_once b'=' t) cfg)
          (given f (named f (split_once b'=' t)) cfg)
  apply_trimmed-SameAt f [] cfg = unfold split_once in SameAt-refl f cfg
  apply_trimmed-SameAt f (c ∷ t) cfg = apply_pair-SameAt f (split_once b'=' (c ∷ t)) cfg

  apply_line-SameAt :
      (f : Field) (l : Text) (cfg : DeviceConfig F)
      → SameAt f (apply_line fl l cfg) (given f (value_in f l) cfg)
  unfolding apply_line
  apply_line-SameAt f l cfg = apply_trimmed-SameAt f (trim l) cfg

  -- After any lines a field is what the last line that names it gives, and what it was before them
  -- if none does.
  pub apply_lines-last_value :
      (f : Field) (ls : List Text) (cfg : DeviceConfig F)
      → SameAt f (apply_lines fl ls cfg) (given f (last_value f ls) cfg)
  unfolding apply_lines last_value
  apply_lines-last_value f [] cfg = SameAt-refl f cfg
  apply_lines-last_value f (l ∷ ls) cfg =
      SameAt-trans f _ _ _ (apply_lines-last_value f ls (apply_line fl l cfg)) (
        SameAt-trans f _ _ _ (given-congr f (last_value f ls) _ _ (apply_line-SameAt f l cfg))
          (given-or_else f (last_value f ls) (value_in f l) cfg))

  -- A dump is always read, and each field of the result is what the last line that names the field
  -- gives, by any of its keys; with no such line it is the default's.
  pub from_dump_lines-last_value :
      (ls : List Text)
      → (cfg : DeviceConfig F) × (from_dump_lines fl ls ≡ ok cfg)
        × ((f : Field) → SameAt f cfg (given f (last_value f ls) (default fl)))
  unfolding from_dump_lines
  from_dump_lines-last_value ls =
      (apply_lines fl ls (default fl), refl, λ f. apply_lines-last_value f ls (default fl))
