-- ===== src/Usb/Detector/Found.antt =====
-- usb/detector.rs: which devices the detection reports, and at which port.
use freematics_gui.Base.{
  ℕ, ◌≡◌, ◌≢◌, ◌↔◌, ==_refl, refl, ap, ◌∙◌, ◌++◌, true, false, List, [], ◌∷◌, Option, none, some,
  All, arith, Option-cases, Bool-cases, inl, inr, ◌⊎◌,
}
use mathlib.Core.Path.{subst}
use freematics_gui.Base.Result.{ok}
use freematics_gui.Text.{Text}
use freematics_gui.Usb.Detector.{
  DeviceInfo, RawUsbDevice, PortInfo, ch341_vendor_id, ch341_product_id, is_ch341, device_at,
  detect_devices_with_resolver, detect_devices_with, first_port, has_ids, resolve_port_path,
}

-- A report: an adapter on the list whose port was resolved, with its own ids and that port.
pub data Reported (resolve : RawUsbDevice → Option Text)
    : List RawUsbDevice → List DeviceInfo → Type 0 where
  none_left : Reported resolve [] []
  skipped :
      {d : RawUsbDevice} {ds : List RawUsbDevice} {infos : List DeviceInfo}
      → (is_ch341 d ≡ false) ⊎ (resolve d ≡ none)
      → Reported resolve ds infos
      → Reported resolve (d ∷ ds) infos
  reported :
      {d : RawUsbDevice} {ds : List RawUsbDevice} {infos : List DeviceInfo} {path : Text}
      → is_ch341 d ≡ true
      → resolve d ≡ some path
      → Reported resolve ds infos
      → Reported resolve (d ∷ ds) (device_at d path ∷ infos)

-- The detection reports, in the order of the list, each CH341 adapter whose port is resolved, and
-- no other device.
pub detect-Reported :
    (resolve : RawUsbDevice → Option Text) (ds : List RawUsbDevice)
    → Reported resolve ds (detect_devices_with_resolver resolve ds)
unfolding detect_devices_with_resolver
detect-Reported resolve [] = none_left
detect-Reported resolve (d ∷ ds) = elim (Bool-cases (is_ch341 d)) [
  | inr no_match ↦ rw no_match (skipped (inl no_match) (detect-Reported resolve ds))
  | inl match ↦ elim (Option-cases (resolve d)) [
    | inl e ↦ rw (match, e) (skipped (inr e) (detect-Reported resolve ds))
    | inr (path, e) ↦ rw (match, e) (reported match e (detect-Reported resolve ds))
  ]
]

abbrev pub any_ch341 : RawUsbDevice
any_ch341 = record {
  vendor_id = ch341_vendor_id;
  product_id = ch341_product_id;
  product_name = none;
  manufacturer = none;
  serial_number = none;
}

-- The ids that a report carries, and its port: the ports are some before it, which have other ids or
-- none, the port itself, which has the ids of a CH341, and some after it.
pub record IsFirstPort (ports : List PortInfo) (info : DeviceInfo) : Type 0 where
  pub vendor : info.vendor_id ≡ 0x1a86
  pub product : info.product_id ≡ 0x7523
  pub before : List PortInfo
  pub port : PortInfo
  pub after : List PortInfo
  pub parts : ports ≡ before ++ port ∷ after
  pub others : All (λ (p : PortInfo). p.usb ≢ some (0x1a86, 0x7523)) before
  pub ids : port.usb ≡ some (0x1a86, 0x7523)
  pub path : info.port_path ≡ port.port_name

has_ids_iff :
    (o : Option (ℕ × ℕ)) (d : RawUsbDevice)
    → (has_ids d o ≡ true) ↔ (o ≡ some (d.vendor_id, d.product_id))
has_ids_iff none d = (λ h. cc, λ h. cc)
has_ids_iff (some (vid, pid)) d = (
  λ h.
      let v : vid ≡ d.vendor_id = ground arith in
      let p : pid ≡ d.product_id = ground arith in rw (v, p) refl,
  λ h.
      let ids : ◌≡◌ {A = ℕ × ℕ} (vid, pid) (d.vendor_id, d.product_id) = cc in
      rw (ap (λ q. q.0) ids, ap (λ q. q.1) ids, ==_refl d.vendor_id, ==_refl d.product_id) refl,
)

-- What `first_port` finds in a list.
first_port-parts :
    (ports : List PortInfo) (d : RawUsbDevice) (name : Text)
    → first_port ports d ≡ some name
    → (before : List PortInfo) × (p : PortInfo) × (after : List PortInfo) × (ports
        ≡ before ++ p ∷ after)
      × All (λ (q : PortInfo). q.usb ≢ some (d.vendor_id, d.product_id)) before
      × (p.usb ≡ some (d.vendor_id, d.product_id))
      × (name ≡ p.port_name)
unfolding first_port
first_port-parts [] d name h = cc
first_port-parts (p ∷ ps) d name h = elim (Bool-cases (has_ids d p.usb)) [
  | inl e ↦
      let found : some p.port_name ≡ some name = rw e at h in
      ([], p, ps, refl, tt, (has_ids_iff p.usb d).0 e, cc)
  | inr e ↦
      let rest : first_port ps d ≡ some name = rw e at h in
      let (before, q, after, parts, others, ids, same) = first_port-parts ps d name rest in
      let other : p.usb ≢ some (d.vendor_id, d.product_id) =
        λ k. let yes_it_is : has_ids d p.usb ≡ true = (has_ids_iff p.usb d).1 k in cc in
      (p ∷ before, q, after, ap (λ l. p ∷ l) parts, (other, others), ids, same)
]

is_ch341-ids :
    (d : RawUsbDevice)
    → is_ch341 d ≡ true
    → (d.vendor_id ≡ ch341_vendor_id) × (d.product_id ≡ ch341_product_id)
unfolding is_ch341
is_ch341-ids d h = ground arith

reports-IsFirstPort :
    (ports : List PortInfo) (ds : List RawUsbDevice) (infos : List DeviceInfo)
    → Reported (first_port ports) ds infos
    → All (IsFirstPort ports) infos
reports-IsFirstPort ports ds infos none_left = tt
reports-IsFirstPort ports ds infos (skipped h r) = reports-IsFirstPort ports _ infos r
reports-IsFirstPort ports ds infos
      (reported {d = d} {ds = ds'} {infos = infos'} {path = path} m e r) =
    let (v, p) = is_ch341-ids d m in
    let (before, port, after, parts, others, ids, same) = first_port-parts ports d path e in
    let same_ids : ◌≡◌ {A = ℕ × ℕ} (d.vendor_id, d.product_id) (0x1a86, 0x7523) = rw (v, p) refl in
    (
      record {
        vendor = v;
        product = p;
        before = before;
        port = port;
        after = after;
        parts = parts;
        others = subst (λ q. All (λ (x : PortInfo). x.usb ≢ some q) before) same_ids others;
        ids = ids ∙ ap some same_ids;
        path = same;
      },
      reports-IsFirstPort ports ds' infos' r,
    )

-- Every device that is reported carries the ids 1a86:7523 of a CH341 and the path of the first serial
-- port with these ids: all ports before it have others or none. So adapters that are attached at once
-- are all reported at one port.
pub detect-IsFirstPort :
    (ports : List PortInfo) (ds : List RawUsbDevice)
    → All (IsFirstPort ports) (detect_devices_with {A = Text} (ok ports) ds)
unfolding detect_devices_with resolve_port_path
detect-IsFirstPort ports ds = reports-IsFirstPort ports ds _ (detect-Reported (first_port ports) ds)
