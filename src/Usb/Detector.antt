-- ===== src/Usb/Detector.antt =====
-- usb/detector.rs. The lists of USB devices (crate nusb) and of serial ports (crate serialport) are
-- arguments.
pub mod Found
use freematics_gui.Base.{
  map, ℕ, ◌==◌, Bool, false, ◌&&◌, List, [], ◌∷◌, Option, none, some, get_or, if◌then◌else◌,
}
use freematics_gui.Base.Result.{Result, ok, err}
use freematics_gui.Text.{Text, codes}

abbrev pub ch341_vendor_id : ℕ
ch341_vendor_id = 0x1a86

abbrev pub ch341_product_id : ℕ
ch341_product_id = 0x7523

pub record DeviceInfo : Type 0 where
  pub vendor_id : ℕ
  pub product_id : ℕ
  pub product_name : Text
  pub manufacturer : Text
  pub port_path : Text

pub record RawUsbDevice : Type 0 where
  pub vendor_id : ℕ
  pub product_id : ℕ
  pub product_name : Option Text
  pub manufacturer : Option Text
  pub serial_number : Option Text

-- `SerialPortInfo`: a name, and the ids if it is a USB port.
pub record PortInfo : Type 0 where
  pub port_name : Text
  pub usb : Option (ℕ × ℕ)

unfoldable pub is_ch341 : RawUsbDevice → Bool
is_ch341 d = d.vendor_id == ch341_vendor_id && d.product_id == ch341_product_id

abbrev pub device_at : RawUsbDevice → Text → DeviceInfo
device_at d port_path = record {
  vendor_id = d.vendor_id;
  product_id = d.product_id;
  product_name = get_or d.product_name (codes "USB Serial");
  manufacturer = get_or d.manufacturer [];
  port_path = port_path;
}

abbrev found : RawUsbDevice → Option Text → List DeviceInfo → List DeviceInfo
found d none rest = rest
found d (some path) rest = device_at d path ∷ rest

-- The devices that pass the filter and whose port is resolved, in the order of the list.
unfoldable pub detect_devices_with_resolver :
    (RawUsbDevice → Option Text) → List RawUsbDevice → List DeviceInfo
unfolding is_ch341
detect_devices_with_resolver resolve [] = []
detect_devices_with_resolver resolve (d ∷ ds) =
    let rest = detect_devices_with_resolver resolve ds in
    if is_ch341 d then found d (resolve d) rest else rest

abbrev pub has_ids : RawUsbDevice → Option (ℕ × ℕ) → Bool
has_ids d none = false
has_ids d (some (vid, pid)) = vid == d.vendor_id && pid == d.product_id

unfoldable pub first_port : List PortInfo → RawUsbDevice → Option Text
first_port [] d = none
first_port (p ∷ ps) d = if has_ids d p.usb then some p.port_name else first_port ps d

abbrev listed : {A : Type 0} → Result A (List PortInfo) → RawUsbDevice → Option Text
listed (err e) d = none
listed (ok ports) d = first_port ports d

unfoldable pub resolve_port_path :
    {A : Type 0} → Result A (List PortInfo) → RawUsbDevice → Option Text
unfolding first_port
resolve_port_path ports d = listed ports d

-- The ports are listed anew for each device; `ports` is that list where it does not change.
unfoldable pub detect_devices_with :
    {A : Type 0} → Result A (List PortInfo) → List RawUsbDevice → List DeviceInfo
detect_devices_with ports ds = detect_devices_with_resolver (resolve_port_path ports) ds

-- `nusb::DeviceInfo`, as far as it is asked.
pub record NusbDevice : Type 0 where
  pub vendor_id : ℕ
  pub product_id : ℕ
  pub product_string : Option Text
  pub manufacturer_string : Option Text
  pub serial_number : Option Text

abbrev raw_device : NusbDevice → RawUsbDevice
raw_device d = record {
  vendor_id = d.vendor_id;
  product_id = d.product_id;
  product_name = d.product_string;
  manufacturer = d.manufacturer_string;
  serial_number = d.serial_number;
}

-- `NusbEnumerator`; without a list of devices there are none.
unfoldable pub list_nusb : {A : Type 0} → Result A (List NusbDevice) → List RawUsbDevice
list_nusb (ok ds) = map raw_device ds
list_nusb (err e) = []

unfoldable pub detect_devices :
    {A B : Type 0} → Result B (List NusbDevice) → Result A (List PortInfo) → List DeviceInfo
detect_devices devices ports = detect_devices_with ports (list_nusb devices)
