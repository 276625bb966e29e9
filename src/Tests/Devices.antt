-- ===== src/Tests/Devices.antt =====
-- Detection and flashing: the theorems at concrete inputs.
use freematics_gui.Base.{ℕ, ◌+◌, ◌≤◌, ◌≡◌, refl, false, List, [], ◌∷◌, some, none, All}
use freematics_gui.Base.Result.{ok}
use freematics_gui.Text.{
  Text, codes, trim, is_whitespace, text_eq, eq_ignore_ascii_case, to_ascii_lowercase, starts_with,
}
use freematics_gui.Text.Decimal.{parse_unsigned}
use freematics_gui.Files.{Files}
use freematics_gui.Protocol.Port.{failed}
use freematics_gui.Flash.Esptool.{Runner, flash_firmware_with}
use freematics_gui.Flash.Esptool.Gate.{Matches, flash-refused}
use freematics_gui.Flash.Native.{Call, init, update, verifying, finish, call, calls, fresh}
use freematics_gui.Flash.Native.Percent.{reported-le}
use freematics_gui.Flash.Progress.{parse_progress, parse_writing_line, lines}
use freematics_gui.Usb.Detector.{
  RawUsbDevice, PortInfo, ch341_vendor_id, ch341_product_id, detect_devices_with,
}
use freematics_gui.Usb.Detector.Found.{IsFirstPort, detect-IsFirstPort, any_ch341}

-- One file, whose digest is its own bytes; the world counts the runs.
abbrev one_file : Files ℕ
one_file = record {
  exists = λ path w. text_eq path (codes "fw.bin");
  read = λ path w. ok (codes "ab");
  read_to_string = λ path w. ok (codes "ab");
  create = λ path w. (ok tt, w);
  write_all = λ path bs w. (ok tt, w);
}

abbrev counting : Runner ℕ
counting args w = (ok [], w + 1)

digests_differ : eq_ignore_ascii_case (codes "ab") (trim (codes "00")) ≡ false
unfolding eq_ignore_ascii_case trim is_whitespace
digests_differ = refl

wrong_digest : ¬ (Matches one_file (λ bs. bs) (codes "fw.bin") (codes "00") 0)
wrong_digest (image, there, read, same) = cc digests_differ

flash-refused_example :
    (reason : Text) × (flash_firmware_with one_file
        (λ bs. bs)
        counting
        (codes "COM3")
        (codes "fw.bin")
        (codes "00")
        0
      ≡ (failed reason, 0))
flash-refused_example =
    flash-refused one_file (λ bs. bs) (codes "fw.bin") (codes "00") counting (codes "COM3") 0
      wrong_digest

right_digest : Matches one_file (λ bs. bs) (codes "fw.bin") (codes "AB ") 0
unfolding text_eq eq_ignore_ascii_case trim is_whitespace
right_digest = (codes "ab", refl, refl, refl)

abbrev session : List Call
session = init 0x10000 200 ∷ update 50 ∷ update 200 ∷ verifying ∷ finish false ∷ []

reported-le_example : All (λ n. n ≤ 100) (calls fresh session).reported
reported-le_example = reported-le session

session-reported : (calls fresh session).reported ≡ 0 ∷ 25 ∷ 100 ∷ 100 ∷ []
unfolding calls call
session-reported = refl

esptool_output :
    parse_progress (
      codes
        "esptool.py v4.6\nConnecting...\r\nWriting at 0x00010000 (12%)\nWriting at 0x00020000 (24%)\n")
    ≡ some (record { percentage = 12; stage = codes "writing" })
unfolding parse_progress parse_writing_line trim is_whitespace to_ascii_lowercase starts_with
    parse_unsigned lines
esptool_output = refl

abbrev other_device : RawUsbDevice
other_device = record any_ch341 { vendor_id = 0x1234 }

abbrev ports : List PortInfo
ports =
    record { port_name = codes "COM1"; usb = none }
    ∷ record { port_name = codes "COM3"; usb = some (ch341_vendor_id, ch341_product_id) }
    ∷ record { port_name = codes "COM4"; usb = some (ch341_vendor_id, ch341_product_id) }
    ∷ []

abbrev attached : List RawUsbDevice
attached = any_ch341 ∷ other_device ∷ any_ch341 ∷ []

detect-IsFirstPort_example :
    All (IsFirstPort ports) (detect_devices_with {A = Text} (ok ports) attached)
detect-IsFirstPort_example = detect-IsFirstPort ports attached
