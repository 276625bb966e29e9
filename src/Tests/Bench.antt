-- ===== src/Tests/Bench.antt =====
-- A device, its flash and a computer for the tests, and a configuration that comes back from them.
-- Floats are whole numbers, printed without a fraction.
use freematics_gui.Base.{
  ℕ, ◌≡◌, ◌≢◌, inl, inr, Bool-cases, refl, [], Option, none, some, arith, get_or, if◌then◌else◌,
}
use freematics_gui.Base.Int.{pos}
use freematics_gui.Text.{
  Text, codes, text_eq, text_eq_refl, eq_of_text_eq, trim, is_whitespace, trim_end,
  eq_ignore_ascii_case,
}
use freematics_gui.Text.Utf8.{Bytes, as_bytes}
use freematics_gui.Text.Decimal.{
  show, parse_signed, parse_unsigned, show_signed, parse_signed-show_signed,
}
use freematics_gui.Protocol.Modes.{show_protocol, show_gnss, show_storage, bool_str}
use freematics_gui.Protocol.Config.Lines.{line_of}
use freematics_gui.Protocol.Client.Dump.{is_dump_end}
use freematics_gui.Protocol.Config.{default, to_set_commands}
use freematics_gui.Backup.Import.Validity.{IsValid}
use freematics_gui.Device.Strings.{Numbers}
use freematics_gui.Device.Settings.{defaults}
use freematics_gui.Device.Settings.Sent.{kept_config, Fits, ReadsNumerals}
use freematics_gui.Device.Nvs.Kept
use freematics_gui.Device.Nvs.Kept.{
  Item, str, u8, i16, u16, Accepted, Stores, as_str, as_u8, as_i16, as_u16,
}
use freematics_gui.Device.Nvs.Reload.{IsSavable}
use freematics_gui.Device.Nvs.{Nvs}
use freematics_gui.Device.Handler.{Device, Firmware}
use freematics_gui.Device.Link.Imports.{HasLineValues}
use freematics_gui.Device.Link.RoundTrip.{ComesBack, HasDumpLines}
use freematics_gui.Tests.Toys.{whole}

abbrev pub Flash : Type 0
Flash = Text → Option Item

abbrev put : Text → Item → Flash → Flash
put k v n j = if text_eq j k then some v else n j

abbrev pub toy_nvs : Nvs Flash
toy_nvs = record {
  set_str = λ k v. put k (str v);
  set_u8 = λ k v. put k (u8 v);
  set_i16 = λ k v. put k (i16 v);
  set_u16 = λ k v. put k (u16 v);
  commit = λ n. n;
  get_str = λ k n. as_str (n k);
  get_u8 = λ k n. as_u8 (n k);
  get_i16 = λ k n. as_i16 (n k);
  get_u16 = λ k n. as_u16 (n k);
}

put-found : (k : Text) (v : Item) (n : Flash) → put k v n k ≡ some v
put-found k v n = rw (text_eq_refl k) refl

put-elsewhere : (j k : Text) (v : Item) (n : Flash) → j ≢ k → put k v n j ≡ n j
put-elsewhere j k v n h = elim (Bool-cases (text_eq j k)) [
  | inl e ↦ absurd (h (eq_of_text_eq j k e))
  | inr e ↦ rw e refl
]

pub toy_nvs-Stores : Stores toy_nvs
toy_nvs-Stores = record {
  at = λ k n. n k;
  get_str_lem = λ k n. refl;
  get_u8_lem = λ k n. refl;
  get_i16_lem = λ k n. refl;
  get_u16_lem = λ k n. refl;
  found = toy_found;
  elsewhere = toy_elsewhere;
  at-commit = λ j n. refl;
}
  where
    toy_found : (k : Text) (v : Item) (n : Flash) → Accepted v → Kept.put toy_nvs k v n k ≡ some v
    toy_found k (str v) n h = put-found k (str v) n
    toy_found k (u8 v) n h = put-found k (u8 v) n
    toy_found k (i16 v) n h = put-found k (i16 v) n
    toy_found k (u16 v) n h = put-found k (u16 v) n

    toy_elsewhere : (j k : Text) (v : Item) (n : Flash) → j ≢ k → Kept.put toy_nvs k v n j ≡ n j
    toy_elsewhere j k (str v) n h = put-elsewhere j k (str v) n h
    toy_elsewhere j k (u8 v) n h = put-elsewhere j k (u8 v) n h
    toy_elsewhere j k (i16 v) n h = put-elsewhere j k (i16 v) n h
    toy_elsewhere j k (u16 v) n h = put-elsewhere j k (u16 v) n h

abbrev pub toy_numbers : Numbers ℕ
toy_numbers = record {
  to_int = λ bs. get_or (parse_signed bs) (pos 0);
  to_float = λ bs. get_or (parse_unsigned 1000000 bs) 0;
  fixed_4 = show;
  two_fifths = 0;
}

pub toy_numbers-ReadsNumerals : ReadsNumerals toy_numbers
toy_numbers-ReadsNumerals a h k = rw (parse_signed-show_signed a (h, k)) refl

abbrev pub toy_firmware : Firmware Flash ℕ
toy_firmware = record { nvs = toy_nvs; num = toy_numbers; live_query = λ name. codes "0" }

-- A computer with one file, and what is in it.
abbrev pub Disk : Type 0
Disk = Bytes

abbrev pub blank : Disk
blank = []

-- A device as it leaves the factory.
abbrev pub fresh : Device Flash ℕ
fresh = record { cfg = defaults toy_numbers; store = λ k. none }

pub default-IsValid : IsValid whole (default whole)
unfolding default
default-IsValid = ground arith

pub default-Fits : Fits toy_numbers whole (default whole)
unfolding default
default-Fits = ground arith

pub default-HasLineValues : HasLineValues whole (default whole)
unfolding default to_set_commands show show_signed trim_end is_whitespace show_protocol show_gnss
    show_storage bool_str
default-HasLineValues = ground arith

pub default-ComesBack : ComesBack toy_numbers whole (codes "0") (default whole)
default-ComesBack = record {
  valid = default-IsValid;
  fits = default-Fits;
  line_values = default-HasLineValues;
  printed = unfold default show as_bytes parse_unsigned in refl;
  sendable = unfold default trim is_whitespace parse_unsigned in ground arith;
}

pub default-HasDumpLines :
    HasDumpLines Disk toy_firmware whole (λ s. s) 100 (codes "0") (default whole)
unfolding default to_set_commands show show_signed trim is_whitespace show_protocol show_gnss
    show_storage bool_str line_of as_bytes is_dump_end eq_ignore_ascii_case
default-HasDumpLines = ground arith

pub default-IsSavable : IsSavable toy_numbers (kept_config toy_numbers whole (default whole))
unfolding kept_config default show as_bytes parse_unsigned show_protocol show_gnss show_storage
default-IsSavable = ground arith
