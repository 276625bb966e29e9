-- ===== src/Tests/Configs.antt =====
-- The configuration: its theorems at concrete inputs.
use freematics_gui.Base.{ℕ, ◌≡◌, refl, List, [], ◌∷◌, map, arith}
use freematics_gui.Base.Int.{negsuc}
use freematics_gui.Base.Result.{ok}
use freematics_gui.Text.{Text, codes, trim, is_whitespace, split_once}
use freematics_gui.Text.Decimal.{show, parse_unsigned, parse_signed}
use freematics_gui.Protocol.Config.{
  DeviceConfig, Field, default, from_dump_lines, apply_lines, apply_line, assign, field_of,
  parse_u16, parse_i32, to_set_commands,
}
use freematics_gui.Protocol.Config.Lines.{line_of}
use freematics_gui.Protocol.Config.LastWins.{SameAt, given, last_value, from_dump_lines-last_value}
use freematics_gui.Protocol.Config.RoundTrip.{IsSendable, from_dump_lines-to_set_commands}
use freematics_gui.Tests.Toys.{whole}

abbrev chatter : List Text
chatter =
    codes "[CELL] activating..."
    ∷ codes " ssid = home "
    ∷ codes "srv_port=70000"
    ∷ codes "jumpstart_v=-5"
    ∷ codes "wifi_ssid=van"
    ∷ []

default-IsSendable : IsSendable whole (default whole)
unfolding default trim is_whitespace show parse_unsigned
default-IsSendable = ground arith

from_dump_lines-to_set_commands_example :
    from_dump_lines whole (map line_of (to_set_commands whole (default whole))) ≡ ok (default whole)
from_dump_lines-to_set_commands_example =
    from_dump_lines-to_set_commands whole (default whole) default-IsSendable

from_dump_lines-last_value_example :
    (cfg : DeviceConfig ℕ) × (from_dump_lines whole chatter ≡ ok cfg)
    × ((f : Field) → SameAt f cfg (given whole f (last_value f chatter) (default whole)))
from_dump_lines-last_value_example = from_dump_lines-last_value whole chatter

-- A port that is out of range is read as 0, and the later of two keys of a field wins.
from_dump_lines-chatter :
    from_dump_lines whole chatter
    ≡ ok (record (default whole) {
      wifi_ssid = codes "van";
      server_port = 0;
      jumpstart_voltage = negsuc 4;
    })
unfolding from_dump_lines apply_lines apply_line assign field_of trim is_whitespace split_once
    parse_u16 parse_i32 parse_unsigned parse_signed default
from_dump_lines-chatter = refl
