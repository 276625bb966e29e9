-- ===== src/Tests/Endings.antt =====
-- A device that has a bounded amount to say, and the calls on it.
use freematics_gui.Base.{ℕ, ◌<◌, ◌≤◌, ◌≡◌, ◌≢◌, arith, List, [], ◌∷◌, length}
use freematics_gui.Text.{codes}
use freematics_gui.Text.Utf8.{as_bytes}
use freematics_gui.Protocol.Port.{Read, byte, done, spinning}
use freematics_gui.Protocol.Client.Returns.{IsFinite}
use freematics_gui.Protocol.Client.Dump.{dump_config}
use freematics_gui.Protocol.Client.Dump.Returns.{dump_config-returns}
use freematics_gui.Protocol.Client.Live.{LiveData, get_live_data}
use freematics_gui.Protocol.Client.Live.Returns.{get_live_data-returns}
use freematics_gui.Backup.Import.{import_config}
use freematics_gui.Backup.Import.Returns.{import_config-returns}
use freematics_gui.Tests.Toys.{whole, script_client, says, next_read, after_read, sample}

next_read-length : (s : List Read) (b : ℕ) → next_read s ≡ byte b → length (after_read s) < length s
next_read-length [] b h = cc
next_read-length (r ∷ rs) b h = omega arith

length-after_read : (s : List Read) → length (after_read s) ≤ length s
length-after_read [] = omega arith
length-after_read (r ∷ rs) = omega arith

abbrev script-IsFinite : IsFinite script_client
script-IsFinite = record {
  left = length;
  read_byte = next_read-length;
  read_le = length-after_read;
  written = λ bs s h. h;
  flushed = λ s h. h;
  timed = λ ms s h. h;
  cleared = λ s h. h;
  clocked = λ s h. h;
  slept = λ ms s h. h;
}

abbrev chatter : List Read
chatter = says (codes "[BUF] 1/8\r\napn=x\r\n12")

chatter_short : length chatter < 100
unfolding as_bytes
chatter_short = omega arith

import_config-returns_example :
    (import_config whole script_client sample (codes "ab") chatter).0 ≢ spinning
import_config-returns_example =
    import_config-returns whole script_client script-IsFinite sample (codes "ab") chatter
      chatter_short

dump_config-returns_example : (dump_config script_client whole chatter).0 ≢ spinning
dump_config-returns_example =
    dump_config-returns script_client script-IsFinite whole chatter chatter_short

get_live_data-returns_example :
    (d : LiveData ℕ ℕ) × ((get_live_data whole whole script_client chatter).0 ≡ done d)
get_live_data-returns_example =
    get_live_data-returns whole whole script_client script-IsFinite chatter chatter_short
