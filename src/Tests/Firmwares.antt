-- ===== src/Tests/Firmwares.antt =====
-- The application and the firmware at a concrete configuration.
use freematics_gui.Base.{ℕ, ◌≡◌, refl, [], none, arith}
use freematics_gui.Text.{codes, is_whitespace, trim_end}
use freematics_gui.Text.Utf8.{as_bytes}
use freematics_gui.Protocol.Port.{done}
use freematics_gui.Protocol.Client.Dump.{dump_config}
use freematics_gui.Protocol.Config.{default}
use freematics_gui.Protocol.Client.Ack.{set, reboot}
use freematics_gui.Backup.Schema.{new_backup}
use freematics_gui.Backup.Import.{import_config, with_warnings, hash_warnings}
use freematics_gui.Device.Settings
use freematics_gui.Device.Settings.{defaults}
use freematics_gui.Device.Settings.Sent.{kept_config}
use freematics_gui.Device.Link.Survival.{dump_config-reboot}
use freematics_gui.Device.Nvs.{save}
use freematics_gui.Device.Link.{Line, idle, link_client}
use freematics_gui.Device.Link.Commands.{heard, set_end, set-over_link}
use freematics_gui.Device.Link.Imports.{import_config-over_link}
use freematics_gui.Tests.Toys.{whole, sample}
use freematics_gui.Tests.Bench.{
  Flash, toy_nvs, toy_nvs-Stores, toy_numbers, toy_numbers-ReadsNumerals, toy_firmware, Disk, blank,
  fresh, default-IsValid, default-Fits, default-HasLineValues, default-ComesBack,
  default-HasDumpLines, default-IsSavable,
}

-- A mode that the device does not know is refused.
set-over_link_example :
    set
      (link_client Disk toy_firmware (λ s. s) 100)
      (codes "gnss")
      (codes "radar")
      (idle blank fresh [])
    ≡ set_end Disk toy_firmware
        (λ s. s)
        100
        (codes "gnss")
        (codes "radar")
        blank
        fresh
        (Settings.set toy_numbers (codes "gnss") (as_bytes (codes "radar")) (defaults toy_numbers))
set-over_link_example =
    set-over_link Disk toy_firmware (λ s. s) 100 (codes "gnss") (codes "radar")
      (idle blank fresh []) (omega arith) refl (unfold is_whitespace in ground arith)
      (unfold trim_end is_whitespace in ground arith)

import_config-over_link_example :
    import_config whole
      (link_client Disk toy_firmware (λ s. s) 100)
      sample
      (codes "ab")
      (idle blank fresh [])
    ≡ (
      done (with_warnings whole (hash_warnings whole sample (codes "ab"))),
      heard blank (record {
        cfg = kept_config toy_numbers whole (default whole);
        store =
            save toy_nvs toy_numbers (kept_config toy_numbers whole (default whole)) (λ k. none);
      }),
    )
unfolding new_backup default
import_config-over_link_example =
    import_config-over_link Disk toy_firmware whole (λ s. s) 100 sample (codes "ab") blank fresh []
      (omega arith) toy_numbers-ReadsNumerals default-IsValid default-Fits default-HasLineValues

dump_config-reboot_example :
    (s : Line Flash ℕ Disk) × (t : Line Flash ℕ Disk) × (import_config whole
        (link_client Disk toy_firmware (λ s. s) 100)
        sample
        (codes "ab")
        (idle blank fresh [])
      ≡ (done (with_warnings whole (hash_warnings whole sample (codes "ab"))), s))
    × (reboot (link_client Disk toy_firmware (λ s. s) 100) s ≡ (done tt, t))
    × (dump_config (link_client Disk toy_firmware (λ s. s) 100) whole t ≡ (done (default whole), t))
unfolding new_backup default
dump_config-reboot_example =
    dump_config-reboot Disk toy_firmware whole (λ s. s) 100 (codes "0") sample (codes "ab") blank
      fresh [] (omega arith) toy_numbers-ReadsNumerals toy_nvs-Stores default-ComesBack
      default-HasDumpLines default-IsSavable
