-- ===== src/Tests/Refusals.antt =====
-- The firmware's refusals, its two commands in one value and its readings at concrete inputs.
use freematics_gui.Base.{ℕ, ◌≡◌, refl, List, All, [], ◌∷◌, ◌++◌, inl, inr, arith}
use freematics_gui.Base.Int.{pos}
use freematics_gui.Text.{Text, codes, text_eq, trim_end, is_whitespace}
use freematics_gui.Text.Utf8.{as_bytes}
use freematics_gui.Text.Decimal.{show, show_signed}
use freematics_gui.Protocol.Port.{done, failed}
use freematics_gui.Protocol.Modes.{show_protocol, show_gnss, show_storage, bool_str}
use freematics_gui.Protocol.Config.{DeviceConfig, default, to_set_commands}
use freematics_gui.Protocol.Client.Ack.{set}
use freematics_gui.Protocol.Client.Live.{LiveData, get_live_data}
use freematics_gui.Backup.Schema.{BackupFile}
use freematics_gui.Backup.Import.{import_config}
use freematics_gui.Backup.Import.Validity.{IsValid}
use freematics_gui.Device.Settings
use freematics_gui.Device.Settings.Halted.{IsTooWide}
use freematics_gui.Device.Handler.{handle_command_line, live_names}
use freematics_gui.Device.Link.{Line, idle, link_client}
use freematics_gui.Device.Link.Commands.{heard}
use freematics_gui.Device.Link.Imports.{HasLineValues}
use freematics_gui.Device.Link.Refusals.{import_config-halted}
use freematics_gui.Device.Link.Injection.{set-injects}
use freematics_gui.Device.Link.Readings.{Reads, IsLiveOf, get_live_data-over_link}
use freematics_gui.Tests.Toys.{whole, sample}
use freematics_gui.Tests.Bench.{
  Flash, toy_numbers, toy_numbers-ReadsNumerals, toy_firmware, Disk, blank, fresh,
}

-- A backup with an interval of 40000 seconds.
abbrev wide : DeviceConfig ℕ
wide = record (default whole) { server_sync_interval = pos 40000 }

abbrev wide_backup : BackupFile ℕ
wide_backup = record sample { config = wide }

wide-IsValid : IsValid whole wide
unfolding default
wide-IsValid = ground arith

wide-IsTooWide : IsTooWide toy_numbers whole wide
unfolding default
wide-IsTooWide = record {
  server_port_fits = omega arith;
  jumpstart_fits = omega arith;
  cooling_fits = omega arith;
  gnss_reset_interval = omega arith;
  max_obd_interval = omega arith;
  sync_interval = omega arith;
  ping_interval = omega arith;
  wide = inr (inr (inl (omega arith)));
}

wide-HasLineValues : HasLineValues whole wide
unfolding default to_set_commands show show_signed trim_end is_whitespace show_protocol show_gnss
    show_storage bool_str
wide-HasLineValues = ground arith

import_config-halted_example :
    (reason : Text) × (t : Line Flash ℕ Disk) × (import_config whole
        (link_client Disk toy_firmware (λ s. s) 100)
        wide_backup
        []
        (idle blank fresh [])
      ≡ (failed reason, t))
    × (t.device.cfg.apn ≡ as_bytes wide.cell_apn)
    × (t.device.store ≡ fresh.store)
import_config-halted_example =
    import_config-halted Disk toy_firmware whole (λ s. s) 100 wide_backup [] blank fresh []
      (omega arith) toy_numbers-ReadsNumerals wide-IsValid wide-IsTooWide wide-HasLineValues

-- The name of a network that restarts the device.
set-injects_example :
    set
      (link_client Disk toy_firmware (λ s. s) 100)
      (codes "ssid")
      (codes "van\nREBOOT")
      (idle blank fresh [])
    ≡ (let (d, printed) =
          handle_command_line toy_firmware
            (as_bytes (codes "REBOOT") ++ b'\r' ∷ [])
            (record fresh { cfg = record fresh.cfg { ssid = as_bytes (codes "van") } }) in
        (done tt, idle blank d (b'\n' ∷ printed)))
set-injects_example =
    set-injects Disk toy_firmware (λ s. s) 100 (codes "ssid") (codes "van") (codes "REBOOT") blank
      fresh [] (record fresh.cfg { ssid = as_bytes (codes "van") }) (omega arith)
      (unfold is_whitespace in ground arith) (unfold trim_end is_whitespace in ground arith)
      (ground arith) (unfold Settings.set text_eq in refl)

zero-Reads : (names : List Text) → All (Reads Disk toy_firmware (λ s. s) 100 (λ n. codes "0")) names
unfolding as_bytes
zero-Reads [] = tt
zero-Reads (name ∷ names) = ((refl, (omega arith, cc, ground arith, omega arith)), zero-Reads names)

get_live_data-over_link_example :
    (live : LiveData ℕ ℕ) × (get_live_data whole whole
        (link_client Disk toy_firmware (λ s. s) 100)
        (idle blank fresh [])
      ≡ (done live, heard blank fresh))
    × IsLiveOf whole whole (λ n. codes "0") live
get_live_data-over_link_example =
    get_live_data-over_link Disk toy_firmware (λ s. s) 100 whole whole (λ n. codes "0") blank fresh
      [] (zero-Reads live_names)
