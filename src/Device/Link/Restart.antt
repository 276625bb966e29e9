-- ===== src/Device/Link/Restart.antt =====
-- protocol/client.rs, `reboot`, over the link to the device.
use freematics_gui.Base.{ℕ, ◌<◌, ◌≡◌, refl, true, [], arith}
use freematics_gui.Base.Result.{ok}
use freematics_gui.Text.{Text, codes, text_eq, eq_ignore_ascii_case, trim, is_whitespace}
use freematics_gui.Text.Utf8.{Bytes}
use freematics_gui.Protocol.Port.{done}
use freematics_gui.Protocol.Client.Ack.{reboot, is_answer, is_ok_line}
use freematics_gui.Protocol.Client.Answers.{reboot-answered}
use freematics_gui.Device.Strings
use freematics_gui.Device.Strings.{trim_front, trim_back, to_upper_case, drop_cr}
use freematics_gui.Device.Nvs.{load}
use freematics_gui.Device.Handler.{
  Device, Firmware, process_serial, handle_command_line, command_line,
}
use freematics_gui.Device.Link.{idle, link, link_client}
use freematics_gui.Device.Link.Commands.{heard, answer-IsLine, answer-SendsInTime}

module _ {N F : Type 0} (X : Type 0) (fw : Firmware N F) (debug : Text → Text) (fuel : ℕ) where
  abbrev restarted : Device N F → Device N F
  restarted d = record d { cfg = load fw.nvs fw.num d.store }

  flush_reboot :
      (x : X) (d : Device N F)
      → (link X fw).flush
          (record { device = d; to_device = codes "REBOOT\r\n"; to_host = []; beside = x })
        ≡ (ok tt, idle x (restarted d) (codes "OK\r\n"))
  unfolding process_serial handle_command_line command_line to_upper_case text_eq Strings.trim
      trim_front trim_back drop_cr
  flush_reboot x d = refl

  -- A restart over the link is acknowledged, and the device has what its flash holds.
  pub reboot-over_link :
      (x : X) (d : Device N F) (out : Bytes)
      → 3 < fuel
      → reboot (link_client X fw debug fuel) (idle x d out) ≡ (done tt, heard x (restarted d))
  unfolding is_answer is_ok_line eq_ignore_ascii_case trim is_whitespace
  reboot-over_link x d out h =
      reboot-answered (link_client X fw debug fuel) [] (codes "OK") (idle x d out) (idle x d out)
        (idle x d [])
        (record { device = d; to_device = codes "REBOOT\r\n"; to_host = []; beside = x })
        (idle x (restarted d) (codes "OK\r\n")) (heard x (restarted d)) (ok tt) refl refl refl
        (flush_reboot x d) tt (omega arith) (answer-IsLine X fw debug fuel true h) refl
        (answer-SendsInTime X fw debug fuel true x (restarted d))
