-- ===== src/Tests/Windows.antt =====
-- The window of the program, used by hand: a first-run setup, and a restore that is left early.
use freematics_gui.Base.{◌∷◌, ℕ, ◌≡◌, refl, true, false, [], none, some}
use freematics_gui.Text.{Text, codes}
use freematics_gui.Web.{connect, begin_setup, open_flash_wizard}
use freematics_gui.Web.Shell.{
  refreshing, refresh_answered, Shell, ConnectView, FlashWizardView, start, change, on_connect,
  connect_failed, done, redraw, resume, add_view, add_dashboard, add_wizard, set_polling,
  stop_connect, notify_with, set_connecting, set_error,
}
use freematics_gui.Web.Steps.{
  Step, press_connect, press_set_up, press_flash, connected, refused, Reach, here, later,
}
use freematics_gui.Web.Steps.Consistent.{IsConsistent}
use freematics_gui.Web.Steps.Invariant.{Reach-IsConsistent}
use freematics_gui.Web.Steps.Timers.{IsLeaked}
use freematics_gui.Web.Steps.Leaks.{done-leaks}
use freematics_gui.Web.Steps.Crossing.{done-crosses}

abbrev Window : Type 0
Window = Shell ℕ (Unit {0})

abbrev usb : Text
usb = codes "usb0"

abbrev asked : Window
asked = on_connect usb start

-- The device does not answer, and the user sets it up.
abbrev set_up : Window
set_up = change (begin_setup usb) (connect_failed usb [] (record asked { pending = [] }))

abbrev setup_wizard : FlashWizardView
setup_wizard = record { port = usb; backup = none; skip_backup = true }

abbrev first_view : ConnectView
first_view = record { number = 0; connecting = none; error = none }

abbrev failed_view : ConnectView
failed_view = record { number = 0; connecting = none; error = some (usb, []) }

Reach-set_up : Reach start set_up
unfolding redraw resume add_view add_wizard add_dashboard set_polling stop_connect notify_with
    set_connecting set_error
Reach-set_up =
    later (later (later here (press_connect first_view usb refl)) (refused [] [] usb [] refl))
      (press_set_up failed_view usb [] refl refl)

set_up-shown : set_up.wizard_view ≡ some setup_wizard
unfolding redraw resume add_view add_wizard add_dashboard set_polling stop_connect notify_with
    set_connecting set_error
set_up-shown = refl

done-leaks_example : IsLeaked set_up.created (done setup_wizard set_up)
done-leaks_example =
    done-leaks set_up (done setup_wizard set_up) setup_wizard Reach-set_up set_up-shown refl here

Reach-IsConsistent_example : IsConsistent set_up
Reach-IsConsistent_example = Reach-IsConsistent Reach-set_up

-- The device answers, and the user opens the wizard.
abbrev joined : Window
joined = change (connect usb (some 7)) (record asked { pending = [] })

abbrev flashing : Window
flashing = change (open_flash_wizard none) joined

abbrev flash_wizard : FlashWizardView
flash_wizard = record { port = usb; backup = none; skip_backup = false }

Reach-flashing : Reach start flashing
unfolding redraw resume add_view add_wizard add_dashboard set_polling stop_connect notify_with
    set_connecting set_error
Reach-flashing =
    later (later (later here (press_connect first_view usb refl)) (connected [] [] usb 7 refl))
      (press_flash (record { number = 1; port = usb; config = 7 }) refl)

flashing-shown : (flashing.wizard_view ≡ some flash_wizard) × (flashing.state.port_path ≡ some usb)
unfolding redraw resume add_view add_wizard add_dashboard set_polling stop_connect notify_with
    set_connecting set_error
flashing-shown = (refl, refl)

done-crosses_example :
    (u : Window) × Reach flashing u
    × (u.state.connected ≡ true)
    × (u.state.port_path ≡ some (codes "usb1"))
    × (u.state.config ≡ some 8)
    × (u.pending ≡ refreshing usb ∷ flashing.pending)
    × (let t = refresh_answered usb 7 (record u { pending = flashing.pending }) in
        Step u t
        × (t.state.connected ≡ true)
        × (t.state.port_path ≡ some (codes "usb1"))
        × (t.state.config ≡ some 7))
done-crosses_example =
    done-crosses flashing flash_wizard usb (codes "usb1") 7 8 Reach-flashing flashing-shown.0 refl
      flashing-shown.1 refl
