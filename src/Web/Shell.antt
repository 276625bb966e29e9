-- ===== src/Web/Shell.antt =====
-- src/main.ts: the shell of the window, and the handlers that it gives to its views. `notify` is the
-- listener of the state store, the only one that the program adds.
use freematics_gui.Base.{
  ℕ, ◌+◌, ◌==◌, Bool, true, false, not, ◌&&◌, if◌then◌else◌, is_empty, List, [], ◌∷◌, Option, none,
  some,
}
use freematics_gui.Text.{Text}
use freematics_gui.Commands.Threads.{update}
use freematics_gui.Web.{
  AppState, AppView, connect_page, dashboard_page, initial, set_config, close_flash_wizard,
}

-- Each view that is created has a number of its own.
pub record ConnectView : Type 0 where
  pub number : ℕ
  pub connecting : Option Text
  pub error : Option (Text × Text)  -- the port and the message

pub record DashboardView (C : Type 0) : Type 0 where
  pub number : ℕ
  pub port : Text
  pub config : C

pub record FlashWizardView : Type 0 where
  pub port : Text
  pub backup : Option Text
  pub skip_backup : Bool

-- What `await` has not yet come back from: getConfig of a connection, getConfig after a restore,
-- setConfig of a form in a dashboard, importConfig of its backup view. The last carries what the
-- dashboard keeps as its configuration, whether the dashboard is still shown or not.
pub data Task (C : Type 0) : Type 0 where
  connecting_to : Text → Task C
  refreshing : Text → Task C
  applying : ℕ → Text → C → Task C
  importing : ℕ → C → Task C

-- `created` is the number of the next view; a view is `running` while it has a timer.
pub record Shell (C L : Type 0) : Type 0 where
  pub state : AppState C L
  pub connect_view : Option ConnectView
  pub dashboard_view : Option (DashboardView C)
  pub wizard_view : Option FlashWizardView
  pub created : ℕ
  pub running : ℕ → Bool
  pub pending : List (Task C)

-- The conditions `if (port)`: neither null nor the empty string.
abbrev pub truthy : Option Text → Bool
truthy none = false
truthy (some t) = not (is_empty t)

-- A form that was applied is in the dashboard with that number, shown or not.
unfoldable pub keep_config :
    {C : Type 0} → ℕ → C → Option (DashboardView C) → Option (DashboardView C)
keep_config i c none = none
keep_config i c (some v) = some (if v.number == i then record v { config = c } else v)

unfoldable pub keep_pending : {C : Type 0} → ℕ → C → List (Task C) → List (Task C)
keep_pending i c [] = []
keep_pending i c (importing j old ∷ ts) =
    let rest = keep_pending i c ts in importing j (if j == i then c else old) ∷ rest
keep_pending i c (t ∷ ts) = t ∷ keep_pending i c ts

-- `pausePolling()` and `unmount()` of a dashboard stop its timers, `resumePolling()` starts them.
unfoldable pub set_polling : {C : Type 0} → Bool → Option (DashboardView C) → (ℕ → Bool) → ℕ → Bool
set_polling b none running = running
set_polling b (some v) running = update running v.number b

unfoldable pub stop_connect : Option ConnectView → (ℕ → Bool) → ℕ → Bool
stop_connect none running = running
stop_connect (some v) running = update running v.number false

unfoldable pub set_connecting : Option Text → Option ConnectView → Option ConnectView
set_connecting port none = none
set_connecting port (some v) =
    some (record v { connecting = port; error = if truthy port then none else v.error })

unfoldable pub set_error : Option (Text × Text) → Option ConnectView → Option ConnectView
set_error e none = none
set_error e (some v) = some (record v { error = e })

module _ {C L : Type 0} where
  -- `createConnectView` and `mount()`.
  abbrev pub add_connect_view : Shell C L → Shell C L
  add_connect_view s = record s {
    connect_view = some (record { number = s.created; connecting = none; error = none });
    created = s.created + 1;
    running = update s.running s.created true;
  }

  -- `createDashboardView`, which starts its timers.
  abbrev pub add_dashboard_view : Text → C → Shell C L → Shell C L
  add_dashboard_view port c s = record s {
    dashboard_view = some (record { number = s.created; port = port; config = c });
    created = s.created + 1;
    running = update s.running s.created true;
  }

  -- Without a port or a configuration the page only says "No device connected.".
  unfoldable pub add_dashboard : Option Text → Option C → Shell C L → Shell C L
  add_dashboard (some port) (some c) s =
      if not (is_empty port) then add_dashboard_view port c s else s
  add_dashboard (some port) none s = s
  add_dashboard none c s = s

  unfoldable pub add_view : AppView → Shell C L → Shell C L
  add_view connect_page s = add_connect_view s
  add_view dashboard_page s = add_dashboard s.state.port_path s.state.config s

  unfoldable pub add_wizard : Option Text → Shell C L → Shell C L
  add_wizard none s = s
  add_wizard (some port) s =
      if s.state.flash_wizard_open && not (is_empty port)
      then record s {
        running = set_polling false s.dashboard_view s.running;
        wizard_view = some (record {
          port = port;
          backup = s.state.backup_path;
          skip_backup = not s.state.connected;
        });
      }
      else s

  abbrev pub render : Shell C L → Shell C L
  render s = let t = add_view s.state.view s in add_wizard t.state.port_path t

  -- The end of the listener: after `render()`, polling goes on unless the wizard is open.
  unfoldable pub resume : Bool → Shell C L → Shell C L
  resume true s = s
  resume false s = record s { running = set_polling true s.dashboard_view s.running }

  unfoldable pub redraw : Shell C L → Shell C L
  redraw s = let t = render s in resume t.state.flash_wizard_open t

  -- The start of the listener.
  abbrev pub unmount_views : Shell C L → Shell C L
  unmount_views s = record s {
    connect_view = none;
    dashboard_view = none;
    running = set_polling false s.dashboard_view (stop_connect s.connect_view s.running);
  }

  -- The listener while no wizard is shown.
  abbrev pub notify_plain : Shell C L → Shell C L
  notify_plain s = redraw (unmount_views s)

  -- `onClose` of the wizard: `flashWizardView = null`, then a change that notifies the listener.
  abbrev pub on_close : Shell C L → Shell C L
  on_close s = notify_plain (record s { wizard_view = none; state = close_flash_wizard s.state })

  -- The listener. `unmount()` of a wizard closes it, so the listener runs again within itself, and
  -- then goes on.
  unfoldable pub notify_with : Option FlashWizardView → Shell C L → Shell C L
  notify_with none s = notify_plain s
  notify_with (some w) s = redraw (record (on_close (unmount_views s)) { wizard_view = none })

  abbrev pub notify : Shell C L → Shell C L
  notify s = notify_with s.wizard_view s

  -- A change of the store, as a method that ends with `emit()`.
  abbrev pub change : (AppState C L → AppState C L) → Shell C L → Shell C L
  change f s = notify (record s { state = f s.state })

  -- `onConnect` up to its `await`.
  abbrev pub on_connect : Text → Shell C L → Shell C L
  on_connect port s = record s {
    connect_view = set_connecting (some port) s.connect_view;
    pending = connecting_to port ∷ s.pending;
  }

  -- `onConnect` after it, when there is no configuration.
  abbrev pub connect_failed : Text → Text → Shell C L → Shell C L
  connect_failed port message s = record s {
    connect_view = set_error (some (port, message)) (set_connecting none s.connect_view);
  }

  -- `refreshConfigAfterRestore` up to its `await`.
  unfoldable pub refresh_config : Option Text → Shell C L → Shell C L
  refresh_config none s = s
  refresh_config (some port) s =
      if is_empty port then s else record s { pending = refreshing port ∷ s.pending }

  -- `refreshConfigAfterRestore` once the device at the port has answered; the port is not looked at.
  unfoldable pub refresh_answered : Text → C → Shell C L → Shell C L
  refresh_answered port c s = change (set_config c) s

  -- "Done" in the wizard: `onRestored` and `close()`, which does nothing the second time.
  unfoldable pub done : FlashWizardView → Shell C L → Shell C L
  done w s =
      if w.skip_backup
      then on_connect w.port (change close_flash_wizard s)
      else on_close (refresh_config s.state.port_path s)

  -- The program starts with the store as it is and one `render()`.
  abbrev pub start : Shell C L
  start = render (record {
    state = initial;
    connect_view = none;
    dashboard_view = none;
    wizard_view = none;
    created = 0;
    running = λ i. false;
    pending = [];
  })
