-- ===== src/Web.antt =====
-- src/lib/state.ts: what the window knows, and its changes. A change that the source ends with
-- `emit()` is followed by `notify` of Web/Shell.antt.
pub mod Shell
pub mod Steps
pub mod Wizard
use freematics_gui.Base.{Bool, true, false, Option, none, some}
use freematics_gui.Text.{Text}

pub data AppView : Type 0 where
  connect_page : AppView
  dashboard_page : AppView

pub data DashboardTab : Type 0 where
  live : DashboardTab
  network : DashboardTab
  server : DashboardTab
  hardware : DashboardTab
  backup : DashboardTab

-- `C` is the configuration of a device, `L` its live data; `none` is `null`.
pub record AppState (C L : Type 0) : Type 0 where
  pub port_path : Option Text
  pub connected : Bool
  pub config : Option C
  pub live_data : Option L
  pub view : AppView
  pub tab : DashboardTab
  pub flash_wizard_open : Bool
  pub backup_path : Option Text
  pub device_restarting : Bool

module _ {C L : Type 0} where
  abbrev pub initial : AppState C L
  initial = record {
    port_path = none;
    connected = false;
    config = none;
    live_data = none;
    view = connect_page;
    tab = live;
    flash_wizard_open = false;
    backup_path = none;
    device_restarting = false;
  }

  abbrev pub connect : Text → Option C → AppState C L → AppState C L
  connect port config s = record s {
    port_path = some port;
    connected = true;
    config = config;
    view = dashboard_page;
    tab = live;
  }

  abbrev pub disconnect : AppState C L → AppState C L
  disconnect s = record s {
    port_path = none;
    connected = false;
    config = none;
    live_data = none;
    view = connect_page;
  }

  -- Also `setConfigQuiet`, which `emit()` does not follow.
  abbrev pub set_config : C → AppState C L → AppState C L
  set_config c s = record s { config = some c }

  abbrev pub set_live_data : L → AppState C L → AppState C L
  set_live_data l s = record s { live_data = some l }

  abbrev pub set_view : AppView → AppState C L → AppState C L
  set_view v s = record s { view = v }

  abbrev pub set_tab : DashboardTab → AppState C L → AppState C L
  set_tab t s = record s { tab = t }

  abbrev pub open_flash_wizard : Option Text → AppState C L → AppState C L
  open_flash_wizard path s = record s { flash_wizard_open = true; backup_path = path }

  abbrev pub begin_setup : Text → AppState C L → AppState C L
  begin_setup port s = record s {
    port_path = some port;
    connected = false;
    view = connect_page;
    flash_wizard_open = true;
    backup_path = none;
  }

  abbrev pub close_flash_wizard : AppState C L → AppState C L
  close_flash_wizard s = record s { flash_wizard_open = false; backup_path = none }
