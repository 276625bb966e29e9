-- ===== src/Web/Steps.antt =====
-- src/main.ts and its views: what may happen to the shell at a time. The user presses what the page
-- shows, or an `await` comes back with what the device answered.
pub mod Page
pub mod Consistent
pub mod Patch
pub mod Invariant
pub mod Timers
pub mod Leaks
pub mod Crossing
use freematics_gui.Base.{ℕ, ◌≡◌, Bool, true, List, ◌∷◌, ◌++◌, Option, none, some}
use freematics_gui.Text.{Text}
use freematics_gui.Web.{connect, disconnect, set_config, open_flash_wizard, begin_setup}
use freematics_gui.Web.Shell.{
  Shell, ConnectView, DashboardView, FlashWizardView, Task, connecting_to, refreshing, applying,
  importing, start, change, on_connect, connect_failed, on_close, done, set_error, keep_config,
  keep_pending, refresh_answered,
}

module _ {C L : Type 0} where
  pub data Step (s : Shell C L) : Shell C L → Type 0 where
    press_connect :
        (v : ConnectView) (port : Text) → s.connect_view ≡ some v → Step s (on_connect port s)
    press_refresh :
        (v : ConnectView)
        → s.connect_view ≡ some v
        → Step s (record s { connect_view = set_error none s.connect_view })
    press_set_up :
        (v : ConnectView) (port message : Text)
        → s.connect_view ≡ some v
        → v.error ≡ some (port, message)
        → Step s (change (begin_setup port) s)
    press_disconnect : s.state.connected ≡ true → Step s (change disconnect s)
    press_flash :
        (v : DashboardView C)
        → s.dashboard_view ≡ some v
        → Step s (change (open_flash_wizard none) s)
    press_apply :
        (v : DashboardView C) (c : C)
        → s.dashboard_view ≡ some v
        → Step s (record s { pending = applying v.number v.port c ∷ s.pending })
    press_import :
        (v : DashboardView C)
        → s.dashboard_view ≡ some v
        → Step s (record s { pending = importing v.number v.config ∷ s.pending })
    press_cancel : (w : FlashWizardView) → s.wizard_view ≡ some w → Step s (on_close s)
    press_done : (w : FlashWizardView) → s.wizard_view ≡ some w → Step s (done w s)
    connected :
        (before after : List (Task C)) (port : Text) (c : C)
        → s.pending ≡ before ++ connecting_to port ∷ after
        → Step s (change (connect port (some c)) (record s { pending = before ++ after }))
    refused :
        (before after : List (Task C)) (port message : Text)
        → s.pending ≡ before ++ connecting_to port ∷ after
        → Step s (connect_failed port message (record s { pending = before ++ after }))
    refreshed :
        (before after : List (Task C)) (port : Text) (c : C)
        → s.pending ≡ before ++ refreshing port ∷ after
        → Step s (refresh_answered port c (record s { pending = before ++ after }))
    applied :
        (before after : List (Task C)) (i : ℕ) (port : Text) (c : C)
        → s.pending ≡ before ++ applying i port c ∷ after
        → Step s (record s {
          state = set_config c s.state;
          dashboard_view = keep_config i c s.dashboard_view;
          pending = keep_pending i c (before ++ after);
        })
    -- `onImported` passes on what the dashboard keeps, not what was imported.
    imported :
        (before after : List (Task C)) (i : ℕ) (c : C)
        → s.pending ≡ before ++ importing i c ∷ after
        → Step s (record s { state = set_config c s.state; pending = before ++ after })
    import_failed :
        (before after : List (Task C)) (i : ℕ) (c : C)
        → s.pending ≡ before ++ importing i c ∷ after
        → Step s (record s { pending = before ++ after })
    refresh_failed :
        (before after : List (Task C)) (port : Text)
        → s.pending ≡ before ++ refreshing port ∷ after
        → Step s (record s { pending = before ++ after })
    apply_failed :
        (before after : List (Task C)) (i : ℕ) (port : Text) (c : C)
        → s.pending ≡ before ++ applying i port c ∷ after
        → Step s (record s { pending = before ++ after })
    restarting : (b : Bool) → Step s (record s { state = record s.state { device_restarting = b } })

  pub data Reach (s : Shell C L) : Shell C L → Type 0 where
    here : Reach s s
    later : {t u : Shell C L} → Reach s t → Step t u → Reach s u
