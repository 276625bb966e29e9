-- ===== src/Web/Steps/Page.antt =====
-- src/main.ts: what drawing the page keeps of the shell.
use freematics_gui.Base.{Option, none, some, ◌≡◌, refl, arith}
use freematics_gui.Text.{Text}
use freematics_gui.Web.{AppView, connect_page, dashboard_page}
use freematics_gui.Web.Shell.{Shell, add_dashboard, add_view, add_wizard, redraw, resume}

module _ {C L : Type 0} where
  -- What the shell knows of the device: its state, and what it waits for.
  pub record SameState (s t : Shell C L) : Type 0 where
    pub state : t.state ≡ s.state
    pub pending : t.pending ≡ s.pending

  add_view-SameState : (v : AppView) (s : Shell C L) → SameState s (add_view v s)
  unfolding add_view add_dashboard
  add_view-SameState connect_page s = record { state = refl; pending = refl }
  add_view-SameState dashboard_page s = ground arith

  add_wizard-SameState : (p : Option Text) (s : Shell C L) → SameState s (add_wizard p s)
  unfolding add_wizard
  add_wizard-SameState none s = record { state = refl; pending = refl }
  add_wizard-SameState (some p) s = ground arith

  pub redraw-SameState : (s : Shell C L) → SameState s (redraw s)
  unfolding redraw resume add_wizard add_view add_dashboard
  redraw-SameState s = ground arith
