-- ===== src/Web/Steps/Consistent.antt =====
-- src/main.ts: a page that fits what the store says, and what drawing it and closing the wizard give.
use freematics_gui.Base.{
  true, false, not, is_empty, Option, none, some, ◌≡◌, ◌≢◌, refl, if◌then◌else◌, arith,
}
use freematics_gui.Text.{Text}
use freematics_gui.Web.{AppState, connect_page, dashboard_page}
use freematics_gui.Web.Shell.{
  Shell, DashboardView, FlashWizardView, add_dashboard, add_view, add_wizard, redraw, resume,
  notify_with, on_close, unmount_views, change,
}
use freematics_gui.Web.Steps.Page.{redraw-SameState}

module _ {C L : Type 0} where
  -- The store by itself: connected with a port and a configuration, on the dashboard; or not.
  pub record IsKnown (st : AppState C L) : Type 0 where
    pub view : st.view ≡ (if st.connected then dashboard_page else connect_page)
    pub port : st.connected ≡ true → st.port_path ≢ none
    pub config : st.connected ≡ true → st.config ≢ none

  -- The views that are there fit the store.
  pub record IsFitting (s : Shell C L) : Type 0 where
    pub connect : s.connect_view ≢ none → s.state.connected ≡ false
    pub dashboard :
        (v : DashboardView C)
        → s.dashboard_view ≡ some v
        → (s.state.connected ≡ true) × (s.state.port_path ≡ some v.port)
    pub wizard :
        (w : FlashWizardView)
        → s.wizard_view ≡ some w
        → (s.state.flash_wizard_open ≡ true)
          × (s.state.port_path ≡ some w.port)
          × (w.skip_backup ≡ not s.state.connected)

  -- The views that the store calls for are there.
  pub record IsDrawn (s : Shell C L) : Type 0 where
    pub connect : s.state.connected ≡ false → s.connect_view ≢ none
    pub dashboard :
        (p : Text)
        → s.state.connected ≡ true
        → s.state.port_path ≡ some p
        → is_empty p ≡ false
        → s.dashboard_view ≢ none
    pub wizard :
        (p : Text)
        → s.state.flash_wizard_open ≡ true
        → s.state.port_path ≡ some p
        → is_empty p ≡ false
        → s.wizard_view ≢ none

  pub record IsConsistent (s : Shell C L) : Type 0 where
    pub known : IsKnown s.state
    pub fitting : IsFitting s
    pub drawn : IsDrawn s

  redraw-IsKnown : (s : Shell C L) → IsKnown s.state → IsKnown (redraw s).state
  redraw-IsKnown s k = rw (redraw-SameState s).state k

  redraw-IsFitting :
      (s : Shell C L) → IsKnown s.state → s.wizard_view ≡ none → IsFitting s → IsFitting (redraw s)
  unfolding redraw resume add_wizard add_view add_dashboard
  redraw-IsFitting s k none_w f = ground arith

  redraw-IsDrawn : (s : Shell C L) → IsKnown s.state → s.wizard_view ≡ none → IsDrawn (redraw s)
  unfolding redraw resume add_wizard add_view add_dashboard
  redraw-IsDrawn s k none_w = ground arith

  redraw-IsConsistent :
      (s : Shell C L)
      → IsKnown s.state
      → s.wizard_view ≡ none
      → IsFitting s
      → IsConsistent (redraw s)
  redraw-IsConsistent s k none_w f = record {
    known = redraw-IsKnown s k;
    fitting = redraw-IsFitting s k none_w f;
    drawn = redraw-IsDrawn s k none_w;
  }

  blank-IsFitting : (s : Shell C L) → s.wizard_view ≡ none → IsFitting (unmount_views s)
  blank-IsFitting s none_w = record {
    connect = λ h. absurd (h refl);
    dashboard = λ v e. cc;
    wizard = λ w e. cc;
  }

  -- Closing the wizard keeps what is known.
  pub on_close-IsConsistent : (s : Shell C L) → IsKnown s.state → IsConsistent (on_close s)
  on_close-IsConsistent s k =
      redraw-IsConsistent _ (record { view = k.view; port = k.port; config = k.config }) refl
        (blank-IsFitting _ refl)

  -- Whatever was shown before, a change of the store shows a page that is consistent with it.
  notify_with-IsConsistent :
      (o : Option FlashWizardView) (s : Shell C L)
      → s.wizard_view ≡ o
      → IsKnown s.state
      → IsConsistent (notify_with o s)
  unfolding notify_with
  notify_with-IsConsistent none s e k = redraw-IsConsistent _ k e (blank-IsFitting s e)
  notify_with-IsConsistent (some w) s e k =
      let c = on_close-IsConsistent (unmount_views s) k in
      redraw-IsConsistent _ c.known refl (record {
        connect = c.fitting.connect;
        dashboard = c.fitting.dashboard;
        wizard = λ w' e'. cc;
      })

  pub change-IsConsistent :
      (f : AppState C L → AppState C L) (s : Shell C L)
      → IsKnown (f s.state)
      → IsConsistent (change f s)
  change-IsConsistent f s k = notify_with-IsConsistent s.wizard_view _ refl k

  pub disconnected-IsKnown :
      (st : AppState C L) → st.view ≡ connect_page → st.connected ≡ false → IsKnown st
  disconnected-IsKnown st v c = ground arith
