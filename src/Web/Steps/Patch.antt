-- ===== src/Web/Steps/Patch.antt =====
-- src/main.ts: changes of the shell that draw no page.
use freematics_gui.Base.{
  ℕ, Bool, not, Option, none, some, ◌≡◌, ◌≢◌, ◌↔◌, List, refl, sym, ◌∙◌, ap, arith,
}
use freematics_gui.Text.{Text}
use freematics_gui.Web.Shell.{
  Shell, Task, ConnectView, DashboardView, set_connecting, set_error, keep_config,
}
use freematics_gui.Web.Steps.Consistent.{IsKnown, IsConsistent}

pub set_connecting_none :
    (port : Option Text) (o : Option ConnectView) → (set_connecting port o ≡ none) ↔ (o ≡ none)
unfolding set_connecting
set_connecting_none port none = (λ e. e, λ e. e)
set_connecting_none port (some v) = (λ e. cc, λ e. cc)

pub set_error_none :
    (e : Option (Text × Text)) (o : Option ConnectView) → (set_error e o ≡ none) ↔ (o ≡ none)
unfolding set_error
set_error_none e none = (λ q. q, λ q. q)
set_error_none e (some v) = (λ q. cc, λ q. cc)

module _ {C : Type 0} where
  pub keep_config-port :
      (i : ℕ) (c : C) (o : Option (DashboardView C)) (v : DashboardView C)
      → keep_config i c o ≡ some v
      → (v' : DashboardView C) × (o ≡ some v') × (v'.port ≡ v.port)
  unfolding keep_config
  keep_config-port i c none v e = cc
  keep_config-port i c (some v') v e = (v', refl, ground arith)

  pub keep_config-none :
      (i : ℕ) (c : C) (o : Option (DashboardView C)) → keep_config i c o ≡ none → o ≡ none
  unfolding keep_config
  keep_config-none i c none e = refl
  keep_config-none i c (some v) e = cc

module _ {C L : Type 0} where
  -- Views that changed in their place, and a store that differs only where no page is drawn for it.
  pub record IsPatch (s t : Shell C L) : Type 0 where
    pub known : IsKnown s.state → IsKnown t.state
    pub is_connected : t.state.connected ≡ s.state.connected
    pub port : t.state.port_path ≡ s.state.port_path
    pub is_open : t.state.flash_wizard_open ≡ s.state.flash_wizard_open
    pub connect : (t.connect_view ≡ none) ↔ (s.connect_view ≡ none)
    pub dashboard :
        (v : DashboardView C)
        → t.dashboard_view ≡ some v
        → (v' : DashboardView C) × (s.dashboard_view ≡ some v') × (v'.port ≡ v.port)
    pub no_dashboard : t.dashboard_view ≡ none → s.dashboard_view ≡ none
    pub wizard : t.wizard_view ≡ s.wizard_view

  pub IsPatch-IsConsistent : {s t : Shell C L} → IsPatch s t → IsConsistent s → IsConsistent t
  IsPatch-IsConsistent {s} {t} p c = record {
    known = p.known c.known;
    fitting = record {
      connect = λ h. p.is_connected ∙ c.fitting.connect (λ e. h (p.connect.1 e));
      dashboard = λ v e.
          let (v', e', same) = p.dashboard v e in
          let (on, at) = c.fitting.dashboard v' e' in
          (p.is_connected ∙ on, p.port ∙ at ∙ ap some same);
      wizard = λ w e.
          let (is_open, at, skip) = c.fitting.wizard w (sym p.wizard ∙ e) in
          (p.is_open ∙ is_open, p.port ∙ at, skip ∙ ap not (sym p.is_connected));
    };
    drawn = record {
      connect = λ e h. c.drawn.connect (sym p.is_connected ∙ e) (p.connect.0 h);
      dashboard = λ q e at h k.
          c.drawn.dashboard q (sym p.is_connected ∙ e) (sym p.port ∙ at) h (p.no_dashboard k);
      wizard =
          λ q e at h k. c.drawn.wizard q (sym p.is_open ∙ e) (sym p.port ∙ at) h (sym p.wizard ∙ k);
    };
  }

  -- A patch with the views, the wizard and the flags as they were.
  pub same_views :
      (s t : Shell C L)
      → t.state ≡ s.state
      → (t.connect_view ≡ none) ↔ (s.connect_view ≡ none)
      → t.dashboard_view ≡ s.dashboard_view
      → t.wizard_view ≡ s.wizard_view
      → IsPatch s t
  same_views s t e h d w = record {
    known = λ k. rw e k;
    is_connected = ap (λ st. st.connected) e;
    port = ap (λ st. st.port_path) e;
    is_open = ap (λ st. st.flash_wizard_open) e;
    connect = h;
    dashboard = λ v q. (v, sym d ∙ q, refl);
    no_dashboard = λ q. sym d ∙ q;
    wizard = w;
  }

  -- A store with another configuration.
  pub same_page :
      (s t : Shell C L) (o : Option C) (b : Bool)
      → t.state ≡ record s.state { config = o; device_restarting = b }
      → (s.state.config ≢ none → o ≢ none)
      → t.connect_view ≡ s.connect_view
      → ((v : DashboardView C)
          → t.dashboard_view ≡ some v
          → (v' : DashboardView C) × (s.dashboard_view ≡ some v') × (v'.port ≡ v.port))
      → (t.dashboard_view ≡ none → s.dashboard_view ≡ none)
      → t.wizard_view ≡ s.wizard_view
      → IsPatch s t
  same_page s t o b e h c d n w = record {
    known = λ k. rw e (record { view = k.view; port = k.port; config = λ q. h (k.config q) });
    is_connected = ap (λ st. st.connected) e;
    port = ap (λ st. st.port_path) e;
    is_open = ap (λ st. st.flash_wizard_open) e;
    connect = (λ q. sym c ∙ q, λ q. c ∙ q);
    dashboard = d;
    no_dashboard = n;
    wizard = w;
  }

  pub waiting-IsConsistent :
      (s : Shell C L) (tasks : List (Task C))
      → IsConsistent s
      → IsConsistent (record s { pending = tasks })
  waiting-IsConsistent s tasks c =
      IsPatch-IsConsistent (same_views s _ refl (λ e. e, λ e. e) refl refl) c
