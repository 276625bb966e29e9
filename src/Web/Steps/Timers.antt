-- ===== src/Web/Steps/Timers.antt =====
-- src/main.ts: the timers of a view that the page has forgotten, through drawing, closing and changes.
use freematics_gui.Base.{
  ℕ, ◌+◌, ◌<◌, ◌==◌, Bool, true, false, not, ◌&&◌, Bool-cases, inl, inr, is_empty, Option, none,
  some, ◌≡◌, refl, sym, ◌∙◌, ap, arith, List,
}
use freematics_gui.Text.{Text}
use freematics_gui.Web.{AppState, AppView, dashboard_page, close_flash_wizard, connect_page}
use freematics_gui.Web.Shell.{
  Shell, ConnectView, DashboardView, FlashWizardView, add_dashboard_view, add_dashboard, add_view,
  add_wizard, resume, redraw, set_polling, stop_connect, notify_with, on_close, unmount_views,
  render, change, Task,
}

pub younger : (i n : ℕ) → i < n → (i == n) ≡ false
younger i n h = ground arith

stop_connect_other :
    (i : ℕ) (o : Option ConnectView) (running : ℕ → Bool)
    → ((v : ConnectView) → o ≡ some v → (i == v.number) ≡ false)
    → stop_connect o running i ≡ running i
unfolding stop_connect
stop_connect_other i none running h = refl
stop_connect_other i (some v) running h = rw (h v refl) refl

pub older_still : (i n : ℕ) → i < n → i < n + 1
older_still i n h = omega arith

module _ {C : Type 0} where
  pub set_polling_other :
      (i : ℕ) (b : Bool) (o : Option (DashboardView C)) (running : ℕ → Bool)
      → ((v : DashboardView C) → o ≡ some v → (i == v.number) ≡ false)
      → set_polling b o running i ≡ running i
  unfolding set_polling
  set_polling_other i b none running h = refl
  set_polling_other i b (some v) running h = rw (h v refl) refl

module _ {C L : Type 0} where
  -- A view that runs, and is neither the connect view nor the dashboard of the page.
  pub record IsLeaked (i : ℕ) (s : Shell C L) : Type 0 where
    pub runs : s.running i ≡ true
    pub older : i < s.created
    pub no_connect : (v : ConnectView) → s.connect_view ≡ some v → (i == v.number) ≡ false
    pub no_dashboard : (v : DashboardView C) → s.dashboard_view ≡ some v → (i == v.number) ≡ false

  add_dashboard_view-IsLeaked :
      (i : ℕ) (p : Text) (c : C) (s : Shell C L)
      → IsLeaked i s
      → IsLeaked i (add_dashboard_view p c s)
  add_dashboard_view-IsLeaked i p c s k = record {
    runs = rw (younger i s.created k.older) k.runs;
    older = older_still i s.created k.older;
    no_connect = k.no_connect;
    no_dashboard =
        λ v e. let same : v.number ≡ s.created = cc in rw same (younger i s.created k.older);
  }

  add_dashboard-IsLeaked :
      (i : ℕ) (o : Option Text) (q : Option C) (s : Shell C L)
      → IsLeaked i s
      → IsLeaked i (add_dashboard o q s)
  unfolding add_dashboard
  add_dashboard-IsLeaked i (some p) (some c) s k = elim (Bool-cases (is_empty p)) [
    | inl e ↦ rw e k
    | inr e ↦ rw e (add_dashboard_view-IsLeaked i p c s k)
  ]
  add_dashboard-IsLeaked i (some p) none s k = k
  add_dashboard-IsLeaked i none q s k = k

  pub add_view-IsLeaked :
      (i : ℕ) (v : AppView) (s : Shell C L) → IsLeaked i s → IsLeaked i (add_view v s)
  unfolding add_view
  add_view-IsLeaked i connect_page s k = record {
    runs = rw (younger i s.created k.older) k.runs;
    older = older_still i s.created k.older;
    no_connect =
        λ v e. let same : v.number ≡ s.created = cc in rw same (younger i s.created k.older);
    no_dashboard = k.no_dashboard;
  }
  add_view-IsLeaked i dashboard_page s k = add_dashboard-IsLeaked i _ _ s k

  -- Timers that change, but not the one of a view that the page has forgotten.
  running-IsLeaked :
      (i : ℕ) (b : Bool) (s : Shell C L)
      → IsLeaked i s
      → IsLeaked i (record s { running = set_polling b s.dashboard_view s.running })
  running-IsLeaked i b s k = record {
    runs = set_polling_other i b s.dashboard_view s.running k.no_dashboard ∙ k.runs;
    older = k.older;
    no_connect = k.no_connect;
    no_dashboard = k.no_dashboard;
  }

  pub add_wizard-IsLeaked :
      (i : ℕ) (o : Option Text) (s : Shell C L) → IsLeaked i s → IsLeaked i (add_wizard o s)
  unfolding add_wizard
  add_wizard-IsLeaked i none s k = k
  add_wizard-IsLeaked i (some p) s k =
      elim (Bool-cases (s.state.flash_wizard_open && not (is_empty p))) [
        | inl e ↦
            let r = running-IsLeaked i false s k in
            rw e (record {
              runs = r.runs;
              older = r.older;
              no_connect = r.no_connect;
              no_dashboard = r.no_dashboard;
            })
        | inr e ↦ rw e k
      ]

  pub resume-IsLeaked : (i : ℕ) (b : Bool) (s : Shell C L) → IsLeaked i s → IsLeaked i (resume b s)
  unfolding resume
  resume-IsLeaked i true s k = k
  resume-IsLeaked i false s k = running-IsLeaked i true s k

  pub redraw-IsLeaked : (i : ℕ) (s : Shell C L) → IsLeaked i s → IsLeaked i (redraw s)
  unfolding redraw
  redraw-IsLeaked i s k =
      resume-IsLeaked i _ (render s)
        (add_wizard-IsLeaked i _ _ (add_view-IsLeaked i s.state.view s k))

  pub unmount_views-IsLeaked : (i : ℕ) (s : Shell C L) → IsLeaked i s → IsLeaked i (unmount_views s)
  unmount_views-IsLeaked i s k = record {
    runs =
        set_polling_other i false s.dashboard_view _ k.no_dashboard
        ∙ stop_connect_other i s.connect_view s.running k.no_connect
        ∙ k.runs;
    older = k.older;
    no_connect = λ v e. cc;
    no_dashboard = λ v e. cc;
  }

  pub on_close-IsLeaked : (i : ℕ) (s : Shell C L) → IsLeaked i s → IsLeaked i (on_close s)
  on_close-IsLeaked i s k = redraw-IsLeaked i _ (
      unmount_views-IsLeaked i (record s { wizard_view = none; state = close_flash_wizard s.state })
        (record {
          runs = k.runs;
          older = k.older;
          no_connect = k.no_connect;
          no_dashboard = k.no_dashboard;
        }))

  notify_with-IsLeaked :
      (i : ℕ) (o : Option FlashWizardView) (s : Shell C L)
      → IsLeaked i s
      → IsLeaked i (notify_with o s)
  unfolding notify_with
  notify_with-IsLeaked i none s k = redraw-IsLeaked i _ (unmount_views-IsLeaked i s k)
  notify_with-IsLeaked i (some w) s k =
      let r = on_close-IsLeaked i (unmount_views s) (unmount_views-IsLeaked i s k) in
      redraw-IsLeaked i (record (on_close (unmount_views s)) { wizard_view = none })
        (record {
          runs = r.runs;
          older = r.older;
          no_connect = r.no_connect;
          no_dashboard = r.no_dashboard;
        })

  -- Another store and other tasks.
  pub same_timers :
      (i : ℕ) (s t : Shell C L)
      → IsLeaked i s
      → t.running ≡ s.running
      → t.created ≡ s.created
      → ((v : ConnectView)
          → t.connect_view ≡ some v
          → (v' : ConnectView) × (s.connect_view ≡ some v') × (v'.number ≡ v.number))
      → ((v : DashboardView C)
          → t.dashboard_view ≡ some v
          → (v' : DashboardView C) × (s.dashboard_view ≡ some v') × (v'.number ≡ v.number))
      → IsLeaked i t
  same_timers i s t k r n c d = record {
    runs = ap (λ f. f i) r ∙ k.runs;
    older = rw n k.older;
    no_connect =
        λ v e. let (v', e', same) = c v e in ap (λ m. i == m) (sym same) ∙ k.no_connect v' e';
    no_dashboard =
        λ v e. let (v', e', same) = d v e in ap (λ m. i == m) (sym same) ∙ k.no_dashboard v' e';
  }

  pub plain_timers :
      (i : ℕ) (s : Shell C L) (st : AppState C L) (tasks : List (Task C))
      → IsLeaked i s
      → IsLeaked i (record s { state = st; pending = tasks })
  plain_timers i s st tasks k =
      same_timers i s _ k refl refl (λ v e. (v, e, refl)) (λ v e. (v, e, refl))

  pub change-IsLeaked :
      (i : ℕ) (f : AppState C L → AppState C L) (s : Shell C L)
      → IsLeaked i s
      → IsLeaked i (change f s)
  change-IsLeaked i f s k = notify_with-IsLeaked i s.wizard_view _ (plain_timers i s _ _ k)
