-- ===== src/Web/Steps/Leaks.antt =====
-- src/main.ts: timers that nothing stops any more. The listener runs within itself when a wizard is
-- open, and the inner run draws views that the outer one forgets.
use freematics_gui.Base.{
  ℕ, ◌+◌, ◌<◌, true, false, Bool-cases, inl, inr, is_empty, Option, none, some, ◌≡◌, refl, sym, ◌∙◌,
  ap, arith, ◌++◌,
}
use mathlib.Core.Path.{subst}
use freematics_gui.Text.{Text}
use freematics_gui.Commands.Threads.Order.{update_same}
use freematics_gui.Web.{
  connect, disconnect, set_config, begin_setup, open_flash_wizard, close_flash_wizard, connect_page,
}
use freematics_gui.Web.Shell.{
  refresh_answered, Shell, ConnectView, DashboardView, FlashWizardView, add_connect_view, add_view,
  add_wizard, resume, redraw, set_polling, notify_with, unmount_views, start, done, refresh_config,
  on_connect, set_connecting, set_error, keep_config,
}
use freematics_gui.Web.Steps.Timers.{
  IsLeaked, younger, older_still, add_wizard-IsLeaked, resume-IsLeaked, on_close-IsLeaked,
  same_timers, plain_timers, change-IsLeaked,
}
use freematics_gui.Web.Steps.Invariant.{Reach-IsConsistent}
use freematics_gui.Web.Steps.{
  Step, press_connect, press_refresh, press_set_up, press_disconnect, press_flash, press_apply,
  press_import, imported, import_failed, press_cancel, press_done, connected, refused, refreshed,
  applied, refresh_failed, apply_failed, restarting, Reach, here, later,
}

next_after : (n : ℕ) → n < n + 1
next_after n = omega arith

set_connecting-number :
    (port : Option Text) (o : Option ConnectView) (v : ConnectView)
    → set_connecting port o ≡ some v
    → (v' : ConnectView) × (o ≡ some v') × (v'.number ≡ v.number)
unfolding set_connecting
set_connecting-number port none v e = cc
set_connecting-number port (some v') v e = (v', refl, ground arith)

set_error-number :
    (m : Option (Text × Text)) (o : Option ConnectView) (v : ConnectView)
    → set_error m o ≡ some v
    → (v' : ConnectView) × (o ≡ some v') × (v'.number ≡ v.number)
unfolding set_error
set_error-number m none v e = cc
set_error-number m (some v') v e = (v', refl, ground arith)

module _ {C : Type 0} where
  keep_config-number :
      (i : ℕ) (c : C) (o : Option (DashboardView C)) (v : DashboardView C)
      → keep_config i c o ≡ some v
      → (v' : DashboardView C) × (o ≡ some v') × (v'.number ≡ v.number)
  unfolding keep_config
  keep_config-number i c none v e = cc
  keep_config-number i c (some v') v e = (v', refl, ground arith)

module _ {C L : Type 0} where
  on_connect-IsLeaked :
      (i : ℕ) (port : Text) (s : Shell C L) → IsLeaked i s → IsLeaked i (on_connect port s)
  on_connect-IsLeaked i port s k =
      same_timers i s _ k refl refl (set_connecting-number (some port) s.connect_view)
        (λ v e. (v, e, refl))

  refresh_config-IsLeaked :
      (i : ℕ) (o : Option Text) (s : Shell C L) → IsLeaked i s → IsLeaked i (refresh_config o s)
  unfolding refresh_config
  refresh_config-IsLeaked i none s k = k
  refresh_config-IsLeaked i (some p) s k = elim (Bool-cases (is_empty p)) [
    | inl e ↦ rw e k
    | inr e ↦ rw e (plain_timers i s s.state _ k)
  ]

  done-IsLeaked :
      (i : ℕ) (w : FlashWizardView) (s : Shell C L) → IsLeaked i s → IsLeaked i (done w s)
  unfolding done
  done-IsLeaked i w s k = elim (Bool-cases w.skip_backup) [
    | inl e ↦ rw e (on_connect-IsLeaked i w.port _ (change-IsLeaked i close_flash_wizard s k))
    | inr e ↦ rw e (
        on_close-IsLeaked i (refresh_config s.state.port_path s)
          (refresh_config-IsLeaked i s.state.port_path s k))
  ]

  -- Nothing that happens stops the timer of a view that the page has forgotten.
  Step-IsLeaked : (i : ℕ) {s t : Shell C L} → Step s t → IsLeaked i s → IsLeaked i t
  unfolding refresh_answered
  Step-IsLeaked i {s} (press_connect v port e) k = on_connect-IsLeaked i port s k
  Step-IsLeaked i {s} (press_refresh v e) k =
      same_timers i s _ k refl refl (set_error-number none s.connect_view) (λ v e. (v, e, refl))
  Step-IsLeaked i {s} (press_set_up v port m e e') k = change-IsLeaked i (begin_setup port) s k
  Step-IsLeaked i {s} (press_disconnect e) k = change-IsLeaked i disconnect s k
  Step-IsLeaked i {s} (press_flash v e) k = change-IsLeaked i (open_flash_wizard none) s k
  Step-IsLeaked i {s} (press_apply v c e) k = plain_timers i s _ _ k
  Step-IsLeaked i {s} (press_import v e) k = plain_timers i s _ _ k
  Step-IsLeaked i {s} (press_cancel w e) k = on_close-IsLeaked i s k
  Step-IsLeaked i {s} (press_done w e) k = done-IsLeaked i w s k
  Step-IsLeaked i {s} (connected before after port c e) k =
      change-IsLeaked i (connect port (some c)) _ (plain_timers i s s.state (before ++ after) k)
  Step-IsLeaked i {s} (refused before after port m e) k =
      same_timers i s _ k refl refl
        (λ v e.
          let (v', e', same) = set_error-number _ (set_connecting none s.connect_view) v e in
          let (v'', e'', same') = set_connecting-number none s.connect_view v' e' in
          (v'', e'', same' ∙ same))
        (λ v e. (v, e, refl))
  Step-IsLeaked i {s} (refreshed before after port c e) k =
      change-IsLeaked i (set_config c) _ (plain_timers i s s.state (before ++ after) k)
  Step-IsLeaked i {s} (applied before after j port c e) k =
      same_timers i s _ k refl refl (λ v e. (v, e, refl)) (keep_config-number j c s.dashboard_view)
  Step-IsLeaked i {s} (imported before after j c e) k = plain_timers i s _ _ k
  Step-IsLeaked i {s} (import_failed before after j c e) k = plain_timers i s _ _ k
  Step-IsLeaked i {s} (refresh_failed before after port e) k = plain_timers i s _ _ k
  Step-IsLeaked i {s} (apply_failed before after j port c e) k = plain_timers i s _ _ k
  Step-IsLeaked i {s} (restarting b) k = plain_timers i s _ _ k

  Reach-IsLeaked : (i : ℕ) {s t : Shell C L} → Reach s t → IsLeaked i s → IsLeaked i t
  Reach-IsLeaked i here k = k
  Reach-IsLeaked i (later r st) k = Step-IsLeaked i st (Reach-IsLeaked i r k)

  redraw-connect :
      (s : Shell C L)
      → s.state.view ≡ connect_page
      → redraw s ≡ (
          let t = add_wizard s.state.port_path (add_connect_view s) in
          resume t.state.flash_wizard_open t)
  unfolding redraw add_view
  redraw-connect s v =
      ap
        (λ x.
          let u = add_view x s in
          let t = add_wizard u.state.port_path u in resume t.state.flash_wizard_open t)
        v

  add_wizard-closed :
      (o : Option Text) (s : Shell C L) → s.state.flash_wizard_open ≡ false → add_wizard o s ≡ s
  unfolding add_wizard
  add_wizard-closed none s c = refl
  add_wizard-closed (some p) s c = ground arith

  -- Without a wizard and a dashboard, the connect view is all that is drawn.
  redraw-plain :
      (s : Shell C L)
      → s.state.view ≡ connect_page
      → s.state.flash_wizard_open ≡ false
      → s.dashboard_view ≡ none
      → redraw s ≡ add_connect_view s
  unfolding resume set_polling
  redraw-plain s v c d =
      redraw-connect s v
      ∙ ap (λ (t : Shell C L). resume t.state.flash_wizard_open t)
          (add_wizard-closed s.state.port_path (add_connect_view s) c)
      ∙ ap (λ b. resume b (add_connect_view s)) c
      ∙ ap
          (λ o. record (add_connect_view s) {
            running = set_polling true o (add_connect_view s).running;
          })
          d

  -- Drawing a connect view again forgets a view that was there.
  redraw-forgets :
      (i : ℕ) (s : Shell C L)
      → s.running i ≡ true
      → i < s.created
      → s.state.view ≡ connect_page
      → s.dashboard_view ≡ none
      → IsLeaked i (redraw s)
  redraw-forgets i s runs older v d = rw (redraw-connect s v) (
      resume-IsLeaked i _ _ (
        add_wizard-IsLeaked i s.state.port_path (add_connect_view s) (record {
          runs = rw (younger i s.created older) runs;
          older = older_still i s.created older;
          no_connect =
              λ v e. let same : v.number ≡ s.created = cc in rw same (younger i s.created older);
          no_dashboard = λ v e. cc;
        })))

  -- A change to the connect page while the wizard is open draws that page twice.
  notify_with-forgets :
      (w : FlashWizardView) (s : Shell C L)
      → s.state.view ≡ connect_page
      → IsLeaked s.created (notify_with (some w) s)
  unfolding notify_with
  notify_with-forgets w s v =
      let blank =
        unmount_views
          (record (unmount_views s) { wizard_view = none; state = close_flash_wizard s.state }) in
      let once = redraw-plain blank v refl refl in
      redraw-forgets s.created _
        (ap (λ (t : Shell C L). t.running s.created) once
          ∙ update_same blank.running s.created true)
        (rw (ap (λ (t : Shell C L). t.created) once) (next_after s.created))
        (ap (λ (t : Shell C L). t.state.view) once ∙ v)
        (ap (λ (t : Shell C L). t.dashboard_view) once)

  -- After a first-run setup the shell has a connect view that the page has forgotten: whatever happens
  -- from there on, its timer runs.
  pub done-leaks :
      (s t : Shell C L) (w : FlashWizardView)
      → Reach start s
      → s.wizard_view ≡ some w
      → w.skip_backup ≡ true
      → Reach (done w s) t
      → IsLeaked s.created t
  unfolding done
  done-leaks s t w r e skip later_on =
      let c = Reach-IsConsistent r in
      let (is_open, port, same) = c.fitting.wizard w e in
      let off : s.state.connected ≡ false = ground arith in
      let page : s.state.view ≡ connect_page = c.known.view ∙ rw off refl in
      let closing : Shell C L = record s { state = close_flash_wizard s.state } in
      Reach-IsLeaked s.created later_on (
        rw skip (
          on_connect-IsLeaked s.created w.port _ (
            subst (λ o. IsLeaked s.created (notify_with o closing)) (sym e)
              (notify_with-forgets w closing page))))
