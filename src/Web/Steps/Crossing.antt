-- ===== src/Web/Steps/Crossing.antt =====
-- src/main.ts, `refreshConfigAfterRestore`: an answer that comes when the window has moved on.
use freematics_gui.Base.{
  true, false, Option, none, some, List, [], ◌∷◌, ◌≡◌, ◌≢◌, refl, ◌∙◌, ap, is_empty, arith,
}
use freematics_gui.Text.{Text}
use freematics_gui.Web.{AppState, connect, disconnect, set_config}
use freematics_gui.Web.Shell.{
  Shell, ConnectView, FlashWizardView, Task, refreshing, redraw, notify_with, on_close,
  unmount_views, start, change, done, refresh_config, refresh_answered, on_connect,
}
use freematics_gui.Web.Steps.{
  Step, press_connect, press_disconnect, press_done, connected, refreshed, Reach, here, later,
}
use freematics_gui.Web.Steps.Page.{redraw-SameState}
use freematics_gui.Web.Steps.Invariant.{Reach-IsConsistent}

view_of : (o : Option ConnectView) → o ≢ none → (v : ConnectView) × (o ≡ some v)
view_of none h = absurd (h refl)
view_of (some v) h = (v, refl)

module _ {C L : Type 0} where
  -- A shell that has the device of a store, and the tasks of another shell.
  record Has (st : AppState C L) (tasks : List (Task C)) (t : Shell C L) : Type 0 where
    port : t.state.port_path ≡ st.port_path
    config : t.state.config ≡ st.config
    is_connected : t.state.connected ≡ st.connected
    pending : t.pending ≡ tasks

  redraw-Has :
      (st : AppState C L) (tasks : List (Task C)) (s : Shell C L)
      → Has st tasks s
      → Has st tasks (redraw s)
  redraw-Has st tasks s h =
      let same = redraw-SameState s in
      record {
        port = ap (λ x. x.port_path) same.state ∙ h.port;
        config = ap (λ x. x.config) same.state ∙ h.config;
        is_connected = ap (λ x. x.connected) same.state ∙ h.is_connected;
        pending = same.pending ∙ h.pending;
      }

  on_close-Has : (s : Shell C L) → Has s.state s.pending (on_close s)
  on_close-Has s =
      redraw-Has s.state s.pending _
        (record { port = refl; config = refl; is_connected = refl; pending = refl })

  notify_with-Has :
      (o : Option FlashWizardView) (s : Shell C L) → Has s.state s.pending (notify_with o s)
  unfolding notify_with
  notify_with-Has none s =
      redraw-Has s.state s.pending _
        (record { port = refl; config = refl; is_connected = refl; pending = refl })
  notify_with-Has (some w) s =
      let h = on_close-Has (unmount_views s) in
      redraw-Has s.state s.pending _ (record {
        port = h.port;
        config = h.config;
        is_connected = h.is_connected;
        pending = h.pending;
      })

  change-Has :
      (f : AppState C L → AppState C L) (s : Shell C L) → Has (f s.state) s.pending (change f s)
  change-Has f s = notify_with-Has s.wizard_view (record s { state = f s.state })

  -- The shell that a restore leaves, while it asks the device for its configuration.
  done-Has :
      (w : FlashWizardView) (s : Shell C L) (p : Text)
      → w.skip_backup ≡ false
      → s.state.port_path ≡ some p
      → is_empty p ≡ false
      → Has s.state (refreshing p ∷ s.pending) (done w s)
  unfolding done refresh_config
  done-Has w s p skip at h =
      let asked : refresh_config s.state.port_path s
          ≡ record s { pending = refreshing p ∷ s.pending } =
        ap (λ o. refresh_config o s) at ∙ rw h refl in
      rw (skip, asked) (on_close-Has (record s { pending = refreshing p ∷ s.pending }))

  Reach-trans : {s t u : Shell C L} → Reach s t → Reach t u → Reach s u
  Reach-trans a here = a
  Reach-trans a (later b st) = later (Reach-trans a b) st

  -- After a restore of the device at `p` the window waits for its configuration. The user may
  -- disconnect, and connect to the device at `q`, which answers `c'`, before that: then the window is
  -- connected to `q` with `c'`, and still waits for `p`. When `p` answers `c`, the window stays
  -- connected to `q` and has the configuration `c`.
  pub done-crosses :
      (s : Shell C L) (w : FlashWizardView) (p q : Text) (c c' : C)
      → Reach start s
      → s.wizard_view ≡ some w
      → w.skip_backup ≡ false
      → s.state.port_path ≡ some p
      → is_empty p ≡ false
      → (u : Shell C L) × Reach s u
        × (u.state.connected ≡ true)
        × (u.state.port_path ≡ some q)
        × (u.state.config ≡ some c')
        × (u.pending ≡ refreshing p ∷ s.pending)
        × (let t = refresh_answered p c (record u { pending = s.pending }) in
            Step u t
            × (t.state.connected ≡ true)
            × (t.state.port_path ≡ some q)
            × (t.state.config ≡ some c))
  unfolding refresh_answered
  done-crosses s w p q c c' r e skip at h =
      let was = Reach-IsConsistent r in
      let (is_open, port, same) = was.fitting.wizard w e in
      let on : s.state.connected ≡ true = ground arith in
      let restored = done w s in
      let h1 = done-Has w s p skip at h in
      let to_restored : Reach s restored = later here (press_done w e) in
      let apart = change disconnect restored in
      let h2 = change-Has disconnect restored in
      let to_apart : Reach s apart = later to_restored (press_disconnect (h1.is_connected ∙ on)) in
      let there = Reach-IsConsistent (Reach-trans r to_apart) in
      let (v, shown) = view_of apart.connect_view (there.drawn.connect h2.is_connected) in
      let asked = on_connect q apart in
      let to_asked : Reach s asked = later to_apart (press_connect v q shown) in
      let ready = record asked { pending = apart.pending } in
      let joined = change (connect q (some c')) ready in
      let h3 = change-Has (connect q (some c')) ready in
      let to_joined : Reach s joined = later to_asked (connected [] apart.pending q c' refl) in
      let back = record joined { pending = s.pending } in
      let h4 = change-Has (set_config c) back in
      let waits : joined.pending ≡ refreshing p ∷ s.pending =
        h3.pending ∙ h2.pending ∙ h1.pending in
      (
        joined,
        to_joined,
        h3.is_connected,
        h3.port,
        h3.config,
        waits,
        (
          refreshed [] s.pending p c waits,
          h4.is_connected ∙ h3.is_connected,
          h4.port ∙ h3.port,
          h4.config,
        ),
      )
