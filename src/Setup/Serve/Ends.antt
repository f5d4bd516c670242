-- ===== src/Setup/Serve/Ends.antt =====
-- The end of the event loop of run of src/ocbridge/main.go.
use openconnect_ubuntu_touch.Common.{
  ◌≡◌, refl, sym, ◌∙◌, subst, true, false, All, Option, none, some, List, [], ◌∷◌, ◌++◌,
}
use openconnect_ubuntu_touch.Common.Text.{Text}
use openconnect_ubuntu_touch.Status.{Status}
use openconnect_ubuntu_touch.Session.{
  Event, signalled, relay_ended, openvpn_exited, ticked, Verdict, on_event, Input, event, line,
}
use openconnect_ubuntu_touch.Session.Shutdown.{goes_on, failure}
use openconnect_ubuntu_touch.Setup.World.{World}
use openconnect_ubuntu_touch.Setup.Watch.Kept.{publish_notice-child}
use openconnect_ubuntu_touch.Setup.Serve.{notice, Occurrence, watch_line, tick, serve_all}

module _ (encode : Status → Text) (status_path log_path : Text) where
  -- The loop ends at its first stopping event, with the error that goes with it.
  abbrev pub EndsWith : Event → World → World × Option Verdict → Type 0
  EndsWith e w r =
      (v : Verdict) × (r.1 ≡ some v) × (v.exit_err ≡ failure log_path e) × (r.0.child ≡ w.child)

  stop_at :
      (c : Occurrence) (e : Event) (after : List Occurrence) (w : World)
      → c.input ≡ event e
      → goes_on (event e) ≡ false
      → EndsWith e w (serve_all encode status_path log_path (c ∷ after) w)
  unfolding serve_all on_event
  stop_at c e after w given stops =
      subst
        (λ (x : Input).
          EndsWith e w (serve_all encode status_path log_path (record c { input = x } ∷ after) w))
        (sym given) (cases e stops)
    where
      cases :
          (x : Event)
          → goes_on (event x) ≡ false
          → EndsWith x w
              (serve_all encode status_path log_path (record c { input = event x } ∷ after) w)
      cases (signalled sig) h = (_, refl, refl, refl)
      cases (relay_ended none) h = (_, refl, refl, refl)
      cases (relay_ended (some y)) h = (_, refl, refl, refl)
      cases (openvpn_exited y) h = (_, refl, refl, refl)
      cases (ticked i o) h = cc

  pub serve_all_ends :
      (before : List Occurrence) (c : Occurrence) (e : Event) (after : List Occurrence) (w : World)
      → All (λ x. goes_on x.input ≡ true) before
      → c.input ≡ event e
      → goes_on (event e) ≡ false
      → EndsWith e w (serve_all encode status_path log_path (before ++ c ∷ after) w)
  unfolding serve_all on_event watch_line tick
  serve_all_ends [] c e after w goes given stops = stop_at c e after w given stops
  serve_all_ends (b ∷ bs) c e after w (hb, goes) given stops =
      step b.input hb (λ v. serve_all_ends bs c e after v goes given stops)
    where
      step :
          (x : Input)
          → goes_on x ≡ true
          → ((v : World) → EndsWith e v (serve_all encode status_path log_path (bs ++ c ∷ after) v))
          → EndsWith e w
              (serve_all encode status_path log_path (record b { input = x } ∷ (bs ++ c ∷ after)) w)
      step (line l) h ih =
          let (v, ends, reason, child) =
            ih (watch_line encode status_path log_path l b.now b.outcome w) in
          (
            v,
            ends,
            reason,
            child ∙ publish_notice-child encode status_path log_path (notice l) b.now b.outcome _,
          )
      step (event (ticked i o)) h ih =
          ih (tick encode status_path log_path (ticked i o) b.now b.outcome w)
      step (event (signalled sig)) h ih = cc
      step (event (relay_ended y)) h ih = cc
      step (event (openvpn_exited y)) h ih = cc
