-- ===== src/Setup/Bridge/Failures.antt =====
-- The openvpn process in the set-up of run of src/ocbridge/main.go.
use openconnect_ubuntu_touch.Common.{
  ◌≡◌, ◌≢◌, ◌⊎◌, refl, sym, ◌∙◌, Option, none, some, List, Result, ok, err, inl, inr,
}
use openconnect_ubuntu_touch.Common.Text.{Text}
use openconnect_ubuntu_touch.Files.{FileSystem}
use openconnect_ubuntu_touch.Pki.{Crypto, ensure_pki}
use openconnect_ubuntu_touch.Creds.{ensure_creds}
use openconnect_ubuntu_touch.Parent.{die_with_parent}
use openconnect_ubuntu_touch.Params.Env.{parse_params}
use openconnect_ubuntu_touch.Params.Addresses.{server_ip}
use openconnect_ubuntu_touch.Status.{Status}
use openconnect_ubuntu_touch.Setup.{paths}
use openconnect_ubuntu_touch.Setup.World.{
  World, idle, running, RunError, bad_params, parent_gone, no_dirs, no_pki, no_executable, no_tool,
  no_creds, bad_addresses, Step, ◌>>=◌, proceed, finished, lift_result, lift_option, with_files,
}
use openconnect_ubuntu_touch.Setup.Run.{
  Inputs, Prepared, make_places, find_openvpn, creds_path, prepare, launch,
}
use openconnect_ubuntu_touch.Setup.Run.Failures.{Ends, >>=-Ends, launch_failed}
use openconnect_ubuntu_touch.Setup.Serve.{Occurrence}
use openconnect_ubuntu_touch.Setup.Bridge.{Ending, set_up}

abbrev IsIdle : World → Type 0
IsIdle w = w.child ≡ idle

abbrev Stays : {A : Type 0} → Step A → Type 0
Stays m = (w : World) → IsIdle w → Ends IsIdle IsIdle (m w)

Stays-lift_result :
    {A E : Type 0} (wrap : E → RunError) (r : Result E A) → Stays (lift_result wrap r)
Stays-lift_result wrap (ok a) w h = h
Stays-lift_result wrap (err e) w h = h

Stays-lift_option : {A : Type 0} (e : RunError) (o : Option A) → Stays (lift_option e o)
Stays-lift_option e none w h = h
Stays-lift_option e (some a) w h = h

Stays-with_files :
    {A E : Type 0} (wrap : E → RunError) (f : FileSystem → FileSystem × Result E A)
    → Stays (with_files wrap f)
Stays-with_files wrap f w h =
    Stays-lift_result wrap (f w.files).1 (record w { files = (f w.files).0 }) h

module _ (C : Crypto) (i : Inputs C) where
  prepare-Stays : Stays (prepare C i)
  unfolding prepare make_places find_openvpn
  prepare-Stays w h =
      >>=-Ends IsIdle IsIdle IsIdle _ _ w (Stays-lift_result bad_params (parse_params i.env) w h)
        (λ p w1 h1.
          >>=-Ends IsIdle IsIdle IsIdle _ _ w1
            (Stays-lift_result parent_gone
              (die_with_parent i.gaps i.reaper i.prctl_errno i.kernel).1 w1 h1)
            (λ _ w2 h2.
              >>=-Ends IsIdle IsIdle IsIdle _ _ w2
                (Stays-lift_option no_dirs (paths i.mkdir i.env i.data_dir).1 _ h2)
                (λ pl w3 h3.
                  >>=-Ends IsIdle IsIdle IsIdle _ _ w3
                    (Stays-with_files no_pki (ensure_pki C i.draws pl.data_dir) w3 h3)
                    (λ _ w4 h4.
                      >>=-Ends IsIdle IsIdle IsIdle _ _ w4
                        (Stays-lift_option no_executable i.executable w4 h4)
                        (λ exe w5 h5.
                          >>=-Ends IsIdle IsIdle IsIdle _ _ w5 (Stays-lift_option no_tool _ w5 h5)
                            (λ _ w6 h6.
                              >>=-Ends IsIdle IsIdle IsIdle _ _ w6
                                (Stays-with_files no_creds
                                  (ensure_creds i.user_bytes i.pass_bytes i.creds_write
                                    (creds_path pl.data_dir))
                                  w6 h6)
                                (λ _ w7 h7.
                                  >>=-Ends IsIdle IsIdle IsIdle _ _ w7
                                    (Stays-lift_result bad_addresses (server_ip p) w7 h7)
                                    (λ _ w8 h8. h8))))))))

abbrev pub IsRunning : World → Type 0
IsRunning w = w.child ≡ running

abbrev pub IsStopped : World → Type 0
IsStopped w = w.child ≢ running

module _ (C : Crypto) (i : Inputs C) (encode : Status → Text) (cs : List Occurrence)
    (z : Ending) where
  launch-Ends :
      (q : Prepared) (w : World) → IsIdle w → Ends IsRunning IsStopped (launch C i encode q w)
  launch-Ends q w h = elim (launch_failed C i encode q w h) [
    | inl (config, done, _, runs) ↦ rewrite_ok (launch C i encode q w) config done runs
    | inr (e, failed, _, _, stopped) ↦ rewrite_err (launch C i encode q w) e failed stopped
  ]
    where
      rewrite_ok :
          (r : World × Result RunError Text) (t : Text)
          → r.1 ≡ ok t
          → IsRunning r.0
          → Ends IsRunning IsStopped r
      rewrite_ok (v, ok a) t e p = p
      rewrite_ok (v, err x) t e p = cc

      rewrite_err :
          (r : World × Result RunError Text) (x : RunError)
          → r.1 ≡ err x
          → IsStopped r.0
          → Ends IsRunning IsStopped r
      rewrite_err (v, ok a) x e p = cc
      rewrite_err (v, err y) x e p = p

  pub set_up-Ends : (w : World) → IsIdle w → Ends IsRunning IsStopped (set_up C i encode cs z w)
  unfolding set_up
  set_up-Ends w h =
      >>=-Ends IsIdle IsRunning IsStopped (prepare C i) _ w
        (weaken (prepare C i w) (prepare-Stays C i w h))
        (λ q w1 h1.
          >>=-Ends IsRunning IsRunning IsStopped (launch C i encode q) _ w1 (launch-Ends q w1 h1)
            (λ _ w2 h2. h2))
    where
      weaken :
          (r : World × Result RunError Prepared) → Ends IsIdle IsIdle r → Ends IsIdle IsStopped r
      weaken (v, ok a) p = p
      weaken (v, err e) p = λ (q : v.child ≡ running). cc (sym p ∙ q)

-- The set-up fails with `x` in a world: before the first status or behind it.
abbrev pub SetUpFails :
    (C : Crypto) → Inputs C → (Status → Text) → World → RunError → World → Type 0
SetUpFails C i encode w x v =
    (prepare C i w ≡ (v, err x))
    ⊎ ((q : Prepared) × (u : World) × (prepare C i w ≡ (u, ok q))
        × (launch C i encode q u ≡ (v, err x)))

-- It gets to the state "up".
abbrev pub SetsUp : (C : Crypto) → Inputs C → (Status → Text) → World → Prepared → World → Type 0
SetsUp C i encode w q v =
    (u : World) × (config : Text) × (prepare C i w ≡ (u, ok q))
    × (launch C i encode q u ≡ (v, ok config))

abbrev pub Tells :
    (C : Crypto) → Inputs C → (Status → Text) → World → World × Result RunError Prepared → Type 0
Tells C i encode w (v, err x) = SetUpFails C i encode w x v
Tells C i encode w (v, ok q) = SetsUp C i encode w q v

module _ (C : Crypto) (i : Inputs C) (encode : Status → Text) (cs : List Occurrence)
    (z : Ending) where
  -- The set-up is prepare and launch.
  pub set_up-Tells : (w : World) → Tells C i encode w (set_up C i encode cs z w)
  unfolding set_up ◌>>=◌
  set_up-Tells w = outer (prepare C i w) refl
    where
      inner :
          (q : Prepared) (u : World)
          → prepare C i w ≡ (u, ok q)
          → (r : World × Result RunError Text) → launch C i encode q u ≡ r
          → Tells C i encode w (proceed (λ _. finished q) r)
      inner q u prepared (v, err x) e = inr (q, u, prepared, e)
      inner q u prepared (v, ok config) e = (u, config, prepared, e)

      outer :
          (r : World × Result RunError Prepared)
          → prepare C i w ≡ r
          → Tells C i encode w
              (proceed (λ q. λ u. proceed (λ _. finished q) (launch C i encode q u)) r)
      outer (v, err x) e = inl e
      outer (u, ok q) e = inner q u e (launch C i encode q u) refl
