-- ===== src/Setup/Run/Failures.antt =====
-- What a set-up of run leaves when it fails behind its first status.
use openconnect_ubuntu_touch.Common.{
  ℕ, ◌≡◌, ◌≢◌, ◌⊎◌, refl, sym, ◌∙◌, List, [], ◌∷◌, ◌++◌, Bool, true, false, Result, ok, err,
  if◌then◌else◌, inl, inr,
}
use openconnect_ubuntu_touch.Common.Text.{Text, codes}
use openconnect_ubuntu_touch.Strconv.{itoa}
use openconnect_ubuntu_touch.Lines.{newline}
use openconnect_ubuntu_touch.Files.{FileSystem, write_file}
use openconnect_ubuntu_touch.Config.{build_ccd}
use openconnect_ubuntu_touch.Descriptors.{FdError}
use openconnect_ubuntu_touch.Pki.{Crypto}
use openconnect_ubuntu_touch.Status.{Status, update}
use openconnect_ubuntu_touch.Session.{started, came_up}
use openconnect_ubuntu_touch.Setup.World.{
  World, Child, idle, running, killed, RunError, bad_addresses, no_pid_file, no_config_file,
  no_ccd_file, no_log, no_socketpair, not_started, no_vpn_conn, no_tun_conn, Step, ◌>>=◌, proceed,
  with_write, lift_result,
}
use openconnect_ubuntu_touch.Setup.Watch.{WatchedLine, watch_meanwhile}
use openconnect_ubuntu_touch.Setup.Watch.Kept.{Begins, watch_lines-child, watch_lines-Begins}
use openconnect_ubuntu_touch.Setup.Run.{
  status_path, Inputs, Prepared, publish, must, start_child, adopt, open_log, config_path,
  default_path, log_path, pid_path, announce, write_config, start_openvpn, launch,
}

-- A result that satisfies `P` where it is a success and `Q` where it is an error.
abbrev pub Ends :
    {A : Type 0} → (World → Type 0) → (World → Type 0) → World × Result RunError A → Type 0
Ends P Q (w, ok a) = P w
Ends P Q (w, err e) = Q w

pub >>=-Ends :
    {A B : Type 0} (M P Q : World → Type 0) (m : Step A) (next : A → Step B) (w : World)
    → Ends M Q (m w)
    → ((a : A) (v : World) → M v → Ends P Q (next a v))
    → Ends P Q ((m >>= next) w)
unfolding ◌>>=◌
>>=-Ends {A} {B} M P Q m next w first then_next = split (m w) first
  where
    split : (r : World × Result RunError A) → Ends M Q r → Ends P Q (proceed next r)
    split (v, ok a) h = then_next a v h
    split (v, err e) h = h

module _ (text : Text) where
  -- The tunnel is on its way, and the process is in a given state.
  abbrev At : Child → World → Type 0
  At c w = (w.status.state ≡ codes "starting") × (w.status.error_text ≡ text) × (w.child ≡ c)

  -- openvpn runs, and the watcher may have read that it is up.
  abbrev IsEarly : World → Type 0
  IsEarly w = Begins text w.status × (w.child ≡ running)

  -- The status shows no error, and no process runs.
  abbrev Stuck : World → Type 0
  Stuck w = Begins text w.status × (w.child ≢ running)

  abbrev IsUp : World → Type 0
  IsUp w = (w.status.state ≡ codes "up") × (w.child ≡ running)

  idle-ne : {c : Child} → c ≡ idle → c ≢ running
  idle-ne h e = cc (sym h ∙ e)

  At-Stuck : (w : World) → At idle w → Stuck w
  At-Stuck w (state, error, child) = ((inl state, error), idle-ne child)

  with_write-Ends :
      (e : RunError) (f : FileSystem → FileSystem × Bool) (w : World)
      → At idle w
      → Ends (At idle) Stuck (with_write e f w)
  with_write-Ends e f w h = split (f w.files)
    where
      split :
          (r : FileSystem × Bool)
          → Ends (At idle) Stuck (record w { files = r.0 }, if r.1 then ok tt else err e)
      split (fs, true) = h
      split (fs, false) = At-Stuck w h

  must-Ends : (e : RunError) (b : Bool) (w : World) → At idle w → Ends (At idle) Stuck (must e b w)
  must-Ends e true w h = h
  must-Ends e false w h = At-Stuck w h

  start_child-Ends : (b : Bool) (w : World) → At idle w → Ends IsEarly Stuck (start_child b w)
  unfolding start_child
  start_child-Ends true w (state, error, child) = ((inl state, error), refl)
  start_child-Ends false w h = At-Stuck w h

  adopt-Ends :
      (wrap : FdError → RunError) (r : Result FdError ℕ) (w : World)
      → IsEarly w
      → Ends IsEarly Stuck (adopt wrap r w)
  unfolding adopt
  adopt-Ends wrap (ok n) w h = h
  adopt-Ends wrap (err e) w (begins, child) = (begins, λ (p : killed ≡ running). cc p)

  module _ (C : Crypto) (i : Inputs C) (encode : Status → Text) (q : Prepared) where
    announce-Ends :
        (w : World)
        → w.child ≡ idle
        → w.status.error_text ≡ text
        → Ends (At idle) Stuck (announce C i encode q w)
    unfolding announce publish update started
    announce-Ends w child error =
        >>=-Ends (At idle) (At idle) Stuck _ _ w (refl, error, child)
          (λ _ v1 h1.
            >>=-Ends (At idle) (At idle) Stuck _ _ v1
              (with_write-Ends no_pid_file
                (write_file i.pid_write (pid_path C i encode q) (itoa i.pid ++ newline ∷ []) 0o644)
                v1 h1)
              (λ _ v2 h2. must-Ends no_socketpair i.socketpair_ok v2 h2))

    lift_result-Ends :
        {A E : Type 0} (wrap : E → RunError) (r : Result E A) (w : World)
        → At idle w
        → Ends (At idle) Stuck (lift_result wrap r w)
    lift_result-Ends wrap (ok a) w h = h
    lift_result-Ends wrap (err e) w h = At-Stuck w h

    write_config-Ends : (w : World) → At idle w → Ends (At idle) Stuck (write_config C i encode q w)
    unfolding write_config
    write_config-Ends w h =
        >>=-Ends (At idle) (At idle) Stuck _ _ w (lift_result-Ends bad_addresses _ w h)
          (λ cfg v1 h1.
            >>=-Ends (At idle) (At idle) Stuck _ _ v1
              (with_write-Ends no_config_file
                (write_file i.config_write (config_path C i encode q) cfg 0o600) v1 h1)
              (λ _ v2 h2.
                >>=-Ends (At idle) (At idle) Stuck _ _ v2
                  (with_write-Ends no_ccd_file
                    (write_file i.ccd_write (default_path C i encode q) (build_ccd q.params) 0o600)
                    v2 h2)
                  (λ _ v3 h3. h3)))

    watch-Ends :
        (ls : List WatchedLine) (w : World)
        → IsEarly w
        → Ends IsEarly Stuck
            (watch_meanwhile encode (status_path C i encode q) (log_path C i encode q) ls w)
    unfolding watch_meanwhile
    watch-Ends ls w (begins, child) = (
      watch_lines-Begins encode (status_path C i encode q) (log_path C i encode q) text ls w begins,
      watch_lines-child encode (status_path C i encode q) (log_path C i encode q) ls w ∙ child,
    )

    start_openvpn-Ends : (w : World) → At idle w → Ends IsUp Stuck (start_openvpn C i encode q w)
    unfolding start_openvpn publish update came_up
    start_openvpn-Ends w h =
        >>=-Ends (At idle) IsUp Stuck _ _ w (must-Ends not_started i.pipe_ok w h) (λ _ v1 h1.
          >>=-Ends (At idle) IsUp Stuck _ _ v1
            (with_write-Ends no_log (open_log i.log_ok (log_path C i encode q)) v1 h1)
            (λ _ v2 h2.
              >>=-Ends IsEarly IsUp Stuck _ _ v2 (start_child-Ends i.start_ok v2 h2) (λ _ v3 h3.
                >>=-Ends IsEarly IsUp Stuck _ _ v3 (watch-Ends i.early v3 h3) (λ _ v4 h4.
                  >>=-Ends IsEarly IsUp Stuck _ _ v4 (adopt-Ends no_vpn_conn i.vpn_conn v4 h4)
                    (λ _ v5 h5.
                      >>=-Ends IsEarly IsUp Stuck _ _ v5 (adopt-Ends no_tun_conn i.tun_conn v5 h5)
                        (λ _ v6 h6. (refl, h6.1)))))))

    launch-Ends :
        (w : World)
        → w.child ≡ idle
        → w.status.error_text ≡ text
        → Ends IsUp Stuck (launch C i encode q w)
    unfolding launch
    launch-Ends w child error =
        >>=-Ends (At idle) IsUp Stuck _ _ w (announce-Ends w child error) (λ _ v1 h1.
          >>=-Ends (At idle) IsUp Stuck _ _ v1 (write_config-Ends v1 h1)
            (λ _ v2 h2. >>=-Ends IsUp IsUp Stuck _ _ v2 (start_openvpn-Ends v2 h2) (λ _ v3 h3. h3)))

-- If no openvpn process runs before it, then from its first status on run either gets to the state "up"
-- with the process running, or returns an error and leaves no process running. In the second case the
-- status says "starting" or, if the watcher has read so in the meantime, "up", and its error is what it
-- was before.
pub launch_failed :
    (C : Crypto) (i : Inputs C) (encode : Status → Text) (q : Prepared) (w : World)
    → w.child ≡ idle
    → ((config : Text) × ((launch C i encode q w).1 ≡ ok config)
        × ((launch C i encode q w).0.status.state ≡ codes "up")
        × ((launch C i encode q w).0.child ≡ running))
      ⊎ ((e : RunError) × ((launch C i encode q w).1 ≡ err e)
          × (((launch C i encode q w).0.status.state ≡ codes "starting")
              ⊎ ((launch C i encode q w).0.status.state ≡ codes "up"))
          × ((launch C i encode q w).0.status.error_text ≡ w.status.error_text)
          × ((launch C i encode q w).0.child ≢ running))
launch_failed C i encode q w child =
    split (launch C i encode q w) (launch-Ends w.status.error_text C i encode q w child refl)
  where
    split :
        (r : World × Result RunError Text)
        → Ends (IsUp w.status.error_text) (Stuck w.status.error_text) r
        → ((config : Text) × (r.1 ≡ ok config)
            × (r.0.status.state ≡ codes "up")
            × (r.0.child ≡ running))
          ⊎ ((e : RunError) × (r.1 ≡ err e)
              × ((r.0.status.state ≡ codes "starting") ⊎ (r.0.status.state ≡ codes "up"))
              × (r.0.status.error_text ≡ w.status.error_text)
              × (r.0.child ≢ running))
    split (v, ok config) (state, runs) = inl (config, refl, state, runs)
    split (v, err e) ((state, error), stopped) = inr (e, refl, state, error, stopped)
