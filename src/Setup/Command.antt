-- ===== src/Setup/Command.antt =====
-- main of src/ocbridge/main.go, and run with its three modes: -auth, -init, and the bridge.
pub mod Accepted
use openconnect_ubuntu_touch.Common.{
  ℕ, Bool, true, false, Option, none, some, List, Result, ok, err, if◌then◌else◌,
}
use openconnect_ubuntu_touch.Common.Text.{Text, codes}
use openconnect_ubuntu_touch.Pki.{Crypto}
use openconnect_ubuntu_touch.Status.{Status}
use openconnect_ubuntu_touch.Creds.Check.{AuthError, run_auth_check}
use openconnect_ubuntu_touch.Setup.World.{World, RunError}
use openconnect_ubuntu_touch.Setup.Run.{Inputs}
use openconnect_ubuntu_touch.Setup.Init.{SetupInfo, run_init}
use openconnect_ubuntu_touch.Setup.Serve.{Occurrence}
use openconnect_ubuntu_touch.Setup.Bridge.{Ending, run_bridge}

-- The flags that choose the mode, and the arguments behind the flags; the other flags are in `Inputs`.
pub record Flags : Type 0 where
  pub auth_check : Bool
  pub init_only : Bool
  pub args : List Text

-- The error of a mode; one of a tunnel is the text with which its loop ended.
pub data CommandError : Type 0 where
  auth_fails : AuthError → CommandError
  set_up_fails : RunError → CommandError
  tunnel_fails : Text → CommandError

-- What run returns: what it prints, or its error.
abbrev pub Returned : Type 0
Returned = Result CommandError (Option SetupInfo)

abbrev pub checked : Result AuthError (Unit {0}) → Returned
checked (ok u) = ok none
checked (err e) = err (auth_fails e)

abbrev pub printed : World × Result RunError SetupInfo → World × Returned
printed (w, ok info) = (w, ok (some info))
printed (w, err e) = (w, err (set_up_fails e))

abbrev pub bridged : World × Result RunError (Option Text) → World × Returned
bridged (w, ok none) = (w, ok none)
bridged (w, ok (some e)) = (w, err (tunnel_fails e))
bridged (w, err e) = (w, err (set_up_fails e))

-- The status with which the process exits: os.Exit(1) for an error.
abbrev pub exit_status : Returned → ℕ
exit_status (ok out) = 0
exit_status (err e) = 1

module _ (C : Crypto) (i : Inputs C) (encode : Status → Text) (cs : List Occurrence) (z : Ending)
    (f : Flags) where
  -- run, behind flag.Parse(); none if the bridge's loop does not end.
  unfoldable pub run_command : World → Option (World × Returned)
  run_command w =
      if f.auth_check
      then some (w, checked (run_auth_check w.files (i.env (codes "OCBRIDGE_CREDS")) f.args))
      else if f.init_only
      then some (printed (run_init C i w))
      else elim (run_bridge C i encode cs z w) [ none ↦ none | some r ↦ some (bridged r) ]

  -- main: the world, the exit status, and what run returned.
  unfoldable pub main_process : World → Option (World × ℕ × Returned)
  main_process w = elim (run_command w) [ none ↦ none | some r ↦ some (r.0, exit_status r.1, r.1) ]
