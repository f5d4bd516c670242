-- ===== src/Samples/Session.antt =====
-- A session that openvpn's exit ends.
use openconnect_ubuntu_touch.Common.{◌≡◌, refl, some, List, [], ◌∷◌, ◌++◌}
use openconnect_ubuntu_touch.Common.Text.{codes}
use openconnect_ubuntu_touch.Status.{Status}
use openconnect_ubuntu_touch.Session.{
  Input, event, line, ticked, signalled, openvpn_exited, Verdict, serve, closed,
}
use openconnect_ubuntu_touch.Session.Shutdown.{failure, IsClosed, serve-closed}
use openconnect_ubuntu_touch.Samples.Status.{blank}

abbrev inputs : List Input
inputs = line (codes "Peer Connection Initiated with client") ∷ event (ticked 100 20) ∷ []

serve-closed_example :
    (r : Status × Verdict) × (serve
        (codes "openvpn.log")
        (inputs
          ++ event (openvpn_exited (codes "exit status 1"))
            ∷ event (signalled (codes "hangup"))
            ∷ [])
        blank
      ≡ some r)
    × IsClosed
        (failure (codes "openvpn.log") (openvpn_exited (codes "exit status 1")))
        140
        30
        blank
        (closed r.1 140 30 r.0)
serve-closed_example =
    serve-closed (codes "openvpn.log") inputs (openvpn_exited (codes "exit status 1"))
      (event (signalled (codes "hangup")) ∷ []) blank 140 30 (refl, (refl, tt)) refl
