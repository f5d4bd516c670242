-- ===== src/Session/Shutdown.antt =====
-- How a session ends, and what it leaves in the status.
use openconnect_ubuntu_touch.Common.{
  ℕ, ◌≡◌, refl, ◌∙◌, Bool, true, false, Option, none, some, List, [], ◌∷◌, ◌++◌, All, if◌then◌else◌,
}
use openconnect_ubuntu_touch.Common.Text.{Text, codes}
use openconnect_ubuntu_touch.Strings.{contains_text}
use openconnect_ubuntu_touch.Status.{Status}
use openconnect_ubuntu_touch.Session.{
  Event, signalled, relay_ended, openvpn_exited, ticked, Verdict, on_event, counted, watched, Input,
  event, line, serve, closed,
}

-- The inputs with which the loop goes round again: a tick, and a line for the watcher.
abbrev pub goes_on : Input → Bool
goes_on (line l) = true
goes_on (event (ticked i o)) = true
goes_on (event (signalled sig)) = false
goes_on (event (relay_ended e)) = false
goes_on (event (openvpn_exited e)) = false

-- What has failed when the loop ends, if anything has: openvpn exited, or the relay met an error.
abbrev pub failure : Text → Event → Option Text
failure log_path (signalled sig) = none
failure log_path (relay_ended none) = none
failure log_path (relay_ended (some e)) = some (codes "relay: " ++ e)
failure log_path (openvpn_exited e) =
    some (codes "openvpn exited: " ++ e ++ codes " (see " ++ log_path ++ codes ")")
failure log_path (ticked i o) = none

-- The values that identify the tunnel: no input changes them.
pub record IsSameTunnel (s t : Status) : Type 0 where
  pub since_eq : s.since ≡ t.since
  pub address_eq : s.address ≡ t.address
  pub gateway_eq : s.gateway ≡ t.gateway
  pub mtu_eq : s.mtu ≡ t.mtu
  pub dns_eq : s.dns ≡ t.dns
  pub domain_eq : s.domain ≡ t.domain
  pub routes_eq : s.routes ≡ t.routes
  pub port_eq : s.port ≡ t.port
  pub proto_eq : s.proto ≡ t.proto
  pub vpn_user_eq : s.vpn_user ≡ t.vpn_user
  pub vpn_pass_eq : s.vpn_pass ≡ t.vpn_pass
  pub ca_cert_eq : s.ca_cert ≡ t.ca_cert

-- Only the state, the error, the counters, the client and the time may differ.
IsSameTunnel-update :
    (s : Status) (st er : Text) (i o : ℕ) (up : Bool)
    → IsSameTunnel s
        (record s { state = st; error_text = er; bytes_in = i; bytes_out = o; client_up = up })
IsSameTunnel-update s st er i o up = record {
  since_eq = refl;
  address_eq = refl;
  gateway_eq = refl;
  mtu_eq = refl;
  dns_eq = refl;
  domain_eq = refl;
  routes_eq = refl;
  port_eq = refl;
  proto_eq = refl;
  vpn_user_eq = refl;
  vpn_pass_eq = refl;
  ca_cert_eq = refl;
}

IsSameTunnel-refl : (s : Status) → IsSameTunnel s s
IsSameTunnel-refl s = IsSameTunnel-update s s.state s.error_text s.bytes_in s.bytes_out s.client_up

IsSameTunnel-trans : (s t u : Status) → IsSameTunnel s t → IsSameTunnel t u → IsSameTunnel s u
IsSameTunnel-trans s t u a b = record {
  since_eq = a.since_eq ∙ b.since_eq;
  address_eq = a.address_eq ∙ b.address_eq;
  gateway_eq = a.gateway_eq ∙ b.gateway_eq;
  mtu_eq = a.mtu_eq ∙ b.mtu_eq;
  dns_eq = a.dns_eq ∙ b.dns_eq;
  domain_eq = a.domain_eq ∙ b.domain_eq;
  routes_eq = a.routes_eq ∙ b.routes_eq;
  port_eq = a.port_eq ∙ b.port_eq;
  proto_eq = a.proto_eq ∙ b.proto_eq;
  vpn_user_eq = a.vpn_user_eq ∙ b.vpn_user_eq;
  vpn_pass_eq = a.vpn_pass_eq ∙ b.vpn_pass_eq;
  ca_cert_eq = a.ca_cert_eq ∙ b.ca_cert_eq;
}

watched-IsSameTunnel : (l : Text) (s : Status) → IsSameTunnel s (watched l s)
unfolding watched
watched-IsSameTunnel l s =
    cases (contains_text (codes "Initialization Sequence Completed") l)
      (contains_text (codes "Peer Connection Initiated") l) _
  where
    cases :
        (a b c : Bool)
        → IsSameTunnel s (
            if a
            then record s { state = codes "up" }
            else if b
            then record s { client_up = true }
            else if c
            then record s { client_up = false }
            else s)
    cases true b c =
        IsSameTunnel-update s (codes "up") s.error_text s.bytes_in s.bytes_out s.client_up
    cases false true c = IsSameTunnel-update s s.state s.error_text s.bytes_in s.bytes_out true
    cases false false true = IsSameTunnel-update s s.state s.error_text s.bytes_in s.bytes_out false
    cases false false false = IsSameTunnel-refl s

-- The state and the error that the last update leaves.
abbrev pub final_state : Option Text → Text × Text
final_state none = (codes "down", [])
final_state (some e) = (codes "error", e)

-- What the last update leaves of a status `s`, where `f` has failed, if anything.
abbrev pub IsClosed : Option Text → ℕ → ℕ → Status → Status → Type 0
IsClosed f i o s t =
    ((t.state, t.error_text) ≡ final_state f)
    × (t.client_up ≡ false)
    × (t.bytes_in ≡ i)
    × (t.bytes_out ≡ o)
    × IsSameTunnel s t

closed-IsClosed :
    (f : Option Text) (v : Verdict) (i o : ℕ) (s : Status)
    → v.exit_err ≡ f
    → IsClosed f i o s (closed v i o s)
unfolding closed
closed-IsClosed f v i o s h = rw h (cases f)
  where
    cases :
        (e : Option Text)
        → IsClosed e i o s (closed (record { exit_err = e; shutdown = v.shutdown }) i o s)
    cases none = (refl, refl, refl, refl, IsSameTunnel-update s (codes "down") [] i o false)
    cases (some e) = (refl, refl, refl, refl, IsSameTunnel-update s (codes "error") e i o false)

serve-ends :
    (log_path : Text) (before : List Input) (e : Event) (after : List Input) (s : Status)
    → All (λ i. goes_on i ≡ true) before
    → goes_on (event e) ≡ false
    → (r : Status × Verdict) × (serve log_path (before ++ event e ∷ after) s ≡ some r)
      × (r.1.exit_err ≡ failure log_path e)
      × IsSameTunnel s r.0
unfolding serve on_event counted
serve-ends log_path [] (signalled sig) after s h stop = (_, refl, refl, IsSameTunnel-refl s)
serve-ends log_path [] (relay_ended none) after s h stop = (_, refl, refl, IsSameTunnel-refl s)
serve-ends log_path [] (relay_ended (some x)) after s h stop = (_, refl, refl, IsSameTunnel-refl s)
serve-ends log_path [] (openvpn_exited x) after s h stop = (_, refl, refl, IsSameTunnel-refl s)
serve-ends log_path [] (ticked i o) after s h stop = cc
serve-ends log_path (line l ∷ before) e after s (hl, h) stop =
    let (r, ends, verdict, same) = serve-ends log_path before e after (watched l s) h stop in
    (r, ends, verdict, IsSameTunnel-trans s (watched l s) r.0 (watched-IsSameTunnel l s) same)
serve-ends log_path (event (ticked i o) ∷ before) e after s (ht, h) stop =
    let t = record s { bytes_in = i; bytes_out = o } in
    let (r, ends, verdict, same) = serve-ends log_path before e after t h stop in
    (
      r,
      ends,
      verdict,
      IsSameTunnel-trans s t r.0 (IsSameTunnel-update s s.state s.error_text i o s.client_up) same,
    )
serve-ends log_path (event (signalled sig) ∷ before) e after s (ht, h) stop = cc
serve-ends log_path (event (relay_ended x) ∷ before) e after s (ht, h) stop = cc
serve-ends log_path (event (openvpn_exited x) ∷ before) e after s (ht, h) stop = cc

-- A session ends at the first signal, end of the relay or exit of openvpn, whatever ticks and log lines
-- came before and whatever comes after. The last update then leaves the state "error" with the reason
-- if the relay ended with an error or openvpn exited, and "down" without one if not; the client is
-- shown as gone, the byte counts are the last ones, and what identifies the tunnel is as it was.
pub serve-closed :
    (log_path : Text) (before : List Input) (e : Event) (after : List Input) (s : Status) (i o : ℕ)
    → All (λ x. goes_on x ≡ true) before
    → goes_on (event e) ≡ false
    → (r : Status × Verdict) × (serve log_path (before ++ event e ∷ after) s ≡ some r)
      × IsClosed (failure log_path e) i o s (closed r.1 i o r.0)
serve-closed log_path before e after s i o h stop =
    let (r, ends, verdict, same) = serve-ends log_path before e after s h stop in
    let (final, gone, ins, outs, kept) = closed-IsClosed (failure log_path e) r.1 i o r.0 verdict in
    (r, ends, (final, gone, ins, outs, IsSameTunnel-trans s r.0 (closed r.1 i o r.0) same kept))
