-- ===== src/Net/Parse/Tests.antt =====
-- Runs of ParseIP.
use openconnect_ubuntu_touch.Common.{◌≡◌, refl, none, some, [], ◌∷◌}
use openconnect_ubuntu_touch.Common.Text.{codes}
use openconnect_ubuntu_touch.Net.Parse.{parse_ip, mapped}

dotted : parse_ip (codes "10.99.0.121") ≡ some (mapped (10 ∷ 99 ∷ 0 ∷ 121 ∷ []))
unfolding parse_ip
dotted = refl

loopback6 :
    parse_ip (codes "::1")
    ≡ some (0 ∷ 0 ∷ 0 ∷ 0 ∷ 0 ∷ 0 ∷ 0 ∷ 0 ∷ 0 ∷ 0 ∷ 0 ∷ 0 ∷ 0 ∷ 0 ∷ 0 ∷ 1 ∷ [])
unfolding parse_ip
loopback6 = refl

mapped6 : parse_ip (codes "::ffff:1.2.3.4") ≡ some (mapped (1 ∷ 2 ∷ 3 ∷ 4 ∷ []))
unfolding parse_ip
mapped6 = refl

global6 :
    parse_ip (codes "2001:db8::a:0:1")
    ≡ some (0x20 ∷ 1 ∷ 0x0d ∷ 0xb8 ∷ 0 ∷ 0 ∷ 0 ∷ 0 ∷ 0 ∷ 0 ∷ 0 ∷ 10 ∷ 0 ∷ 0 ∷ 0 ∷ 1 ∷ [])
unfolding parse_ip
global6 = refl

refused :
    (parse_ip (codes "010.0.0.1") ≡ none)
    × (parse_ip (codes "1.2.3") ≡ none)
    × (parse_ip (codes "1.2.3.4.5") ≡ none)
    × (parse_ip (codes "1..2.3") ≡ none)
    × (parse_ip (codes "256.1.1.1") ≡ none)
    × (parse_ip (codes "fe80::1%eth0") ≡ none)
    × (parse_ip (codes "1:2:3:4:5:6:7:8:9") ≡ none)
    × (parse_ip (codes "1::2::3") ≡ none)
    × (parse_ip (codes "host") ≡ none)
unfolding parse_ip
refused = (refl, refl, refl, refl, refl, refl, refl, refl, refl)
