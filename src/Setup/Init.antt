-- ===== src/Setup/Init.antt =====
-- runInit of src/ocbridge/main.go.
pub mod Kept
pub mod Provided
pub mod Agree
use openconnect_ubuntu_touch.Common.{ℕ}
use openconnect_ubuntu_touch.Common.Int.{ℤ}
use openconnect_ubuntu_touch.Common.Text.{Text, codes}
use openconnect_ubuntu_touch.Creds.{ensure_creds}
use openconnect_ubuntu_touch.Pki.{Crypto, ensure_pki}
use openconnect_ubuntu_touch.Setup.{choose_port, resolve_proto}
use openconnect_ubuntu_touch.Setup.World.{no_pki, no_creds, Step, ◌>>=◌, finished, with_files}
use openconnect_ubuntu_touch.Setup.Run.{Inputs, make_places, creds_path}

-- What the user copies into the settings of the VPN.
pub record SetupInfo : Type 0 where
  pub ca_cert : Text
  pub vpn_user : Text
  pub vpn_pass : Text
  pub remote : Text
  pub port : ℤ
  pub protocol : Text

-- `runInit(dataDir, port, proto)`, with what it prints.
unfoldable pub run_init : (C : Crypto) → Inputs C → Step SetupInfo
run_init C i = do
  places ← make_places i.mkdir i.env i.data_dir
  generated ← with_files no_pki (ensure_pki C i.draws places.data_dir)
  creds ←
      with_files no_creds
        (ensure_creds i.user_bytes i.pass_bytes i.creds_write (creds_path places.data_dir))
  finished (record {
    ca_cert = generated.ca_cert;
    vpn_user = creds.0;
    vpn_pass = creds.1;
    remote = codes "127.0.0.1";
    port = choose_port i.port i.env;
    protocol = resolve_proto i.proto i.env;
  })
