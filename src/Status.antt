-- ===== src/Status.antt =====
-- Status and Publisher of src/ocbridge/status.go. The file's text is json.MarshalIndent of the status,
-- an argument of the definitions.
pub mod Published
pub mod Races
use openconnect_ubuntu_touch.Common.{ℕ, Bool, true, false, List, [], ◌∷◌, ◌++◌}
use openconnect_ubuntu_touch.Common.Int.{ℤ}
use openconnect_ubuntu_touch.Common.Text.{Text}
use openconnect_ubuntu_touch.Lines.{newline}
use openconnect_ubuntu_touch.Files.{FileSystem, Outcome, write_file}

-- `error_text` is the field Error, `domain` and the others as they are named there.
pub record Status : Type 0 where
  pub state : Text
  pub error_text : Text
  pub since : ℤ
  pub address : Text
  pub gateway : Text
  pub mtu : ℕ
  pub dns : List Text
  pub domain : Text
  pub routes : List Text
  pub port : ℤ
  pub proto : Text
  pub vpn_user : Text
  pub vpn_pass : Text
  pub ca_cert : Text
  pub bytes_in : ℕ
  pub bytes_out : ℕ
  pub client_up : Bool
  pub updated_at : ℤ

pub record Publisher : Type 0 where
  pub path : Text
  pub cur : Status

-- One call of Update: the function, the time, and what the system does with the write.
pub record Change : Type 0 where
  pub fn : Status → Status
  pub now : ℤ
  pub outcome : Outcome

-- The status after a change.
abbrev pub changed : Change → Status → Status
changed c s = record (c.fn s) { updated_at = c.now }

-- `Update(fn)`, with no other update between its lock and its rename.
unfoldable pub update :
    (Status → Text) → Change → Publisher → FileSystem → Publisher × FileSystem × Bool
update encode c p fs =
    let next = record p { cur = changed c p.cur } in
    let (fs', done) = write_file c.outcome p.path (encode next.cur ++ newline ∷ []) 0o600 fs in
    (next, fs', done)

-- Updates of which each ends before the next begins: what Status.Races compares the steps of the two
-- goroutines with. The program itself does not keep its updates apart.
unfoldable pub update_all :
    (Status → Text) → List Change → Publisher → FileSystem → Publisher × FileSystem
update_all encode [] p fs = (p, fs)
update_all encode (c ∷ cs) p fs = let r = update encode c p fs in update_all encode cs r.0 r.1
