-- ===== src/Status/Published.antt =====
-- The status file behind updates of which each ends before the next begins.
use openconnect_ubuntu_touch.Common.{
  ◌≡◌, refl, ap, ◌∙◌, Option, some, List, [], ◌∷◌, ◌++◌, if◌then◌else◌,
}
use openconnect_ubuntu_touch.Common.Text.{Text}
use openconnect_ubuntu_touch.Lines.{newline}
use openconnect_ubuntu_touch.Files.{FileSystem, write_file}
use openconnect_ubuntu_touch.Files.Contents.{succeeds, read_file-write_file}
use openconnect_ubuntu_touch.Files.{read_file}
use openconnect_ubuntu_touch.Status.{Status, Publisher, Change, changed, update, update_all}

-- The text of the file after the changes, where `old` was there: that of the status at the last
-- change whose write went through.
abbrev pub last_text : (Status → Text) → List Change → Status → Option Text → Option Text
last_text encode [] s old = old
last_text encode (c ∷ cs) s old =
    last_text encode cs (changed c s)
      (if succeeds c.outcome then some (encode (changed c s) ++ newline ∷ []) else old)

-- The status after the changes.
abbrev pub changed_all : List Change → Status → Status
changed_all [] s = s
changed_all (c ∷ cs) s = changed_all cs (changed c s)

pub update_all-published :
    (encode : Status → Text) (cs : List Change) (p : Publisher) (fs : FileSystem)
    → ((update_all encode cs p fs).0 ≡ record p { cur = changed_all cs p.cur })
      × (read_file (update_all encode cs p fs).1 p.path
          ≡ last_text encode cs p.cur (read_file fs p.path))
unfolding update_all update
update_all-published encode [] p fs = (refl, refl)
update_all-published encode (c ∷ cs) p fs =
    let next = record p { cur = changed c p.cur } in
    let text = encode next.cur ++ newline ∷ [] in
    let fs' = (write_file c.outcome p.path text 0o600 fs).0 in
    let (status, file) = update_all-published encode cs next fs' in
    (
      status,
      file
          ∙ ap (last_text encode cs next.cur) (read_file-write_file c.outcome p.path text 0o600 fs),
    )
