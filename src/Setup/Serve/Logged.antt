-- ===== src/Setup/Serve/Logged.antt =====
-- The log file that watchOpenVPN of src/ocbridge/main.go writes.
use openconnect_ubuntu_touch.Common.{
  ℕ, Bool, ◌≤◌, ◌≡◌, ◌⊎◌, refl, sym, ap, subst, ◌∙◌, false, true, some, List, [], ◌∷◌, ◌++◌, length,
  All, append-nil, arith, inl, inr,
}
use openconnect_ubuntu_touch.Common.Text.{Text, codes, is_empty}
use openconnect_ubuntu_touch.Lines.{render}
use openconnect_ubuntu_touch.Scanner.{max_line, scan_lines}
use openconnect_ubuntu_touch.Scanner.Laws.{IsUnbroken, IsShort, scan_lines-render, scan_lines-long}
use openconnect_ubuntu_touch.FilePath.{last_name}
use openconnect_ubuntu_touch.Files.{read_file}
use openconnect_ubuntu_touch.Status.{Status}
use openconnect_ubuntu_touch.Setup.World.{World}
use openconnect_ubuntu_touch.Setup.Serve.{Occurrence, serve_all}
use openconnect_ubuntu_touch.Setup.Serve.Refines.{inputs_of, lines_read, serve_all-serve}

limit_of : max_line ≡ 1048576
unfolding max_line
limit_of = refl

-- Where the scanner stops: at the end of the output, or at a line of 1 MiB or more, whatever follows.
abbrev pub IsStop : Text → Type 0
IsStop tail =
    (tail ≡ [])
    ⊎ ((long : Text) × (rest : Text) × (tail ≡ long ++ rest)
        × IsUnbroken long
        × (1048576 ≤ length long))

pub scanned_to :
    (ls : List Text) (tail : Text)
    → All (IsShort 1048576) ls
    → IsStop tail
    → scan_lines max_line (render ls ++ tail) ≡ (ls, is_empty tail)
unfolding scan_lines
scanned_to ls tail short stop =
    subst (λ (m : ℕ). scan_lines m (render ls ++ tail) ≡ (ls, is_empty tail)) (sym limit_of)
      (scan_lines-render 1048576 ls tail short ∙ at_stop stop)
  where
    filled : (l r : Text) → 1048576 ≤ length l → is_empty (l ++ r) ≡ false
    filled [] r h = absurd (omega arith)
    filled (c ∷ l) r h = refl

    at_stop :
        IsStop tail
        → ◌≡◌ {A = List Text × Bool}
            (ls ++ (scan_lines 1048576 tail).0, (scan_lines 1048576 tail).1)
            (ls, is_empty tail)
    at_stop (inl over) = rw over (λ k. (append-nil ls k, true))
    at_stop (inr (long, rest, cut, unbroken, large)) =
        let scanned =
          ap (scan_lines 1048576) cut
          ∙ scan_lines-long 1048576 long rest (omega arith) unbroken large in
        ap (λ (t : List Text × Bool). (ls ++ t.0, t.1)) scanned
        ∙ (λ k. (append-nil ls k, sym (ap is_empty cut ∙ filled long rest large) k))

-- If the lines among the inputs are those that the scanner delivers of openvpn's output, the output begins
-- with lines of less than 1048576 bytes without carriage returns, and then ends or goes on with a line of
-- 1048576 bytes or more, and every write to the log succeeds: the log gets the text of those lines as it
-- is, and the scanner has read the output to its end exactly if nothing follows them.
pub serve_all_logged :
    (encode : Status → Text) (status_path log_path : Text) (cs : List Occurrence) (w : World)
    (old tail : Text) (ls : List Text)
    → last_name status_path ≡ codes "status.json"
    → last_name log_path ≡ codes "openvpn.log"
    → read_file w.files log_path ≡ some old
    → lines_read log_path (inputs_of cs) ≡ (scan_lines max_line (render ls ++ tail)).0
    → All (IsShort 1048576) ls
    → IsStop tail
    → ((scan_lines max_line (render ls ++ tail)).1 ≡ is_empty tail)
      × (read_file (serve_all encode status_path log_path cs w).0.files log_path
          ≡ some (old ++ render ls))
serve_all_logged encode status_path log_path cs w old tail ls status_named log_named h read short
      stop =
    let (_, log) =
      serve_all-serve encode status_path log_path status_named log_named cs w w.status old refl h in
    let scanned = scanned_to ls tail short stop in
    (
      ap (λ (t : List Text × Bool). t.1) scanned,
      log
          ∙ ap (λ (t : List Text). some (old ++ render t))
              (read ∙ ap (λ (t : List Text × Bool). t.0) scanned),
    )
