-- ===== src/Files/Named.antt =====
-- writeFile and the files of other names.
use openconnect_ubuntu_touch.Common.{ℕ, ◌≡◌, ◌≢◌, sym, ap, ◌∙◌, false, ◌++◌, arith}
use openconnect_ubuntu_touch.Common.Text.{Text, codes, text_eq, text_eq_refl}
use openconnect_ubuntu_touch.FilePath.{last_name}
use openconnect_ubuntu_touch.FilePath.Names.{last_name-append}
use openconnect_ubuntu_touch.Files.{FileSystem, Outcome, tmp_of, write_file}
use openconnect_ubuntu_touch.Files.Atomic.{write_file_atomic}

pub ne_of_names : (p q n m : Text) → last_name p ≡ n → last_name q ≡ m → text_eq n m ≡ false → p ≢ q
ne_of_names p q n m hp hq h e =
    let same : m ≡ n = sym hq ∙ ap last_name (sym e) ∙ hp in
    cc (sym h ∙ ap (text_eq n) same ∙ text_eq_refl n)

last_name-tmp_of : (p n : Text) → last_name p ≡ n → last_name (tmp_of p) ≡ n ++ codes ".tmp"
last_name-tmp_of p n h =
    last_name-append p (codes ".tmp") (omega arith) ∙ ap (λ (t : Text). t ++ codes ".tmp") h

-- A file whose name is neither that of the path nor that of its temporary file is left alone.
pub write_file_elsewhere :
    (o : Outcome) (p content : Text) (perm : ℕ) (fs : FileSystem) (q n m : Text)
    → last_name p ≡ n
    → last_name q ≡ m
    → text_eq m n ≡ false
    → text_eq m (n ++ codes ".tmp") ≡ false
    → (write_file o p content perm fs).0 q ≡ fs q
write_file_elsewhere o p content perm fs q n m hp hq other not_tmp =
    let (_, _, rest) = write_file_atomic o p content perm fs in
    rest q (ne_of_names q p m n hq hp other)
      (ne_of_names q (tmp_of p) m (n ++ codes ".tmp") hq (last_name-tmp_of p n hp) not_tmp)
