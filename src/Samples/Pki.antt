-- ===== src/Samples/Pki.antt =====
-- A stand-in for the cryptographic packages, and runs of EnsurePKI with it.
use openconnect_ubuntu_touch.Common.{
  ℕ, ◌≡◌, refl, ap, subst, ◌==◌, arith, Bool, true, false, none, some, Option, ok, err, [], ◌∷◌,
  ◌++◌, length, take, drop,
}
use openconnect_ubuntu_touch.Common.Text.{Text, codes, text_eq}
use openconnect_ubuntu_touch.FilePath.{components, path_of, clean, join}
use openconnect_ubuntu_touch.Files.{
  FileSystem, read_file, put, written, rename_fails, write_fails, write_file,
}
use openconnect_ubuntu_touch.Pki.{
  Certificate, Crypto, IsLawful, Draws, Material, not_written, pki_paths, complete, ca_template,
  server_template, renew, write_material, generate, ensure_pki,
}
use openconnect_ubuntu_touch.Pki.Kept.{ensure_pki_stable}
use openconnect_ubuntu_touch.Pki.Chain.{IsChain, Holds, ensure_pki-IsChain}
use openconnect_ubuntu_touch.Pki.Faults.{ensure_pki_mixed}

abbrev bit_of : Bool → ℕ
bit_of true = 1
bit_of false = 0

abbrev first_of : Text → ℕ
first_of [] = 0
first_of (c ∷ s) = c

-- Every field as numbers, texts behind their lengths. Keys are numbers, each its own public key.
abbrev toy_der : Certificate ℕ → Certificate ℕ → ℕ → ℕ → Text
toy_der t parent pub_key k =
    t.serial
    ∷ t.not_before
    ∷ t.not_after
    ∷ bit_of t.is_ca
    ∷ bit_of t.basic_constraints_valid
    ∷ bit_of t.server_auth
    ∷ pub_key
    ∷ k
    ∷ length t.subject
    ∷ length parent.subject
    ∷ (t.subject ++ (parent.subject ++ t.key_usage ∷ []))

abbrev toy_body : ℕ → ℕ → ℕ → ℕ → ℕ → ℕ → ℕ → ℕ → ℕ → Text → Certificate ℕ
toy_body serial start end ca basic server pub_key subject issuer rest = record {
  serial = serial;
  subject = take subject rest;
  issuer = take issuer (drop subject rest);
  not_before = start;
  not_after = end;
  is_ca = ca == 1;
  basic_constraints_valid = basic == 1;
  key_usage = first_of (drop issuer (drop subject rest));
  server_auth = server == 1;
  public_key = some pub_key;
}

abbrev toy_parse : Text → Option (Certificate ℕ)
toy_parse (n ∷ s ∷ e ∷ c ∷ b ∷ a ∷ p ∷ k ∷ l ∷ i ∷ rest) = some (toy_body n s e c b a p l i rest)
toy_parse _ = none

abbrev toy_signed : Text → ℕ → Bool
toy_signed (n ∷ s ∷ e ∷ c ∷ b ∷ a ∷ p ∷ k ∷ rest) q = k == q
toy_signed _ q = false

abbrev pub toy : Crypto
toy = record {
  Key = ℕ;
  PublicKey = ℕ;
  public_of = λ k. k;
  create_certificate = λ t parent pub_key k. some (toy_der t parent pub_key k);
  parse_certificate = toy_parse;
  signed_by = toy_signed;
  marshal_key = λ k. k ∷ [];
  encode_pem = λ typ der. typ ++ der;
}

take_append : (s t : Text) → take (length s) (s ++ t) ≡ s
take_append [] t = refl
take_append (c ∷ s) t = ap (λ (r : Text). c ∷ r) (take_append s t)

drop_append : (s t : Text) → drop (length s) (s ++ t) ≡ t
drop_append [] t = refl
drop_append (c ∷ s) t = drop_append s t

bit_back : (b : Bool) → (bit_of b == 1) ≡ b
bit_back true = refl
bit_back false = refl

toy_back :
    (t parent : Certificate ℕ) (pub_key k : ℕ)
    → toy_parse (toy_der t parent pub_key k)
      ≡ some (record t { issuer = parent.subject; public_key = some pub_key })
toy_back t parent pub_key k =
    rw
      (
        take_append t.subject (parent.subject ++ t.key_usage ∷ []),
        drop_append t.subject (parent.subject ++ t.key_usage ∷ []),
        take_append parent.subject (t.key_usage ∷ []),
        drop_append parent.subject (t.key_usage ∷ []),
        bit_back t.is_ca,
        bit_back t.basic_constraints_valid,
        bit_back t.server_auth,
      )
      refl

toy-IsLawful : IsLawful toy
toy-IsLawful = record {
  ca_parsed = λ now sn k der h. back (ca_template toy now sn) (ca_template toy now sn) k k der h;
  server_parsed =
      λ now sn parent pub_key k der h. back (server_template toy now sn) parent pub_key k der h;
  signed_created = λ t parent pub_key k der h.
      subst (λ (d : Text). toy_signed d k ≡ true) (some_inj h) (refl_test k);
}
  where
    some_inj : {a b : Text} → some a ≡ some b → a ≡ b
    some_inj h = cc h

    back :
        (t parent : Certificate ℕ) (pub_key k : ℕ) (der : Text)
        → some (toy_der t parent pub_key k) ≡ some der
        → toy_parse der ≡ some (record t { issuer = parent.subject; public_key = some pub_key })
    back t parent pub_key k der h =
        subst
          (λ (d : Text).
            toy_parse d ≡ some (record t { issuer = parent.subject; public_key = some pub_key }))
          (some_inj h) (toy_back t parent pub_key k)

    refl_test : (k : ℕ) → (k == k) ≡ true
    refl_test k = grind arith

abbrev pub pki_draws : Draws toy
pki_draws = record {
  mkdir_ok = true;
  now = 1700000000;
  ca_key = some 41;
  ca_serial = some 7;
  server_key = some 43;
  server_serial = some 8;
  ca_cert_write = written;
  ca_key_write = written;
  server_cert_write = written;
  server_key_write = written;
}

abbrev pub pki_dir : Text
pki_dir = codes "d"

abbrev pub nothing : FileSystem
nothing q = none

-- The files of a first run.
abbrev made_files : FileSystem
made_files = (ensure_pki toy pki_draws pki_dir nothing).0

made : ensure_pki toy pki_draws pki_dir nothing ≡ (made_files, ok (pki_paths pki_dir))
unfolding ensure_pki complete renew generate write_material write_file
made = refl

-- A year later, with a disk that fails.
abbrev later_draws : Draws toy
later_draws = record pki_draws { now = 1731536000; ca_key = none; ca_cert_write = rename_fails }

ensure_pki_stable_example :
    ensure_pki toy later_draws pki_dir made_files ≡ (made_files, ok (pki_paths pki_dir))
ensure_pki_stable_example =
    ensure_pki_stable toy pki_draws later_draws pki_dir nothing made_files (pki_paths pki_dir) made
      refl

nothing-complete : complete nothing pki_dir ≡ false
unfolding complete
nothing-complete = refl

ensure_pki-IsChain_example :
    (m : Material toy) × (ca : Certificate ℕ) × (server : Certificate ℕ) × Holds toy made_files
      pki_dir m
    × IsChain toy m ca server
ensure_pki-IsChain_example =
    ensure_pki-IsChain toy pki_draws pki_dir nothing made_files (pki_paths pki_dir) toy-IsLawful
      refl nothing-complete made

-- The server's certificate and key of before, without the CA's.
abbrev old_files : FileSystem
old_files =
    put
      (put nothing (pki_paths pki_dir).server_cert
        (some (record { content = codes "old cert"; mode = 0o644 })))
      (pki_paths pki_dir).server_key (some (record { content = codes "old key"; mode = 0o600 }))

abbrev full_disk : Draws toy
full_disk = record pki_draws { server_cert_write = write_fails (codes "half") }

abbrev ca_of : Certificate ℕ
ca_of = record (ca_template toy 1700000000 7) {
  issuer = codes "ocbridge local CA";
  public_key = some 41;
}

abbrev material : Material toy
material = record {
  ca_der = toy_der (ca_template toy 1700000000 7) (ca_template toy 1700000000 7) 41 41;
  ca_private = 41;
  server_der = toy_der (server_template toy 1700000000 8) ca_of 43 41;
  server_private = 43;
}

generated : generate toy full_disk ≡ ok material
unfolding generate
generated = refl

old_files-complete : complete old_files pki_dir ≡ false
unfolding complete text_eq join clean path_of components
old_files-complete = refl

old_cert_there : read_file old_files (pki_paths pki_dir).server_cert ≡ some (codes "old cert")
unfolding text_eq join clean path_of components
old_cert_there = refl

old_key_there : read_file old_files (pki_paths pki_dir).server_key ≡ some (codes "old key")
unfolding text_eq join clean path_of components
old_key_there = refl

ensure_pki_mixed_example :
    (fs' : FileSystem) × (ensure_pki toy full_disk pki_dir old_files ≡ (fs', err not_written))
    × (ensure_pki toy later_draws pki_dir fs' ≡ (fs', ok (pki_paths pki_dir)))
    × (read_file fs' (pki_paths pki_dir).ca_cert ≡ some (codes "CERTIFICATE" ++ material.ca_der))
    × (read_file fs' (pki_paths pki_dir).server_cert ≡ some (codes "old cert"))
ensure_pki_mixed_example =
    ensure_pki_mixed toy full_disk later_draws pki_dir old_files material (codes "old cert")
      (codes "old key") refl refl old_files-complete old_cert_there old_key_there generated refl
      refl refl
