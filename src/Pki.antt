-- ===== src/Pki.antt =====
-- EnsurePKI of src/ocbridge/pki.go: the local CA and the server's certificate. The keys, the
-- certificates and their encodings are of Go's packages crypto/rsa, crypto/x509 and encoding/pem, and
-- are an argument of the definitions.
pub mod Written
pub mod Kept
pub mod Chain
pub mod Faults
use openconnect_ubuntu_touch.Common.{
  ℕ, ◌+◌, ◌-◌, ◌*◌, ◌≡◌, Bool, true, false, ◌&&◌, not, Option, none, some, List, [], ◌∷◌, Result,
  ok, err, ◌>>=◌, bit_or, if◌then◌else◌,
}
use openconnect_ubuntu_touch.Common.Text.{Text, codes}
use openconnect_ubuntu_touch.FilePath.{join}
use openconnect_ubuntu_touch.Files.{File, FileSystem, Outcome, write_file}
use openconnect_ubuntu_touch.Config.{Paths}

-- x509.KeyUsage is a set of bits.
abbrev pub key_usage_digital_signature : ℕ
key_usage_digital_signature = 1

abbrev pub key_usage_key_encipherment : ℕ
key_usage_key_encipherment = 4

abbrev pub key_usage_cert_sign : ℕ
key_usage_cert_sign = 32

abbrev pub key_usage_crl_sign : ℕ
key_usage_crl_sign = 64

-- x509.Certificate: a template, or what ParseCertificate finds. Times are Unix seconds.
pub record Certificate (PublicKey : Type 0) : Type 0 where
  pub serial : ℕ
  pub subject : Text
  pub issuer : Text
  pub not_before : ℕ
  pub not_after : ℕ
  pub is_ca : Bool
  pub basic_constraints_valid : Bool
  pub key_usage : ℕ
  pub server_auth : Bool
  pub public_key : Option PublicKey

-- The operations of the packages. `create_certificate` takes the template, the parent, the public key
-- of the subject and the key that signs; `signed_by` is CheckSignature of a certificate's DER form.
pub record Crypto : Type 1 where
  pub Key : Type 0
  pub PublicKey : Type 0
  pub public_of : Key → PublicKey
  pub create_certificate :
      Certificate PublicKey → Certificate PublicKey → PublicKey → Key → Option Text
  pub parse_certificate : Text → Option (Certificate PublicKey)
  pub signed_by : Text → PublicKey → Bool
  pub marshal_key : Key → Text
  pub encode_pem : Text → Text → Text

pub data PkiError : Type 0 where
  no_directory : PkiError
  no_key : PkiError
  no_serial : PkiError
  not_created : PkiError
  not_parsed : PkiError
  not_written : PkiError

-- 20 * 365 * 24 * time.Hour
abbrev pub ca_validity : ℕ
ca_validity = 20 * 365 * 24 * 3600

abbrev pub pki_paths : Text → Paths
pki_paths dir = record {
  ca_cert = join (dir ∷ codes "ca.crt" ∷ []);
  server_cert = join (dir ∷ codes "server.crt" ∷ []);
  server_key = join (dir ∷ codes "server.key" ∷ []);
  ccd_dir = [];
  auth_helper = [];
  creds_file = [];
}

abbrev pub ca_key_path : Text → Text
ca_key_path dir = join (dir ∷ codes "ca.key" ∷ [])

-- Whether os.Stat finds a file.
abbrev pub exists : FileSystem → Text → Bool
exists fs path = elim (fs path) [ none ↦ false | some f ↦ true ]

-- Whether all four files are there.
unfoldable pub complete : FileSystem → Text → Bool
complete fs dir =
    let p = pki_paths dir in
    exists fs p.ca_cert
    && (exists fs p.server_cert && (exists fs p.server_key && exists fs (ca_key_path dir)))

abbrev pub or_fail : {A : Type 0} → PkiError → Option A → Result PkiError A
or_fail e none = err e
or_fail e (some a) = ok a

-- What the run returns behind the writes.
abbrev pub concluded : Text → FileSystem × Bool → FileSystem × Result PkiError Paths
concluded dir (fs, done) = (fs, if done then ok (pki_paths dir) else err not_written)

module _ (C : Crypto) where
  -- What one run meets: whether MkdirAll succeeds, the time, what GenerateKey and rand.Int give, and what
  -- becomes of the four writes. The time is past an hour after the start of 1970.
  pub record Draws : Type 0 where
    pub mkdir_ok : Bool
    pub now : ℕ
    pub ca_key : Option C.Key
    pub ca_serial : Option ℕ
    pub server_key : Option C.Key
    pub server_serial : Option ℕ
    pub ca_cert_write : Outcome
    pub ca_key_write : Outcome
    pub server_cert_write : Outcome
    pub server_key_write : Outcome

  abbrev pub ca_template : ℕ → ℕ → Certificate C.PublicKey
  ca_template now sn = record {
    serial = sn;
    subject = codes "ocbridge local CA";
    issuer = [];
    not_before = now - 3600;
    not_after = now - 3600 + ca_validity;
    is_ca = true;
    basic_constraints_valid = true;
    key_usage = bit_or key_usage_cert_sign key_usage_crl_sign;
    server_auth = false;
    public_key = none;
  }

  abbrev pub server_template : ℕ → ℕ → Certificate C.PublicKey
  server_template now sn = record {
    serial = sn;
    subject = codes "ocbridge local server";
    issuer = [];
    not_before = now - 3600;
    not_after = now - 3600 + ca_validity;
    is_ca = false;
    basic_constraints_valid = false;
    key_usage = bit_or key_usage_digital_signature key_usage_key_encipherment;
    server_auth = true;
    public_key = none;
  }

-- What the packages document of the two templates of EnsurePKI, which set BasicConstraintsValid where they
-- set IsCA: a certificate that CreateCertificate makes from one has these members of the template, the
-- parent's subject as its issuer, the public key that it is for, and a signature of the signing key.
pub record IsLawful (C : Crypto) : Type 0 where
  pub ca_parsed :
      (now sn : ℕ) (k : C.Key) (der : Text)
      → C.create_certificate (ca_template C now sn) (ca_template C now sn) (C.public_of k) k
        ≡ some der
      → C.parse_certificate der
        ≡ some (record (ca_template C now sn) {
          issuer = (ca_template C now sn).subject;
          public_key = some (C.public_of k);
        })
  pub server_parsed :
      (now sn : ℕ) (parent : Certificate C.PublicKey) (pub_key : C.PublicKey) (k : C.Key)
      (der : Text)
      → C.create_certificate (server_template C now sn) parent pub_key k ≡ some der
      → C.parse_certificate der
        ≡ some (record (server_template C now sn) {
          issuer = parent.subject;
          public_key = some pub_key;
        })
  pub signed_created :
      (t parent : Certificate C.PublicKey) (pub_key : C.PublicKey) (k : C.Key) (der : Text)
      → C.create_certificate t parent pub_key k ≡ some der
      → C.signed_by der (C.public_of k) ≡ true

module _ (C : Crypto) where
  -- The keys and the certificates in DER form.
  pub record Material : Type 0 where
    pub ca_der : Text
    pub ca_private : C.Key
    pub server_der : Text
    pub server_private : C.Key

  -- Everything that is made before the first file is written.
  unfoldable pub generate : Draws C → Result PkiError Material
  generate d = do
    ca_private ← or_fail no_key d.ca_key
    ca_sn ← or_fail no_serial d.ca_serial
    ca_der ← or_fail not_created (
        C.create_certificate (ca_template C d.now ca_sn) (ca_template C d.now ca_sn)
          (C.public_of ca_private) ca_private)
    ca_cert ← or_fail not_parsed (C.parse_certificate ca_der)
    server_private ← or_fail no_key d.server_key
    server_sn ← or_fail no_serial d.server_serial
    server_der ← or_fail not_created (
        C.create_certificate (server_template C d.now server_sn) ca_cert
          (C.public_of server_private) ca_private)
    ok (record {
      ca_der = ca_der;
      ca_private = ca_private;
      server_der = server_der;
      server_private = server_private;
    })

  -- `pemBlock`
  unfoldable pub pem_block : Outcome → Text → Text → Text → ℕ → FileSystem → FileSystem × Bool
  pem_block o path typ der perm fs = write_file o path (C.encode_pem typ der) perm fs

  -- The four writes: the first that fails ends the run.
  unfoldable pub write_material : Draws C → Text → Material → FileSystem → FileSystem × Bool
  unfolding pem_block
  write_material d dir m fs =
      let p = pki_paths dir in
      let (fs1, done1) =
        pem_block d.ca_cert_write p.ca_cert (codes "CERTIFICATE") m.ca_der 0o644 fs in
      let (fs2, done2) =
        pem_block d.ca_key_write (ca_key_path dir) (codes "RSA PRIVATE KEY")
          (C.marshal_key m.ca_private) 0o600 fs1 in
      let (fs3, done3) =
        pem_block d.server_cert_write p.server_cert (codes "CERTIFICATE") m.server_der 0o644 fs2 in
      let (fs4, done4) =
        pem_block d.server_key_write p.server_key (codes "RSA PRIVATE KEY")
          (C.marshal_key m.server_private) 0o600 fs3 in
      if not done1
      then (fs1, false)
      else if not done2
      then (fs2, false)
      else if not done3
      then (fs3, false)
      else (fs4, done4)

  -- Generation and the writes.
  unfoldable pub renew : Draws C → Text → FileSystem → FileSystem × Result PkiError Paths
  renew d dir fs = elim (generate d) [
    | err e ↦ (fs, err e)
    | ok m ↦ concluded dir (write_material d dir m fs)
  ]

  -- `EnsurePKI(dir)`
  unfoldable pub ensure_pki : Draws C → Text → FileSystem → FileSystem × Result PkiError Paths
  ensure_pki d dir fs =
      if not d.mkdir_ok
      then (fs, err no_directory)
      else if complete fs dir
      then (fs, ok (pki_paths dir))
      else renew d dir fs
