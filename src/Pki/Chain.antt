-- ===== src/Pki/Chain.antt =====
-- The certificates and keys that EnsurePKI makes belong together.
use openconnect_ubuntu_touch.Common.{
  ◌+◌, ◌≡◌, refl, sym, ap, ◌∙◌, subst, true, false, Option, none, some, Result, ok, >>=-eq-ok,
}
use openconnect_ubuntu_touch.Common.Text.{Text, codes}
use openconnect_ubuntu_touch.Files.{FileSystem, read_file}
use openconnect_ubuntu_touch.Config.{Paths}
use openconnect_ubuntu_touch.Pki.{
  Certificate, Crypto, IsLawful, Draws, Material, PkiError, no_key, no_serial, not_created,
  not_parsed, or_fail, ca_validity, ca_template, server_template, pki_paths, ca_key_path, complete,
  generate, ensure_pki,
}
use openconnect_ubuntu_touch.Pki.Written.{
  fs4, ca_cert-fs4, ca_key-fs4, server_cert-fs4, server_key-fs4,
}
use openconnect_ubuntu_touch.Pki.Kept.{AllWritten, renew_inv, ensure_pki-renew}

or_fail-ok : {A : Type 0} (e : PkiError) (o : Option A) {a : A} → or_fail e o ≡ ok a → o ≡ some a
or_fail-ok e none h = cc
or_fail-ok e (some a) h = ap some (cc h)

some_inj : {A : Type 0} {a b : A} → some a ≡ some b → a ≡ b
some_inj h = cc h

ok_inj : {A : Type 0} {a b : A} → ◌≡◌ {A = Result PkiError A} (ok a) (ok b) → a ≡ b
ok_inj h = cc h

module _ (C : Crypto) where
  -- A server certificate that the CA's key signed, each with its own key, and both valid for the same time.
  pub record IsChain (m : Material C) (ca server : Certificate C.PublicKey) : Type 0 where
    pub ca_parsed : C.parse_certificate m.ca_der ≡ some ca
    pub server_parsed : C.parse_certificate m.server_der ≡ some server
    pub ca_is_ca : (ca.is_ca ≡ true) × (ca.basic_constraints_valid ≡ true)
    pub server_is_no_ca : server.is_ca ≡ false
    pub server_is_server : server.server_auth ≡ true
    pub issued : server.issuer ≡ ca.subject
    pub ca_key_matches : ca.public_key ≡ some (C.public_of m.ca_private)
    pub server_key_matches : server.public_key ≡ some (C.public_of m.server_private)
    pub ca_signed : C.signed_by m.ca_der (C.public_of m.ca_private) ≡ true
    pub server_signed : C.signed_by m.server_der (C.public_of m.ca_private) ≡ true
    pub same_start : server.not_before ≡ ca.not_before
    pub same_end : server.not_after ≡ ca.not_after
    pub lifetime : ca.not_after ≡ ca.not_before + ca_validity

  generate-IsChain :
      IsLawful C
      → (d : Draws C) (m : Material C) → generate C d ≡ ok m
      → (ca : Certificate C.PublicKey) × (server : Certificate C.PublicKey) × IsChain m ca server
  unfolding generate
  generate-IsChain law d m h =
      let (k, e1, h1) = >>=-eq-ok (or_fail no_key d.ca_key) _ h in
      let (sn, e2, h2) = >>=-eq-ok (or_fail no_serial d.ca_serial) _ h1 in
      let pub_key = C.public_of k in
      let template = ca_template C d.now sn in
      let (der, e3, h3) =
        >>=-eq-ok (or_fail not_created (C.create_certificate template template pub_key k)) _ h2 in
      let (cert, e4, h4) = >>=-eq-ok (or_fail not_parsed (C.parse_certificate der)) _ h3 in
      let (sk, e5, h5) = >>=-eq-ok (or_fail no_key d.server_key) _ h4 in
      let (ssn, e6, h6) = >>=-eq-ok (or_fail no_serial d.server_serial) _ h5 in
      let server = server_template C d.now ssn in
      let (sder, e7, h7) =
        >>=-eq-ok (or_fail not_created (C.create_certificate server cert (C.public_of sk) k)) _
          h6 in
      let created = or_fail-ok not_created _ e3 in
      let s_created = or_fail-ok not_created _ e7 in
      let ca : Certificate C.PublicKey = record template {
        issuer = template.subject;
        public_key = some pub_key;
      } in
      let parsed = law.ca_parsed d.now sn k der created in
      let same : cert ≡ ca = some_inj (sym (or_fail-ok not_parsed _ e4) ∙ parsed) in
      let material : ◌≡◌ {A = Material C}
          (record { ca_der = der; ca_private = k; server_der = sder; server_private = sk }) m =
        ok_inj h7 in
      (
        ca,
        record server { issuer = cert.subject; public_key = some (C.public_of sk) },
        subst
            (λ (t : Material C).
              IsChain t ca
                (record server { issuer = cert.subject; public_key = some (C.public_of sk) }))
            material
            (record {
              ca_parsed = parsed;
              server_parsed = law.server_parsed d.now ssn cert (C.public_of sk) k sder s_created;
              ca_is_ca = (refl, refl);
              server_is_no_ca = refl;
              server_is_server = refl;
              issued = ap (λ (t : Certificate C.PublicKey). t.subject) same;
              ca_key_matches = refl;
              server_key_matches = refl;
              ca_signed = law.signed_created template template pub_key k der created;
              server_signed = law.signed_created server cert (C.public_of sk) k sder s_created;
              same_start = refl;
              same_end = refl;
              lifetime = refl;
            }),
      )

  -- The four files hold a certificate of the CA, its key, a certificate of the server and its key.
  pub record Holds (fs : FileSystem) (dir : Text) (m : Material C) : Type 0 where
    pub ca_cert_file :
        read_file fs (pki_paths dir).ca_cert ≡ some (C.encode_pem (codes "CERTIFICATE") m.ca_der)
    pub ca_key_file :
        read_file fs (ca_key_path dir)
        ≡ some (C.encode_pem (codes "RSA PRIVATE KEY") (C.marshal_key m.ca_private))
    pub server_cert_file :
        read_file fs (pki_paths dir).server_cert
        ≡ some (C.encode_pem (codes "CERTIFICATE") m.server_der)
    pub server_key_file :
        read_file fs (pki_paths dir).server_key
        ≡ some (C.encode_pem (codes "RSA PRIVATE KEY") (C.marshal_key m.server_private))

  fs4-Holds :
      (d : Draws C) (dir : Text) (m : Material C) (fs : FileSystem)
      → AllWritten C d dir fs
      → Holds (fs4 C d dir m fs) dir m
  fs4-Holds d dir m fs (w1, w2, w3, w4) = record {
    ca_cert_file = ca_cert-fs4 C d dir m fs ∙ rw w1 refl;
    ca_key_file = ca_key-fs4 C d dir m fs ∙ rw w2 refl;
    server_cert_file = server_cert-fs4 C d dir m fs ∙ rw w3 refl;
    server_key_file = server_key-fs4 C d dir m fs ∙ rw w4 refl;
  }

-- With lawful operations: if one of the four files is missing and MkdirAll succeeds, a run of EnsurePKI
-- that succeeds leaves a CA certificate, the CA's key, a server certificate and the server's key in the
-- four files. Each certificate is for the key beside it, the CA's is marked as a CA and signed by its own
-- key, and the server's is for server authentication, issued in the CA's name, signed by the CA's key
-- and valid for the same 20 years of 365 days.
pub ensure_pki-IsChain :
    (C : Crypto) (d : Draws C) (dir : Text) (fs fs' : FileSystem) (p : Paths)
    → IsLawful C
    → d.mkdir_ok ≡ true
    → complete fs dir ≡ false
    → ensure_pki C d dir fs ≡ (fs', ok p)
    → (m : Material C) × (ca : Certificate C.PublicKey) × (server : Certificate C.PublicKey) × Holds
        C fs' dir m
      × IsChain C m ca server
ensure_pki-IsChain C d dir fs fs' p law made partial h =
    let step = ensure_pki-renew C d dir fs made partial in
    let (m, generated, all, files, _) = renew_inv C d dir fs fs' p (sym step ∙ h) in
    let (ca, server, chain) = generate-IsChain C law d m generated in
    (
      m,
      ca,
      server,
      subst (λ (t : FileSystem). Holds C t dir m) files (fs4-Holds C d dir m fs all),
      chain,
    )
