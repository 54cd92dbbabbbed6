-- ===== src/Quic/Cert/Again.antt =====
-- The certificate that internal/quicx/cert.go makes is the one that it finds at the next start.
use chimera_core.Prelude.{
  ℕ, ◌≡◌, ◌≢◌, true, ◌||◌, ◌==◌, List, [], ◌∷◌, none, some, ok, length, ◌++◌, arith, Bool-cases,
  Option-cases, inl, inr, ◌∙◌, subst,
}
use chimera_core.Prelude.Bytes.{bytes_discrete}
use chimera_core.Prelude.Dict.{lookup-insert_self}
use chimera_core.Prelude.Text.{trim_space}
use chimera_core.Chimera.Address.{first}
use chimera_core.Quic.Cert.{
  File, Disk, Calls, write_file_atomic, Certificate, Template, Crypto, template,
  verify_certificate_name, certificate_fingerprint, load_certificate, create_certificate,
  load_or_create, load_or_create_certificate,
}
use chimera_core.Quic.Cert.Atomic.{find, Atomic, write_file_atomic-Atomic}

-- A name that VerifyHostname does not read as more than it says: it takes off the brackets of an IP
-- address, and no certificate is valid for ".".
abbrev pub IsPlainName : List ℕ → Type 0
IsPlainName name = (first name ≢ 91) × (name ≢ 46 ∷ [])

-- The certificate lists a name, or an address.
abbrev pub Lists {ℓ} : {A : Type ℓ} → A → List A → Type ℓ
Lists {A = A} a as' = (before : List A) × (behind : List A) × (as' ≡ before ++ (a ∷ behind))

-- What crypto/x509, encoding/pem and crypto/tls promise for a certificate that CreateCertificate has made
-- and its key: X509KeyPair reads the pair back from its PEM text. VerifyHostname checks an IP address
-- against the addresses of the template and any other name against its DNS names; the common name
-- is ignored.
pub record IsCrypto (crypto : Crypto) : Type 0 where
  pub reads_back :
      (t : Template) (der key text : List ℕ)
      → crypto.generate t ≡ some (der, key)
      → crypto.pem der key ≡ some text
      → crypto.key_pair text text ≡ some (der ∷ [])
  pub checks_ip :
      (t : Template) (der key host address : List ℕ)
      → crypto.generate t ≡ some (der, key)
      → IsPlainName host
      → crypto.parse_ip host ≡ some address
      → Lists (some address) t.ip_addresses
      → crypto.names_host der host ≡ true
  pub checks_dns :
      (t : Template) (der key host : List ℕ)
      → crypto.generate t ≡ some (der, key)
      → IsPlainName host
      → crypto.parse_ip host ≡ none
      → Lists host t.dns_names
      → crypto.names_host der host ≡ true

-- The temporary name is new.
abbrev pub NewName : Calls → List ℕ → Disk → Type 0
NewName calls path d =
    (temp : List ℕ) → calls.create_temp ≡ some temp → (path ≢ temp) × (find temp d.files ≡ none)

module _ (crypto : Crypto) (promised : IsCrypto crypto) where
  -- The new file after a write without an error.
  placed :
      (calls : Calls) (path text : List ℕ) (d d' : Disk)
      → NewName calls path d
      → write_file_atomic calls path text 384 d ≡ (d', none)
      → find path d'.files ≡ some (record { mode = 384; content = text })
  placed calls path text d d' new_name e =
      let new : File = record { mode = 384; content = text } in
      let atomic = write_file_atomic-Atomic calls path text 384 d new_name in
      let left = (subst (Atomic calls path new d) e atomic).1 in
      left path ∙ lookup-insert_self bytes_discrete path new d.files

  -- The template lists the server's name where VerifyHostname looks for it.
  template-names_host :
      (server_name : List ℕ) (now : ℕ) (der key : List ℕ)
      → IsPlainName server_name
      → crypto.generate (template crypto.parse_ip server_name now) ≡ some (der, key)
      → crypto.names_host der server_name ≡ true
  unfolding template
  template-names_host server_name now der key plain made =
      let t = template crypto.parse_ip server_name now in
      elim (Option-cases (crypto.parse_ip server_name)) [
        | inl named ↦
            let listed : t.dns_names ≡ server_name ∷ [] = ground arith in
            promised.checks_dns t der key server_name made plain named ([], [], listed)
        | inr (address, found) ↦
            let listed : t.ip_addresses ≡ some address ∷ [] = ground arith in
            promised.checks_ip t der key server_name address made plain found ([], [], listed)
      ]

  -- What `create_certificate` leaves.
  record Created (path server_name : List ℕ) (d' : Disk) (cert : Certificate) (fingerprint : List ℕ)
      : Type 0 where
    text : List ℕ
    der : List ℕ
    found : find path d'.files ≡ some (record { mode = 384; content = text })
    pair : crypto.key_pair text text ≡ some (der ∷ [])
    host : crypto.names_host der server_name ≡ true
    cert_eq : cert ≡ der ∷ []
    fingerprint_eq : fingerprint ≡ certificate_fingerprint crypto (der ∷ [])

  create_certificate-Created :
      (calls : Calls) (path server_name : List ℕ) (now : ℕ) (d d' : Disk) (cert : Certificate)
      (fingerprint : List ℕ)
      → NewName calls path d
      → IsPlainName server_name
      → create_certificate crypto calls path server_name now d ≡ (d', ok (cert, fingerprint))
      → Created path server_name d' cert fingerprint
  unfolding create_certificate
  create_certificate-Created calls path server_name now d d' cert fingerprint new_name plain e =
      let t = template crypto.parse_ip server_name now in
      elim (Option-cases (crypto.generate t)) [
        | inl bad ↦ absurd (ground arith)
        | inr ((der, key), made) ↦ elim (Option-cases (crypto.pem der key)) [
          | inl bad ↦ absurd (ground arith)
          | inr (text, encoded) ↦ elim (Option-cases (write_file_atomic calls path text 384 d).1) [
            | inr (x, bad) ↦ absurd (ground arith)
            | inl kept ↦
                let whole : write_file_atomic calls path text 384 d ≡ (d', none) = ground arith in
                record {
                  text = text;
                  der = der;
                  found = placed calls path text d d' new_name whole;
                  pair = promised.reads_back t der key text made encoded;
                  host = template-names_host server_name now der key plain made;
                  cert_eq = ground arith;
                  fingerprint_eq = ground arith;
                }
          ]
        ]
      ]

  load_certificate-Created :
      (calls : Calls) (path server_name : List ℕ) (d' e : Disk) (cert : Certificate)
      (fingerprint : List ℕ) (c : Created path server_name d' cert fingerprint)
      → calls.chmod_ok ≡ true
      → (load_certificate crypto calls path server_name
          (record { mode = 384; content = c.text })
          e).1
        ≡ ok (cert, fingerprint)
  unfolding load_certificate verify_certificate_name
  load_certificate-Created calls path server_name d' e cert fingerprint c chmod =
      ground (arith, c.pair, c.host, c.cert_eq, c.fingerprint_eq)

  -- For a server name that, without the white space around it, is not "." and does not begin with a bracket:
  -- if no file is at the path, the temporary name is new and loadOrCreateCertificate gives a certificate,
  -- then it has made one that a later call, with the same options on a disk whose file at the path is
  -- the same and where reading and chmod work, gives again, with the same fingerprint: a client that
  -- pinned it is not locked out by a restart.
  pub load_or_create_certificate_again :
      (calls calls' : Calls) (path server_name : List ℕ) (now later : ℕ) (d d' e : Disk)
      (cert : Certificate) (fingerprint : List ℕ)
      → find (trim_space path) d.files ≡ none
      → NewName calls (trim_space path) d
      → IsPlainName (trim_space server_name)
      → load_or_create_certificate crypto calls path server_name now d
        ≡ (d', ok (cert, fingerprint))
      → find (trim_space path) e.files ≡ find (trim_space path) d'.files
      → calls'.read_ok ≡ true
      → calls'.chmod_ok ≡ true
      → (load_or_create_certificate crypto calls' path server_name later e).1
        ≡ ok (cert, fingerprint)
  unfolding load_or_create_certificate load_or_create
  load_or_create_certificate_again calls calls' path server_name now later d d' e cert fingerprint
        absent new_name plain made same read chmod =
      let p = trim_space path in
      let name = trim_space server_name in
      elim (Bool-cases (length p == 0 || length name == 0)) [
        | inl bad ↦ absurd (ground arith)
        | inr given ↦
            let run : create_certificate crypto calls p name now d ≡ (d', ok (cert, fingerprint)) =
              ground arith in
            let c =
              create_certificate-Created calls p name now d d' cert fingerprint new_name plain
                run in
            let found = same ∙ c.found in
            let loaded = load_certificate-Created calls' p name d' e cert fingerprint c chmod in
            ground arith
      ]
