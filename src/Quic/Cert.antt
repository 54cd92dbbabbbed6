-- ===== src/Quic/Cert.antt =====
-- internal/quicx/cert.go over a file system that may fail at every call. crypto/x509, crypto/tls,
-- encoding/pem, SHA-256 and the random numbers are in `Crypto`. A file is named by its path.
pub mod Hex
pub mod Atomic
pub mod Again
mod Tests
use chimera_core.Prelude.{
  ℕ, ◌+◌, ◌-◌, ◌*◌, ◌/◌, ◌%◌, ◌≡◌, Bool, true, false, not, ◌||◌, ◌==◌, List, [], ◌∷◌, ◌++◌, Option,
  none, some, Result, ok, err, ltb, if◌then◌else◌, length, take,
}
use chimera_core.Prelude.Bytes.{bytes_discrete}
use chimera_core.Prelude.Dict.{lookup, insert, delete}
use chimera_core.Prelude.Text.{trim_space}
use chimera_core.Chimera.Ip.{Ip}
use chimera_core.Auth.Token.{second}

pub record File : Type 0 where
  pub mode : ℕ
  pub content : List ℕ

abbrev pub Files : Type 0
Files = List (List ℕ × File)

-- The files now, and what they were after each call that changed them, the latest last.
pub record Disk : Type 0 where
  pub files : Files
  pub past : List Files

abbrev pub change : Files → Disk → Disk
change files d = record { files = files; past = d.past ++ (files ∷ []) }

-- What the calls return: a new name or an error, how many bytes are written, and whether the others
-- succeed.
pub record Calls : Type 0 where
  pub read_ok : Bool
  pub create_temp : Option (List ℕ)
  pub chmod_ok : Bool
  pub written : ℕ
  pub sync_ok : Bool
  pub close_ok : Bool
  pub rename_ok : Bool
  pub remove_ok : Bool

pub data FileError : Type 0 where
  create_failed chmod_failed write_failed sync_failed close_failed rename_failed : FileError

-- os.Rename of the temporary file, in one step.
abbrev pub renamed : List ℕ → List ℕ → File → Files → Files
renamed temp path file files = insert bytes_discrete path file (delete bytes_discrete temp files)

-- `writeFileAtomic` between `CreateTemp` and the deferred call; no error means `keep`.
unfoldable pub fill_temp : Calls → List ℕ → List ℕ → List ℕ → ℕ → Disk → Disk × Option FileError
fill_temp calls temp path content mode d =
    let put =
      λ (n : ℕ). insert bytes_discrete temp (record { mode = mode; content = take n content }) in
    let d1 = change (put 0 d.files) d in
    let d2 = change (put calls.written d1.files) d1 in
    let d3 = change (put (length content) d1.files) d1 in
    if not calls.chmod_ok
    then (d, some chmod_failed)
    else if ltb calls.written (length content)
    then (d2, some write_failed)
    else if not calls.sync_ok
    then (d3, some sync_failed)
    else if not calls.close_ok
    then (d3, some close_failed)
    else if not calls.rename_ok
    then (d3, some rename_failed)
    else (change (renamed temp path (record { mode = mode; content = content }) d3.files) d3, none)

-- The deferred call.
unfoldable pub clean_up : Calls → List ℕ → Disk × Option FileError → Disk × Option FileError
clean_up calls temp (d, none) = (d, none)
clean_up calls temp (d, some e) =
    if calls.remove_ok then (change (delete bytes_discrete temp d.files) d, some e) else (d, some e)

-- The file that os.CreateTemp makes.
abbrev pub new_temp : File
new_temp = record { mode = 384; content = [] }

unfoldable pub write_file_atomic : Calls → List ℕ → List ℕ → ℕ → Disk → Disk × Option FileError
unfolding fill_temp clean_up
write_file_atomic calls path content mode d = elim calls.create_temp [
  | none ↦ (d, some create_failed)
  | some temp ↦ clean_up calls temp (
      fill_temp calls temp path content mode
        (change (insert bytes_discrete temp new_temp d.files) d))
]

-- tls.Certificate, by its chain in DER.
abbrev pub Certificate : Type 0
Certificate = List (List ℕ)

-- The fields of x509.Certificate that the code sets.
pub record Template : Type 0 where
  pub common_name : List ℕ
  pub not_before : ℕ
  pub not_after : ℕ
  pub ip_addresses : List Ip
  pub dns_names : List (List ℕ)

-- `key_pair` is tls.X509KeyPair, `names_host` is x509.ParseCertificate with VerifyHostname,
-- `generate` gives a certificate and its key in DER, each signed with a new key.
pub record Crypto : Type 0 where
  pub key_pair : List ℕ → List ℕ → Option Certificate
  pub names_host : List ℕ → List ℕ → Bool
  pub sha256 : List ℕ → List ℕ
  pub parse_ip : List ℕ → Ip
  pub generate : Template → Option (List ℕ × List ℕ)
  pub pem : List ℕ → List ℕ → Option (List ℕ)

pub data CertError : Type 0 where
  missing_option bad_pair empty_chain wrong_name cannot_chmod cannot_read : CertError
  cannot_generate cannot_encode : CertError
  cannot_persist : FileError → CertError

-- encoding/hex.
abbrev pub digit : ℕ → ℕ
digit n = if ltb n 10 then 48 + n else 87 + n

unfoldable pub hex_text : List ℕ → List ℕ
hex_text [] = []
hex_text (b ∷ bs) = digit (b / 16) ∷ digit (b % 16) ∷ hex_text bs

abbrev pub leaf : Certificate → List ℕ
leaf [] = []
leaf (der ∷ _) = der

-- The template of a new certificate, valid from an hour ago for a year; times are nanoseconds.
unfoldable pub template : (List ℕ → Ip) → List ℕ → ℕ → Template
template parse_ip server_name now =
    let ip = parse_ip server_name in
    record {
      common_name = server_name;
      not_before = now - 3600 * second;
      not_after = now + 365 * 86400 * second;
      ip_addresses = elim ip [ none ↦ [] | some b ↦ some b ∷ [] ];
      dns_names = elim ip [ none ↦ server_name ∷ [] | some b ↦ [] ];
    }

module _ (crypto : Crypto) where
  -- `verifyCertificateName`.
  unfoldable pub verify_certificate_name : Certificate → List ℕ → Option CertError
  verify_certificate_name [] server_name = some empty_chain
  verify_certificate_name (der ∷ _) server_name =
      if crypto.names_host der server_name then none else some wrong_name

  -- `certificateFingerprint`, of a chain that is not empty.
  unfoldable pub certificate_fingerprint : Certificate → List ℕ
  unfolding hex_text
  certificate_fingerprint cert = hex_text (crypto.sha256 (leaf cert))

  -- `loadOrCreateCertificate` on a file that is there.
  unfoldable pub load_certificate :
      Calls → List ℕ → List ℕ → File → Disk → Disk × Result CertError (Certificate × List ℕ)
  unfolding verify_certificate_name certificate_fingerprint
  load_certificate calls path server_name file d =
      elim (crypto.key_pair file.content file.content) [
        | none ↦ (d, err bad_pair)
        | some cert ↦ elim (verify_certificate_name cert server_name) [
          | some e ↦ (d, err e)
          | none ↦ if not calls.chmod_ok then (d, err cannot_chmod) else (
            change (insert bytes_discrete path (record file { mode = 384 }) d.files) d,
            ok (cert, certificate_fingerprint cert),
          )
        ]
      ]

  -- `loadOrCreateCertificate` from `GenerateKey` on.
  unfoldable pub create_certificate :
      Calls → List ℕ → List ℕ → ℕ → Disk → Disk × Result CertError (Certificate × List ℕ)
  unfolding certificate_fingerprint write_file_atomic
  create_certificate calls path server_name now d =
      elim (crypto.generate (template crypto.parse_ip server_name now)) [
        | none ↦ (d, err cannot_generate)
        | some (der, key) ↦ elim (crypto.pem der key) [
          | none ↦ (d, err cannot_encode)
          | some text ↦
              let (d', fault) = write_file_atomic calls path text 384 d in
              elim fault [
                | some e ↦ (d', err (cannot_persist e))
                | none ↦ (d', ok (der ∷ [], certificate_fingerprint (der ∷ [])))
              ]
        ]
      ]

  -- The same on trimmed options.
  unfoldable pub load_or_create :
      Calls → List ℕ → List ℕ → ℕ → Disk → Disk × Result CertError (Certificate × List ℕ)
  unfolding load_certificate create_certificate
  load_or_create calls path server_name now d =
      if length path == 0 || length server_name == 0
      then (d, err missing_option)
      else elim (lookup bytes_discrete path d.files) [
        | none ↦ create_certificate calls path server_name now d
        | some file ↦
            if calls.read_ok
            then load_certificate calls path server_name file d
            else (d, err cannot_read)
      ]

  -- `loadOrCreateCertificate`.
  unfoldable pub load_or_create_certificate :
      Calls → List ℕ → List ℕ → ℕ → Disk → Disk × Result CertError (Certificate × List ℕ)
  unfolding load_or_create
  load_or_create_certificate calls path server_name now d =
      load_or_create calls (trim_space path) (trim_space server_name) now d

  -- `EnsureCertificate`.
  unfoldable pub ensure_certificate :
      Calls → List ℕ → List ℕ → ℕ → Disk → Disk × Result CertError (List ℕ)
  ensure_certificate calls path server_name now d =
      let (d', r) = load_or_create_certificate calls path server_name now d in
      (d', elim r [ err e ↦ err e | ok (cert, fingerprint) ↦ ok fingerprint ])

  -- `loadServerCertificate` with a certificate file; `pair` is what tls.LoadX509KeyPair reads.
  unfoldable pub load_server_pair :
      Option Certificate → List ℕ → Result CertError (Certificate × List ℕ)
  load_server_pair none server_name = err bad_pair
  load_server_pair (some cert) server_name = elim (verify_certificate_name cert server_name) [
    | some e ↦ err e
    | none ↦ ok (cert, certificate_fingerprint cert)
  ]

  -- `loadServerCertificate`.
  unfoldable pub load_server_certificate :
      Calls
      → List ℕ
      → Option Certificate
      → List ℕ
      → List ℕ
      → ℕ
      → Disk
      → Disk × Result CertError (Certificate × List ℕ)
  unfolding load_server_pair
  load_server_certificate calls certificate_file pair certificate_path server_name now d =
      if length certificate_file == 0
      then load_or_create_certificate calls certificate_path server_name now d
      else (d, load_server_pair pair server_name)
