-- ===== src/Quic/Cert/Tests.antt =====
-- A certificate of internal/quicx/cert.go that is made, found again and pinned.
use chimera_core.Prelude.{
  ℕ, ◌≡◌, ◌≢◌, ◌↔◌, refl, true, List, [], ◌∷◌, ◌++◌, Option, none, some, ok, err, replicate, arith,
  ℕ_discrete, subst, sym,
}
use chimera_core.Prelude.Bytes.{bytes_discrete}
use chimera_core.Prelude.Dict.{lookup, insert, delete}
use chimera_core.Prelude.Text.{trim_space}
use chimera_core.Quic.Cert.{
  File, Disk, Calls, fill_temp, clean_up, write_file_atomic, Crypto, template, hex_text,
  certificate_fingerprint, create_certificate, load_or_create, load_or_create_certificate,
  ensure_certificate, load_server_certificate, load_server_pair, verify_certificate_name, CertError,
}
use chimera_core.Chimera.Ip.{bytes_equal, bytes_equal_refl}
use chimera_core.Quic.Cert.Atomic.{find, Atomic, write_file_atomic-Atomic}
use chimera_core.Quic.Cert.Again.{IsCrypto, IsPlainName, NewName, load_or_create_certificate_again}
use chimera_core.Quic.Client.{pinned_client_tls_config, verify_peer_certificate}
use chimera_core.Quic.Client.Pin.{HasDigest, pinned-certificate_fingerprint}

-- A certificate for a single DNS name is this name, and a file in PEM is the certificate and its key.
abbrev one_name : List (List ℕ) → Option (List ℕ × List ℕ)
one_name [] = none
one_name (name ∷ []) = some (name, [])
one_name (_ ∷ _ ∷ _) = none

abbrev crypto : Crypto
crypto = record {
  key_pair = λ cert key. some (cert ∷ []);
  names_host = bytes_equal;
  sha256 = λ der. replicate 32 171;
  parse_ip = λ name. none;
  generate = λ t. one_name t.dns_names;
  pem = λ der key. some der;
}

one_name-Lists :
    (names before behind : List (List ℕ)) (host der key : List ℕ)
    → one_name names ≡ some (der, key)
    → names ≡ before ++ (host ∷ behind)
    → bytes_equal der host ≡ true
one_name-Lists [] before behind host der key made listed = absurd (ground arith)
one_name-Lists (name ∷ []) [] behind host der key made listed =
    let same : der ≡ host = ground arith in rw same (bytes_equal_refl host)
one_name-Lists (name ∷ []) (b ∷ []) behind host der key made listed = absurd (ground arith)
one_name-Lists (name ∷ []) (b ∷ _ ∷ before) behind host der key made listed = absurd (ground arith)
one_name-Lists (name ∷ _ ∷ names) before behind host der key made listed = absurd (ground arith)

crypto-IsCrypto : IsCrypto crypto
crypto-IsCrypto = record {
  reads_back = λ t der key text made e. let same : der ≡ text = ground arith in rw same refl;
  checks_ip = λ t der key host address made plain e listed. absurd (ground arith);
  checks_dns = λ t der key host made plain e (before, behind, listed).
      one_name-Lists t.dns_names before behind host der key made listed;
}

abbrev calls : Calls
calls = record {
  read_ok = true;
  create_temp = some (116 ∷ []);
  chmod_ok = true;
  written = 9;
  sync_ok = true;
  close_ok = true;
  rename_ok = true;
  remove_ok = true;
}

-- A disk with another file.
abbrev disk : Disk
disk = record { files = (111 ∷ [], record { mode = 1; content = 2 ∷ [] }) ∷ []; past = [] }

-- "p" and "t".
abbrev path : List ℕ
path = 112 ∷ []

abbrev temp_name : List ℕ
temp_name = 116 ∷ []

far : path ≢ temp_name
far x = ground arith

unused : find temp_name disk.files ≡ none
unfolding lookup bytes_discrete ℕ_discrete
unused = refl

new_name : NewName calls path disk
new_name temp e =
    let same : temp_name ≡ temp = ground arith in
    subst (λ t. (path ≢ t) × (find t disk.files ≡ none)) same (far, unused)

write_file_atomic-Atomic_example :
    Atomic calls
      (112 ∷ [])
      (record { mode = 384; content = 7 ∷ [] })
      disk
      (write_file_atomic calls (112 ∷ []) (7 ∷ []) 384 disk)
write_file_atomic-Atomic_example =
    write_file_atomic-Atomic calls (112 ∷ []) (7 ∷ []) 384 disk new_name

abbrev file : File
file = record { mode = 384; content = 104 ∷ [] }

abbrev made : Disk
made = record {
  files = (111 ∷ [], record { mode = 1; content = 2 ∷ [] }) ∷ (112 ∷ [], file) ∷ [];
  past =
      ((111 ∷ [], record { mode = 1; content = 2 ∷ [] })
        ∷ (116 ∷ [], record { mode = 384; content = [] })
        ∷ [])
      ∷ ((111 ∷ [], record { mode = 1; content = 2 ∷ [] })
          ∷ (116 ∷ [], record { mode = 384; content = [] })
          ∷ [])
      ∷ ((111 ∷ [], record { mode = 1; content = 2 ∷ [] }) ∷ (116 ∷ [], file) ∷ [])
      ∷ ((111 ∷ [], record { mode = 1; content = 2 ∷ [] }) ∷ (112 ∷ [], file) ∷ [])
      ∷ [];
}

abbrev print : List ℕ
print = hex_text (replicate 32 171)

program : Unit {0}
unfolding load_or_create_certificate load_or_create create_certificate certificate_fingerprint
    write_file_atomic fill_temp clean_up template lookup insert delete bytes_discrete ℕ_discrete
    trim_space hex_text
program = tt

making :
    load_or_create_certificate crypto calls (32 ∷ 112 ∷ []) (104 ∷ []) 5 disk
    ≡ (made, ok ((104 ∷ []) ∷ [], print))
unfolding program
making = refl

trimmed : trim_space (32 ∷ 112 ∷ []) ≡ 112 ∷ []
unfolding trim_space
trimmed = refl

plain_name : IsPlainName (trim_space (104 ∷ []))
unfolding trim_space
plain_name = (λ e. absurd (omega (arith, e)), λ e. ground arith)

absent : find (trim_space (32 ∷ 112 ∷ [])) disk.files ≡ none
unfolding program
absent = refl

load_or_create_certificate_again_example :
    (load_or_create_certificate crypto calls (32 ∷ 112 ∷ []) (104 ∷ []) 9 made).1
    ≡ ok ((104 ∷ []) ∷ [], print)
load_or_create_certificate_again_example =
    load_or_create_certificate_again crypto crypto-IsCrypto calls calls (32 ∷ 112 ∷ []) (104 ∷ []) 5
      9 disk made made ((104 ∷ []) ∷ []) print absent
      (subst (λ p. NewName calls p disk) (sym trimmed) new_name) plain_name making refl refl refl

pinned-certificate_fingerprint_example :
    (fp : List ℕ) × (pinned_client_tls_config (certificate_fingerprint crypto ((1 ∷ []) ∷ []))
      ≡ ok fp)
    × ((verify_peer_certificate crypto.sha256 fp [] ≡ none)
        ↔ HasDigest crypto (replicate 32 171) [])
pinned-certificate_fingerprint_example =
    pinned-certificate_fingerprint crypto ((1 ∷ []) ∷ []) [] (omega arith) refl

-- The name of the pair's certificate is checked.
empty_pair :
    (load_server_certificate crypto calls (1 ∷ []) (some []) [] (104 ∷ []) 5 disk).1
    ≡ err CertError.empty_chain
unfolding load_server_certificate load_server_pair verify_certificate_name
empty_pair = refl

ensured : (ensure_certificate crypto calls [] (104 ∷ []) 5 disk).1 ≡ err CertError.missing_option
unfolding ensure_certificate program
ensured = refl
