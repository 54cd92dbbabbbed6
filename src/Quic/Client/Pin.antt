-- ===== src/Quic/Client/Pin.antt =====
-- The certificate of internal/quicx/cert.go and the check of client.go meet.
use chimera_core.Prelude.{ℕ, ◌≡◌, ◌↔◌, true, List, [], ◌∷◌, none, ok, length, arith, ap, ◌∙◌, subst}
use chimera_core.Prelude.Bytes.{IsBytes}
use chimera_core.Prelude.Text.{trim_space}
use chimera_core.Chimera.Ip.{bytes_equal-eq, bytes_equal, bytes_equal_refl}
use chimera_core.Client.Options.{hex_bytes}
use chimera_core.Server.Psk.{trim_space-NoSpace}
use chimera_core.Quic.Cert.{Certificate, Crypto, leaf, certificate_fingerprint, hex_text}
use chimera_core.Quic.Cert.Hex.{hex_bytes-hex_text, hex_text-NoSpace}
use chimera_core.Quic.Client.{pinned_client_tls_config, verify_peer_certificate}

module _ (crypto : Crypto) where
  -- The chain's first certificate has the digest.
  abbrev pub HasDigest : List ℕ → List (List ℕ) → Type 0
  HasDigest fp [] = ⊥
  HasDigest fp (der ∷ _) = crypto.sha256 der ≡ fp

  verify_peer_certificate-HasDigest :
      (fp : List ℕ) (chain : List (List ℕ))
      → (verify_peer_certificate crypto.sha256 fp chain ≡ none) ↔ HasDigest fp chain
  unfolding verify_peer_certificate
  verify_peer_certificate-HasDigest fp [] = (λ e. ground arith, λ h. absurd h)
  verify_peer_certificate-HasDigest fp (der ∷ chain) = (
    λ e. bytes_equal-eq (crypto.sha256 der) fp (ground arith),
    λ h.
        let same : bytes_equal (crypto.sha256 der) fp ≡ true =
          subst (λ x. bytes_equal (crypto.sha256 der) x ≡ true) h
            (bytes_equal_refl (crypto.sha256 der)) in
        ground arith,
  )

  -- With a digest of 32 bytes: the text of certificateFingerprint is one that the client takes, and then
  -- its check of the server accepts exactly the chains whose first certificate has the same digest.
  pub pinned-certificate_fingerprint :
      (cert : Certificate) (chain : List (List ℕ))
      → IsBytes (crypto.sha256 (leaf cert))
      → length (crypto.sha256 (leaf cert)) ≡ 32
      → (fp : List ℕ) × (pinned_client_tls_config (certificate_fingerprint crypto cert) ≡ ok fp)
        × ((verify_peer_certificate crypto.sha256 fp chain ≡ none)
            ↔ HasDigest (crypto.sha256 (leaf cert)) chain)
  unfolding pinned_client_tls_config certificate_fingerprint
  pinned-certificate_fingerprint cert chain bytes size =
      let digest = crypto.sha256 (leaf cert) in
      let text = hex_text digest in
      let trimmed : trim_space text ≡ text =
        trim_space-NoSpace text (hex_text-NoSpace digest bytes) in
      let read : hex_bytes (trim_space text) ≡ ok digest =
        ap hex_bytes trimmed ∙ hex_bytes-hex_text digest bytes in
      (digest, ground (arith, read, size), verify_peer_certificate-HasDigest digest chain)
