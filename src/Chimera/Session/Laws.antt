-- ===== src/Chimera/Session/Laws.antt =====
-- The session messages of internal/chimera/chimera.go: what the readers accept.
use chimera_core.Prelude.{
  ℕ, ◌≡◌, refl, List, [], ◌∷◌, ◌++◌, ok, ◌>>=◌, ◌↔◌, arith, length, inl, inr, Result-cases,
}
use chimera_core.Prelude.Bytes.{read_full, read_full-append, read_full-eq-ok}
use chimera_core.Chimera.Session.{
  magic_byte0, magic_byte1, magic_byte2, magic_byte3, protocol_version, write_session_header,
  write_session_response, read_checked, check_preamble, read_session_header, read_session_response,
}

pub header_roundtrip :
    (flags : ℕ) (rest : List ℕ)
    → read_session_header (write_session_header flags ++ rest) ≡ ok (flags, rest)
unfolding read_session_header write_session_header read_full
header_roundtrip flags rest = refl

pub response_roundtrip :
    (status : ℕ) (rest : List ℕ)
    → read_session_response (write_session_response status ++ rest) ≡ ok (status, rest)
unfolding read_session_response write_session_response read_full
response_roundtrip status rest = refl

abbrev pub preamble : ℕ → List ℕ
preamble value =
    magic_byte0 ∷ magic_byte1 ∷ magic_byte2 ∷ magic_byte3 ∷ protocol_version ∷ value ∷ []

check_preamble-eq-ok :
    (h : List ℕ) (value : ℕ)
    → check_preamble h ≡ ok value
    → (pad : List ℕ) × (h ≡ preamble value ++ pad)
unfolding check_preamble
check_preamble-eq-ok (b0 ∷ b1 ∷ b2 ∷ b3 ∷ version ∷ v ∷ pad) value e = (pad, ground arith)
check_preamble-eq-ok _ value e = ([], ground arith)

-- The padding that a header of `n` bytes has after its first six.
abbrev pub Framed : ℕ → ℕ → List ℕ → List ℕ → Type 0
Framed n value rest s =
    (pad : List ℕ) × (s ≡ (preamble value ++ pad) ++ rest) × (length (preamble value ++ pad) ≡ n)

read_checked-Framed :
    (n : ℕ) (s : List ℕ) (value : ℕ) (rest : List ℕ)
    → read_checked n s ≡ ok (value, rest)
    → Framed n value rest s
unfolding read_checked
read_checked-Framed n s value rest e = elim (Result-cases (read_full n s)) [
  | inr (x, bad) ↦ absurd (ground arith)
  | inl (p, good) ↦ elim (Result-cases (check_preamble p.0)) [
    | inr (x, bad) ↦ absurd (ground arith)
    | inl (v, checked) ↦
        let (pad, shape) = check_preamble-eq-ok p.0 v checked in
        (
          pad,
          ground (arith, read_full-eq-ok n s p.0 p.1),
          ground (arith, read_full-eq-ok n s p.0 p.1),
        )
  ]
]

Framed-read_checked :
    (n : ℕ) (s : List ℕ) (value : ℕ) (rest : List ℕ)
    → Framed n value rest s
    → read_checked n s ≡ ok (value, rest)
unfolding read_checked check_preamble
Framed-read_checked n s value rest (pad, shape, size) =
    rw (shape, read_full-append n (preamble value ++ pad) rest size, ◌>>=◌)

-- `read_session_header` succeeds exactly on 32 bytes that start with the magic, the protocol version
-- and the flags byte, whatever the other 26 are; it returns that flags byte and leaves what follows.
-- `read_session_response` does the same on 8 bytes and the status byte.
pub read_session_iff :
    (s : List ℕ) (value : ℕ) (rest : List ℕ)
    → ((read_session_header s ≡ ok (value, rest)) ↔ Framed 32 value rest s)
      × ((read_session_response s ≡ ok (value, rest)) ↔ Framed 8 value rest s)
read_session_iff s value rest = (
  unfold read_session_header in
      (read_checked-Framed 32 s value rest, Framed-read_checked 32 s value rest),
  unfold read_session_response in
      (read_checked-Framed 8 s value rest, Framed-read_checked 8 s value rest),
)
