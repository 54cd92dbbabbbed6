-- ===== src/Chimera/Session.antt =====
-- internal/chimera/chimera.go: session header and session response. A writer is what it hands to
-- `w.Write`; a reader takes the bytes that are still to come and returns those that it leaves.
pub mod Laws
use chimera_core.Prelude.{
  ℕ, ◌≡◌, Bool, ◌&&◌, ◌||◌, not, List, [], ◌∷◌, ◌++◌, Result, ok, err, ◌>>=◌, ◌==◌, if◌then◌else◌,
  replicate,
}
use chimera_core.Prelude.Bytes.{IoError, read_full}

abbrev pub magic_byte0 : ℕ
magic_byte0 = 0x43

abbrev pub magic_byte1 : ℕ
magic_byte1 = 0x48

abbrev pub magic_byte2 : ℕ
magic_byte2 = 0x49

abbrev pub magic_byte3 : ℕ
magic_byte3 = 0x4d

abbrev pub protocol_version : ℕ
protocol_version = 0x01

abbrev pub status_ok : ℕ
status_ok = 0x00

abbrev pub status_version_mismatch : ℕ
status_version_mismatch = 0x01

abbrev pub status_dial_error : ℕ
status_dial_error = 0x02

abbrev pub cmd_connect : ℕ
cmd_connect = 0x01

abbrev pub cmd_udp : ℕ
cmd_udp = 0x03

pub data WireError : Type 0 where
  io : IoError → WireError
  bad_magic version_mismatch empty_domain domain_too_long unsupported_type : WireError

-- An error of the reader below, passed on.
abbrev pub lift_io {ℓ} : {A : Type ℓ} → Result IoError A → Result WireError A
lift_io (ok a) = ok a
lift_io (err e) = err (io e)

unfoldable pub write_session_header : ℕ → List ℕ
write_session_header flags =
    magic_byte0
    ∷ magic_byte1
    ∷ magic_byte2
    ∷ magic_byte3
    ∷ protocol_version
    ∷ flags
    ∷ replicate 26 0

unfoldable pub write_session_response : ℕ → List ℕ
write_session_response status =
    magic_byte0
    ∷ magic_byte1
    ∷ magic_byte2
    ∷ magic_byte3
    ∷ protocol_version
    ∷ status
    ∷ replicate 2 0

-- The checks that both readers make on the bytes that they have read.
unfoldable pub check_preamble : List ℕ → Result WireError ℕ
check_preamble (b0 ∷ b1 ∷ b2 ∷ b3 ∷ version ∷ value ∷ _) =
    if not (b0 == magic_byte0)
      || not (b1 == magic_byte1)
      || not (b2 == magic_byte2)
      || not (b3 == magic_byte3)
    then err bad_magic
    else if not (version == protocol_version)
    then err version_mismatch
    else ok value
check_preamble _ = err (io IoError.unexpected_eof)

-- `io.ReadFull` of `n` bytes, then the checks.
unfoldable pub read_checked : ℕ → List ℕ → Result WireError (ℕ × List ℕ)
read_checked n s = do
  (header, rest) ← lift_io (read_full n s)
  value ← check_preamble header
  ok (value, rest)

unfoldable pub read_session_header : List ℕ → Result WireError (ℕ × List ℕ)
unfolding read_checked check_preamble
read_session_header s = read_checked 32 s

unfoldable pub read_session_response : List ℕ → Result WireError (ℕ × List ℕ)
unfolding read_checked check_preamble
read_session_response s = read_checked 8 s
