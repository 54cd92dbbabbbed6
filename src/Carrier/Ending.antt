-- ===== src/Carrier/Ending.antt =====
-- The readers of internal/chimera/chimera.go over a padded connection: how they end.
use chimera_core.Prelude.{
  ℕ, suc, refl, ◌==◌, some, err, arith, Bool-cases, Result-cases, inl, inr, ap,
}
use chimera_core.Chimera.Session.{check_preamble}
use chimera_core.Chimera.Address.{atyp_ipv4, atyp_domain, atyp_ipv6, first}
use chimera_core.Padstream.Conn.{Conn}
use chimera_core.Padstream.Ending.{Preserved, Ends, read_full_loop-Ends}
use chimera_core.Carrier.{
  Padded, and_then, lift_padded, take_bytes, take_domain, take_host, take_address,
  take_target_connect, take_session_response,
}

module _ (P : Conn → Type 0) where
  pub and_then-Ends :
      {A B : Type 0}
      → (p : Padded A) (f : A → Conn → Padded B) → Ends P p
      → ((a : A) (c : Conn) → P c → Ends P (f a c))
      → Ends P (and_then p f)
  and_then-Ends p f e next = elim (Result-cases e.result) [
    | inr (x, bad) ↦ record {
      conn = e.conn;
      result = err x;
      returns = rw e.returns (rw bad refl);
      kept = e.kept;
    }
    | inl (a, good) ↦
        let step = next a e.conn e.kept in
        record {
          conn = step.conn;
          result = step.result;
          returns = rw e.returns (rw good step.returns);
          kept = step.kept;
        }
  ]

  pub done-Ends : {A : Type 0} → (r : A) (c : Conn) → P c → Ends P (some (c, r))
  done-Ends r c s = record { conn = c; result = r; returns = refl; kept = s }

module _ (rng : ℕ → ℕ) (P : Conn → Type 0) (k : Preserved rng P) where
  pub take_bytes-Ends : (n : ℕ) (c : Conn) → P c → Ends P (take_bytes rng n c)
  unfolding take_bytes
  take_bytes-Ends n c s =
      let e = read_full_loop-Ends rng P k (suc n) n c (omega arith) s in
      record { conn = e.conn; result = _; returns = ap lift_padded e.returns; kept = e.kept }

  take_domain-Ends : (c : Conn) → P c → Ends P (take_domain rng c)
  unfolding take_domain
  take_domain-Ends c s = and_then-Ends P _ _ (take_bytes-Ends 1 c s) (λ size c1 s1.
      elim (Bool-cases (first size == 0)) [
        | inl empty ↦ rw empty (done-Ends P _ c1 s1)
        | inr some_bytes ↦ rw some_bytes (take_bytes-Ends (first size) c1 s1)
      ])

  take_host-Ends : (kind : ℕ) (c : Conn) → P c → Ends P (take_host rng kind c)
  unfolding take_host
  take_host-Ends kind c s = elim (Bool-cases (kind == atyp_ipv4)) [
    | inl v4 ↦ rw v4 (and_then-Ends P _ _ (take_bytes-Ends 4 c s) (λ ip c1 s1. done-Ends P _ c1 s1))
    | inr not_v4 ↦ elim (Bool-cases (kind == atyp_domain)) [
      | inl named ↦ rw not_v4 (
          rw named (and_then-Ends P _ _ (take_domain-Ends c s) (λ name c1 s1. done-Ends P _ c1 s1)))
      | inr not_named ↦ elim (Bool-cases (kind == atyp_ipv6)) [
        | inl v6 ↦ rw not_v4 (
            rw not_named (
              rw v6
                (and_then-Ends P _ _ (take_bytes-Ends 16 c s) (λ ip c1 s1. done-Ends P _ c1 s1))))
        | inr other ↦ rw not_v4 (rw not_named (rw other (done-Ends P _ c s)))
      ]
    ]
  ]

  pub take_target_connect-Ends : (c : Conn) → P c → Ends P (take_target_connect rng c)
  unfolding take_target_connect take_address
  take_target_connect-Ends c s = and_then-Ends P _ _ (take_bytes-Ends 1 c s) (λ cmd c1 s1.
      and_then-Ends P _ _
        (and_then-Ends P _ _ (take_bytes-Ends 1 c1 s1) (λ kind c2 s2.
          and_then-Ends P _ _ (take_host-Ends (first kind) c2 s2) (λ host c3 s3.
            and_then-Ends P _ _ (take_bytes-Ends 2 c3 s3) (λ port c4 s4. done-Ends P _ c4 s4))))
        (λ addr c2 s2. done-Ends P _ c2 s2))

  pub take_session_response-Ends : (c : Conn) → P c → Ends P (take_session_response rng c)
  unfolding take_session_response
  take_session_response-Ends c s =
      and_then-Ends P _ _ (take_bytes-Ends 8 c s)
        (λ resp c1 s1. done-Ends P (check_preamble resp) c1 s1)
