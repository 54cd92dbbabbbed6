-- ===== src/Client/Select.antt =====
-- The choice of the transport in cmd/chimera-client/main.go. The world `W` is what the dials and the
-- closing of connections change; a dial returns a connection or none, and an error or none.
pub mod Ledger
use chimera_core.Prelude.{
  ℕ, zero, suc, ◌≡◌, Bool, true, false, List, [], ◌∷◌, ◌++◌, Option, none, some, Result, ok, err,
  ◌&&◌, if◌then◌else◌,
}
use chimera_core.Prelude.Int.{ℤ, pos, negsuc}

-- The values of the string `mode`.
pub data Mode : Type 0 where
  tcp quic automatic : Mode
  other : List ℕ → Mode

pub data ModeError : Type 0 where
  exclusive : ModeError

-- `selectedMode`.
unfoldable pub selected_mode : Bool → Bool → Result ModeError Mode
selected_mode force_quic auto_mode =
    if force_quic && auto_mode
    then err exclusive
    else if force_quic
    then ok quic
    else if auto_mode
    then ok automatic
    else ok tcp

pub data SelectError (E : Type 0) : Type 0 where
  dial_failed : E → SelectError E
  bad_timeout unknown_mode : SelectError E

-- The timeout, if it is positive.
abbrev pub positive : ℤ → Option ℕ
positive (pos zero) = none
positive (pos (suc n)) = some (suc n)
positive (negsuc n) = none

-- A dial, by its timeout.
abbrev pub Dial : Type 0 → Type 0 → Type 0 → Type 0
Dial W C E = Option ℕ → W → W × (Option C × Option E)

abbrev pub lift :
    {W C E : Type 0} → W × (Option C × Option E) → W × (Option C × Option (SelectError E))
lift (w, (conn, none)) = (w, (conn, none))
lift (w, (conn, some e)) = (w, (conn, some (dial_failed e)))

abbrev pub close_some : {W C : Type 0} → (C → W → W) → Option C → W → W
close_some close none w = w
close_some close (some c) w = close c w

-- After the dial of QUIC: its connection, or TCP in its place.
abbrev pub fall_back :
    {W C E : Type 0}
    → (C → W → W)
    → Dial W C E
    → W × (Option C × Option E)
    → W × (Option C × Option (SelectError E))
fall_back close dial_tcp (w, (conn, none)) = (w, (conn, none))
fall_back close dial_tcp (w, (conn, some e)) = lift (dial_tcp none (close_some close conn w))

-- `selectTransport`; the context of a dial is its timeout, and `close` closes a connection.
unfoldable pub select_transport :
    {W C E : Type 0}
    → (C → W → W)
    → Mode
    → ℤ
    → Dial W C E
    → Dial W C E
    → W
    → W × (Option C × Option (SelectError E))
select_transport close tcp timeout dial_quic dial_tcp w = lift (dial_tcp none w)
select_transport close quic timeout dial_quic dial_tcp w = lift (dial_quic none w)
select_transport close automatic timeout dial_quic dial_tcp w = elim (positive timeout) [
  | none ↦ (w, (none, some bad_timeout))
  | some t ↦ fall_back close dial_tcp (dial_quic (some t) w)
]
select_transport close (other m) timeout dial_quic dial_tcp w = (w, (none, some unknown_mode))

-- `ownedConn`: the connection and its owner, each closed by a function on the world, if there; and the
-- state of `once` with the error that the first call joined.
pub record OwnedConn (W E : Type 0) : Type 0 where
  pub conn : Option (W → W × List E)
  pub close_owner : Option (W → W × List E)
  pub done : Bool
  pub error : List E

abbrev pub call_some : {W E : Type 0} → Option (W → W × List E) → W → W × List E
call_some none w = (w, [])
call_some (some f) w = f w

-- `Close`.
unfoldable pub close_owned : {W E : Type 0} → OwnedConn W E → W → OwnedConn W E × W × List E
close_owned c w =
    let (w1, conn_err) = call_some c.conn w in
    let (w2, owner_err) = call_some c.close_owner w1 in
    if c.done
    then (c, w, c.error)
    else (record c { done = true; error = conn_err ++ owner_err }, w2, conn_err ++ owner_err)
