-- ===== src/Quic/Admission.antt =====
-- internal/quicx/server.go and udp.go: the server's state, and what a request takes and gives back: a
-- place in the limiter, and for UDP a slot of `udpSlots`, a channel whose nil is `none`.
pub mod System
pub mod Ends
use chimera_core.Prelude.{
  ℕ, ◌+◌, ◌-◌, ◌≡◌, Bool, true, false, not, List, [], ◌∷◌, Option, none, some, leb, if◌then◌else◌,
}
use chimera_core.Chimera.Ip.{bytes_equal}
use chimera_core.Auth.Token.{Authenticator, validate}
use chimera_core.Limiter.{Limiter, allow, release}
use chimera_core.Decoy.{Decoy}

-- "CONNECT".
abbrev pub connect_method : List ℕ
connect_method = 67 ∷ 79 ∷ 78 ∷ 78 ∷ 69 ∷ 67 ∷ 84 ∷ []

-- The channel `udpSlots`: its capacity and the tokens in it.
pub record Slots : Type 0 where
  pub size : ℕ
  pub used : ℕ

pub record Server : Type 0 where
  pub auth : Authenticator
  pub decoy : Decoy
  pub limiter : Limiter
  pub udp_slots : Option Slots
  pub udp_max_packet : ℕ
  pub server_name : List ℕ

-- What the handler reads of an http.Request; `can_stream` says whether the writer is a streamer.
pub record HttpRequest : Type 0 where
  pub method : List ℕ
  pub host : List ℕ
  pub remote_addr : List ℕ
  pub authorization : List ℕ
  pub connect_protocol : List ℕ
  pub can_stream : Bool

abbrev pub is_connect : HttpRequest → Bool
is_connect r = bytes_equal r.method connect_method

-- What comes of the two first lines of `ServeHTTP`.
pub data Entry : Type 0 where
  refused : Entry
  entered : Bool → Entry

module _ (hmac : List ℕ → List ℕ → List ℕ) where
  -- `s.auth.Validate` on a request, at the time `now`.
  abbrev pub validate_request : Server → HttpRequest → ℕ → Option (Authenticator × Bool)
  validate_request s r now =
      validate hmac s.auth r.authorization
        (record { method = r.method; authority = r.host; server_name = s.server_name }) now

  -- The first line of `ServeHTTP`; `none` if the replay cache did not end.
  unfoldable pub authenticate : Server → HttpRequest → ℕ → Option (Server × Bool)
  authenticate s r now =
      if is_connect r
      then elim (validate_request s r now) [
        | none ↦ none
        | some (a, good) ↦ some (record s { auth = a }, good)
      ]
      else some (s, false)

  -- `s.limiter.Allow`, at the time `later`.
  unfoldable pub limit : Server → HttpRequest → Bool → ℕ → Server × Entry
  limit s r authenticated later =
      let (l, allowed) = allow s.limiter r.remote_addr authenticated later in
      (record s { limiter = l }, (if allowed then entered authenticated else refused))

  unfoldable pub enter : Server → HttpRequest → ℕ → ℕ → Option (Server × Entry)
  unfolding limit
  enter s r now later = elim (authenticate s r now) [
    | none ↦ none
    | some (s', authenticated) ↦ some (limit s' r authenticated later)
  ]

-- The deferred `release()`, which runs once.
unfoldable pub leave : Server → Server
leave s = record s { limiter = (release false s.limiter).1 }

-- `SupportsUDPRelay`.
abbrev pub supports_udp_relay : Server → Bool
supports_udp_relay s = elim s.udp_slots [ none ↦ false | some _ ↦ true ]

-- The send to `udpSlots`, `none` if the channel is full or nil.
unfoldable pub take_slot : Server → Option Server
take_slot s = elim s.udp_slots [
  | none ↦ none
  | some c ↦
      if leb c.size c.used
      then none
      else some (record s { udp_slots = some (record c { used = c.used + 1 }) })
]

-- The deferred receive from `udpSlots`.
unfoldable pub free_slot : Server → Server
free_slot s = elim s.udp_slots [
  | none ↦ s
  | some c ↦ record s { udp_slots = some (record c { used = c.used - 1 }) }
]
