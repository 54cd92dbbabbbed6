-- ===== src/Quic/Admission/System.antt =====
-- The requests that internal/quicx/server.go serves at once. Each runs in a goroutine: it enters, holds a
-- slot for a while if it is a UDP session, and leaves, and the steps of all interleave.
pub mod Bounds
use chimera_core.Prelude.{
  ℕ, suc, ◌+◌, ◌-◌, ◌≤◌, ◌<◌, ◌≡◌, refl, Bool, true, false, List, [], ◌∷◌, ◌++◌, Option, none, some,
  length, arith, Option-cases, inl, inr, if◌then◌else◌,
}
use chimera_core.Limiter.{Limiter, allow, release}
use chimera_core.Limiter.Invariant.{IsValid as IsLimiter, SameLimits, allow-IsValid}
use chimera_core.Decoy.{DecoySnapshot, refresh}
use chimera_core.Quic.Admission.{
  Slots, Server, HttpRequest, Entry, refused, entered, enter, limit, authenticate, leave, take_slot,
  free_slot,
}

-- A request that has entered.
pub record Flight : Type 0 where
  pub request : HttpRequest
  pub authenticated : Bool
  pub holds_slot : Bool

pub record System : Type 0 where
  pub server : Server
  pub flights : List Flight

abbrev pub slots_held : List Flight → ℕ
slots_held [] = 0
slots_held (f ∷ fs) = (if f.holds_slot then 1 else 0) + slots_held fs

-- The tokens in `udpSlots` and its capacity; none for the nil channel.
abbrev pub used_of : Option Slots → ℕ
used_of c = elim c [ none ↦ 0 | some t ↦ t.used ]

abbrev pub size_of : Option Slots → ℕ
size_of c = elim c [ none ↦ 0 | some t ↦ t.size ]

module _ (hmac : List ℕ → List ℕ → List ℕ) where
  pub data Step (x : System) : System → Type 0 where
    turned_away :
        (r : HttpRequest) (now later : ℕ) {s : Server}
        → enter hmac x.server r now later ≡ some (s, refused)
        → Step x (record x { server = s })
    came_in :
        (r : HttpRequest) (now later : ℕ) {s : Server} {authenticated : Bool}
        → enter hmac x.server r now later ≡ some (s, entered authenticated)
        → Step x (record {
          server = s;
          flights =
              record { request = r; authenticated = authenticated; holds_slot = false } ∷ x.flights;
        })
    took_slot :
        (before behind : List Flight) (f : Flight) {s : Server}
        → x.flights ≡ before ++ (f ∷ behind)
        → f.authenticated ≡ true
        → f.holds_slot ≡ false
        → take_slot x.server ≡ some s
        → Step x
            (record { server = s; flights = before ++ (record f { holds_slot = true } ∷ behind) })
    gave_slot :
        (before behind : List Flight) (f : Flight)
        → x.flights ≡ before ++ (f ∷ behind)
        → f.holds_slot ≡ true
        → Step x (record {
          server = free_slot x.server;
          flights = before ++ (record f { holds_slot = false } ∷ behind);
        })
    went :
        (before behind : List Flight) (f : Flight)
        → x.flights ≡ before ++ (f ∷ behind)
        → f.holds_slot ≡ false
        → Step x (record { server = leave x.server; flights = before ++ behind })
    refreshed :
        (fetched : Option DecoySnapshot)
        → Step x (record x { server = record x.server { decoy = refresh x.server.decoy fetched } })

  pub data Reach (start : Server) : System → Type 0 where
    started : Reach start (record { server = start; flights = [] })
    stepped : {x y : System} → Reach start x → Step x y → Reach start y
