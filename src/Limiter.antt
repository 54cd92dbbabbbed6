-- ===== src/Limiter.antt =====
-- internal/quicx/limiter.go. The semaphore is the number of its tokens in use. The float64 tokens of
-- an address are counted exactly here, in units of 1/perIPWindow of a token: with times in
-- nanoseconds all values are whole numbers of this unit. Rounding of float64 is not modelled.
pub mod Invariant
pub mod Bucket
pub mod Rate
mod Tests
use chimera_core.Prelude.{
  ℕ, ◌+◌, ◌-◌, ◌*◌, ◌≡◌, Bool, true, false, not, ◌&&◌, ◌||◌, List, [], ◌∷◌, Option, none, some,
  ◌==◌, ltb, leb, if◌then◌else◌, length, min,
}
use chimera_core.Prelude.Bytes.{bytes_discrete}
use chimera_core.Prelude.Dict.{lookup, insert, delete}
use chimera_core.Prelude.Int.{ℤ, or_default}
use chimera_core.Prelude.Text.{trim_space, to_lower, split_host_port}

pub record LimitConfig : Type 0 where
  pub max_concurrent : ℤ
  pub per_ip_burst : ℤ
  pub per_ip_window : ℤ
  pub max_tracked_ips : ℤ

pub record IpLimitState : Type 0 where
  pub tokens : ℕ
  pub updated : ℕ
  pub last_seen : ℕ

pub record Limiter : Type 0 where
  pub max_concurrent : ℕ
  pub in_use : ℕ
  pub burst : ℕ
  pub window : ℕ
  pub max_tracked : ℕ
  pub ips : List (List ℕ × IpLimitState)

unfoldable pub new_limiter : LimitConfig → Limiter
new_limiter cfg = record {
  max_concurrent = or_default cfg.max_concurrent 128;
  in_use = 0;
  burst = or_default cfg.per_ip_burst 20;
  window = or_default cfg.per_ip_window 60000000000;
  max_tracked = or_default cfg.max_tracked_ips 4096;
  ips = [];
}

unfoldable pub tracked_ips : Limiter → ℕ
tracked_ips l = length l.ips

-- `remoteIP`.
unfoldable pub remote_ip : List ℕ → List ℕ
unfolding trim_space to_lower split_host_port
remote_ip addr = elim (split_host_port (trim_space addr)) [
  | none ↦ to_lower (trim_space addr)
  | some (host, port) ↦ if length host == 0 then to_lower (trim_space addr) else to_lower host
]

-- The loop of `evictOldestIP`: the key and the time so far. An empty key passes for none yet.
unfoldable pub oldest_ip : List ℕ → ℕ → List (List ℕ × IpLimitState) → List ℕ
oldest_ip key time [] = key
oldest_ip key time ((k, s) ∷ m) =
    let later = oldest_ip key time m in
    let taken = oldest_ip k s.last_seen m in
    if length key == 0 || ltb s.last_seen time then taken else later

unfoldable pub evict_oldest_ip : List (List ℕ × IpLimitState) → List (List ℕ × IpLimitState)
evict_oldest_ip m = delete bytes_discrete (oldest_ip [] 0 m) m

-- A full bucket of tokens.
abbrev pub full : Limiter → ℕ
full l = l.burst * l.window

-- The bucket of the address, a new one if there is none, after the time that has passed.
unfoldable pub refill : Limiter → ℕ → IpLimitState → IpLimitState
refill l now s =
    if ltb s.updated now
    then record {
      tokens = min (s.tokens + (now - s.updated) * l.burst) (full l);
      updated = now;
      last_seen = now;
    }
    else record s { last_seen = now }

abbrev pub fresh_state : Limiter → ℕ → IpLimitState
fresh_state l now = record { tokens = full l; updated = now; last_seen = 0 }

-- The part of `Allow` under the lock: the table and whether a token was there.
unfoldable pub take_token :
    Limiter
    → List ℕ
    → ℕ
    → List (List ℕ × IpLimitState)
    → IpLimitState
    → List (List ℕ × IpLimitState) × Bool
take_token l ip now m s =
    let r = refill l now s in
    if ltb r.tokens l.window
    then (insert bytes_discrete ip r m, false)
    else (insert bytes_discrete ip (record r { tokens = r.tokens - l.window }) m, true)

-- The table with room for one more.
unfoldable pub make_room : Limiter → List (List ℕ × IpLimitState)
make_room l = if leb l.max_tracked (length l.ips) then evict_oldest_ip l.ips else l.ips

unfoldable pub take_ip : Limiter → List ℕ → ℕ → List (List ℕ × IpLimitState) × Bool
take_ip l ip now = elim (lookup bytes_discrete ip l.ips) [
  | none ↦ take_token l ip now (make_room l) (fresh_state l now)
  | some s ↦ take_token l ip now l.ips s
]

-- The semaphore after the call: kept if the call is allowed.
abbrev pub settle : Limiter → List (List ℕ × IpLimitState) × Bool → Limiter × Bool
settle l r = (record l { in_use = if r.1 then l.in_use + 1 else l.in_use; ips = r.0 }, r.1)

-- `Allow`.
unfoldable pub allow : Limiter → List ℕ → Bool → ℕ → Limiter × Bool
unfolding take_ip
allow l remote_addr authenticated now =
    if leb l.max_concurrent l.in_use
    then (l, false)
    else if authenticated
    then (record l { in_use = l.in_use + 1 }, true)
    else settle l (take_ip l (remote_ip remote_addr) now)

-- The function that `Allow` returns; `sync.Once` lets it run once.
unfoldable pub release : Bool → Limiter → Bool × Limiter
release done l = if done then (true, l) else (true, record l { in_use = l.in_use - 1 })
