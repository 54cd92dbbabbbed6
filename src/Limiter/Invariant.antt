-- ===== src/Limiter/Invariant.antt =====
-- The bounds that internal/quicx/limiter.go keeps.
use chimera_core.Prelude.{
  ℕ, ◌+◌, ◌-◌, ◌≤◌, ◌<◌, ◌≡◌, refl, Bool, List, [], ◌∷◌, some, arith, leb, if◌then◌else◌, length,
  All, Bool-cases, Option-cases, inl, inr, ◌⊎◌,
}
use chimera_core.Prelude.Bytes.{bytes_discrete}
use chimera_core.Prelude.Dict.{
  lookup, delete, All-insert, All-delete, All-lookup, length-delete-le, length-insert-le,
  length-insert_of_lookup,
}
use chimera_core.Limiter.{
  IpLimitState, Limiter, full, oldest_ip, evict_oldest_ip, refill, fresh_state, take_token,
  make_room, take_ip, remote_ip, allow,
}

abbrev pub Held : ℕ → List ℕ × IpLimitState → Type 0
Held most p = p.1.tokens ≤ most

pub record IsValid (l : Limiter) : Type 0 where
  pub in_use_le : l.in_use ≤ l.max_concurrent
  pub tracked_pos : 0 < l.max_tracked
  pub tracked_le : length l.ips ≤ l.max_tracked
  pub held : All (Held (full l)) l.ips

-- The limits of a limiter.
abbrev pub SameLimits : Limiter → Limiter → Type 0
SameLimits l l' =
    (l'.max_concurrent ≡ l.max_concurrent)
    × (l'.burst ≡ l.burst)
    × (l'.window ≡ l.window)
    × (l'.max_tracked ≡ l.max_tracked)

-- The eviction finds a key of the table.
oldest_ip_lem :
    (key : List ℕ) (time : ℕ) (m : List (List ℕ × IpLimitState))
    → (oldest_ip key time m ≡ key)
      ⊎ (length (delete bytes_discrete (oldest_ip key time m) m) + 1 ≤ length m)
unfolding oldest_ip delete
oldest_ip_lem key time [] = inl refl
oldest_ip_lem key time ((k, s) ∷ m) = ground (
  arith,
  oldest_ip_lem key time m,
  oldest_ip_lem k s.last_seen m,
  length-delete-le bytes_discrete (oldest_ip key time m) m,
  length-delete-le bytes_discrete (oldest_ip k s.last_seen m) m,
)

pub evict_oldest_ip-length :
    (m : List (List ℕ × IpLimitState)) → 0 < length m → length (evict_oldest_ip m) + 1 ≤ length m
unfolding evict_oldest_ip oldest_ip delete
evict_oldest_ip-length [] h = absurd (omega arith)
evict_oldest_ip-length ((k, s) ∷ m) h = ground (
  arith,
  oldest_ip_lem k s.last_seen m,
  length-delete-le bytes_discrete (oldest_ip k s.last_seen m) m,
)

make_room-length : (l : Limiter) → IsValid l → length (make_room l) + 1 ≤ l.max_tracked
unfolding make_room
make_room-length l v = ground (arith, evict_oldest_ip-length l.ips, v.tracked_pos, v.tracked_le)

make_room-Held : (l : Limiter) → IsValid l → All (Held (full l)) (make_room l)
unfolding make_room evict_oldest_ip
make_room-Held l v =
    ground (arith, v.held, All-delete bytes_discrete (Held (full l)) (oldest_ip [] 0 l.ips) l.ips)

refill-le :
    (l : Limiter) (now : ℕ) (s : IpLimitState)
    → s.tokens ≤ full l
    → (refill l now s).tokens ≤ full l
unfolding refill
refill-le l now s h = ground arith

take_token-Held :
    (l : Limiter) (ip : List ℕ) (now : ℕ) (m : List (List ℕ × IpLimitState)) (s : IpLimitState)
    → s.tokens ≤ full l
    → All (Held (full l)) m
    → All (Held (full l)) (take_token l ip now m s).0
unfolding take_token
take_token-Held l ip now m s h held =
    let r = refill l now s in
    let small = refill-le l now s h in
    ground (
      arith,
      All-insert bytes_discrete (Held (full l)) ip r m,
      All-insert bytes_discrete (Held (full l)) ip (record r { tokens = r.tokens - l.window }) m,
    )

pub take_token-length :
    (l : Limiter) (ip : List ℕ) (now : ℕ) (m : List (List ℕ × IpLimitState)) (s : IpLimitState)
    → length (take_token l ip now m s).0 ≤ length m + 1
unfolding take_token
take_token-length l ip now m s =
    let r = refill l now s in
    ground (
      arith,
      length-insert-le bytes_discrete ip r m,
      length-insert-le bytes_discrete ip (record r { tokens = r.tokens - l.window }) m,
    )

pub take_token-length_of_lookup :
    (l : Limiter) (ip : List ℕ) (now : ℕ) (m : List (List ℕ × IpLimitState)) (s : IpLimitState)
    → lookup bytes_discrete ip m ≡ some s
    → length (take_token l ip now m s).0 ≡ length m
unfolding take_token
take_token-length_of_lookup l ip now m s e =
    let r = refill l now s in
    ground (
      arith,
      length-insert_of_lookup bytes_discrete ip r s m,
      length-insert_of_lookup bytes_discrete ip (record r { tokens = r.tokens - l.window }) s m,
    )

take_ip-valid :
    (l : Limiter) (ip : List ℕ) (now : ℕ)
    → IsValid l
    → (length (take_ip l ip now).0 ≤ l.max_tracked) × All (Held (full l)) (take_ip l ip now).0
unfolding take_ip
take_ip-valid l ip now v = elim (Option-cases (lookup bytes_discrete ip l.ips)) [
  | inl e ↦
      rw (e, take_ip)
        (
          omega (
            arith,
            take_token-length l ip now (make_room l) (fresh_state l now),
            make_room-length l v,
          ),
          take_token-Held l ip now (make_room l) (fresh_state l now) (omega arith)
              (make_room-Held l v),
        )
  | inr (s, e) ↦
      rw (e, take_ip)
        (
          omega (arith, take_token-length_of_lookup l ip now l.ips s e, v.tracked_le),
          take_token-Held l ip now l.ips s
              (All-lookup bytes_discrete (Held (full l)) ip s l.ips v.held e) v.held,
        )
]

-- `Allow` keeps a limiter valid, with its limits: never more connections than the semaphore has
-- places, nor more addresses than may be tracked, nor more tokens than a burst. It takes a place
-- exactly if it lets the caller through.
pub allow-IsValid :
    (l : Limiter) (addr : List ℕ) (authenticated : Bool) (now : ℕ)
    → IsValid l
    → let (l', allowed) = allow l addr authenticated now in
      IsValid l' × SameLimits l l' × (l'.in_use ≡ (if allowed then l.in_use + 1 else l.in_use))
unfolding allow
allow-IsValid l addr authenticated now v = elim (Bool-cases (leb l.max_concurrent l.in_use)) [
  | inl closed ↦ rw (closed, allow) (v, (refl, refl, refl, refl), refl)
  | inr room ↦ elim (Bool-cases authenticated) [
    | inl auth ↦
        rw (room, auth, allow)
          (
            record {
              in_use_le = ground (arith, v.in_use_le);
              tracked_pos = v.tracked_pos;
              tracked_le = v.tracked_le;
              held = v.held;
            },
            (refl, refl, refl, refl),
            refl,
          )
    | inr guest ↦
        let t = take_ip-valid l (remote_ip addr) now v in
        rw (room, guest, allow)
          (
            record {
              in_use_le = ground (arith, v.in_use_le);
              tracked_pos = v.tracked_pos;
              tracked_le = t.0;
              held = t.1;
            },
            (refl, refl, refl, refl),
            refl,
          )
  ]
]
