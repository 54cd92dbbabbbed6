-- ===== src/Limiter/Bucket.antt =====
-- The token bucket of one address in internal/quicx/limiter.go.
use chimera_core.Prelude.{
  ℕ, ◌+◌, ◌-◌, ◌*◌, ◌≤◌, ◌<◌, ◌≡◌, ◌≢◌, sym, ap, ◌∙◌, subst, Bool, false, List, Option, none, some,
  arith, ltb, leb, if◌then◌else◌, length, Bool-cases, Option-cases, inl, inr,
}
use chimera_core.Prelude.Bytes.{bytes_discrete}
use chimera_core.Prelude.Dict.{lookup, lookup-insert_self, lookup-insert_ne}
use chimera_core.Limiter.{
  IpLimitState, Limiter, full, refill, fresh_state, take_token, make_room, take_ip,
}
use chimera_core.Limiter.Invariant.{take_token-length, take_token-length_of_lookup}

pub mul_add : (x y b : ℕ) → (x + y) * b ≡ x * b + y * b
mul_add x y b = omega arith

mul_split : (x y z b : ℕ) → x + y ≡ z → x * b + y * b ≡ z * b
mul_split x y z b h = sym (mul_add x y b) ∙ ap (λ n. n * b) h

mul_le : (x y b : ℕ) → x ≤ y → x * b ≤ y * b
mul_le x y b h = omega (arith, mul_split x (y - x) y b (omega arith))

-- What an address may still get until `end`, if the first request comes at `start`: the tokens in its
-- bucket and those that time will bring.
abbrev pub credit : Limiter → ℕ → ℕ → Option IpLimitState → ℕ
credit l start end none = full l + (end - start) * l.burst
credit l start end (some s) = s.tokens + (end - s.updated) * l.burst

abbrev pub InTime : ℕ → Option IpLimitState → Type 0
InTime end none = Unit {0}
InTime end (some s) = s.updated ≤ end

refill-credit :
    (l : Limiter) (start end now : ℕ) (s : IpLimitState)
    → s.updated ≤ end
    → now ≤ end
    → (credit l start end (some (refill l now s)) ≤ credit l start end (some s))
      × ((refill l now s).updated ≤ end)
unfolding refill
refill-credit l start end now s h k = elim (Bool-cases (ltb s.updated now)) [
  | inl later ↦
      let sum = mul_split (now - s.updated) (end - now) (end - s.updated) l.burst (ground arith) in
      rw (later, refill) (omega (arith, sum), k)
  | inr early ↦ rw (early, refill) (omega arith, h)
]

-- The new bucket of the address has paid for what the call let through.
pub record Paid (l : Limiter) (start end : ℕ) (ip : List ℕ) (before : Option IpLimitState)
    (r : List (List ℕ × IpLimitState) × Bool) : Type 0 where
  pub left : IpLimitState
  pub found : lookup bytes_discrete ip r.0 ≡ some left
  pub in_time : left.updated ≤ end
  pub paid :
      (if r.1 then l.window else 0) + credit l start end (some left) ≤ credit l start end before

take_token-Paid :
    (l : Limiter) (start end : ℕ) (ip : List ℕ) (now : ℕ) (m : List (List ℕ × IpLimitState))
    (s : IpLimitState)
    → s.updated ≤ end
    → now ≤ end
    → Paid l start end ip (some s) (take_token l ip now m s)
unfolding take_token
take_token-Paid l start end ip now m s h k =
    let r = refill l now s in
    let (less, late) = refill-credit l start end now s h k in
    elim (Bool-cases (ltb r.tokens l.window)) [
      | inl poor ↦
          rw (poor, take_token)
            (record {
              left = r;
              found = lookup-insert_self bytes_discrete ip r m;
              in_time = late;
              paid = omega (arith, less);
            })
      | inr rich ↦
          rw (rich, take_token)
            (record {
              left = record r { tokens = r.tokens - l.window };
              found =
                  lookup-insert_self bytes_discrete ip (record r { tokens = r.tokens - l.window })
                    m;
              in_time = late;
              paid = ground (arith, less);
            })
    ]

pub take_ip-Paid :
    (l : Limiter) (start end : ℕ) (ip : List ℕ) (now : ℕ)
    → InTime end (lookup bytes_discrete ip l.ips)
    → start ≤ now
    → now ≤ end
    → Paid l start end ip (lookup bytes_discrete ip l.ips) (take_ip l ip now)
unfolding take_ip
take_ip-Paid l start end ip now h first last =
    elim (Option-cases (lookup bytes_discrete ip l.ips)) [
      | inr (s, e) ↦
          let t : s.updated ≤ end = subst (InTime end) e h in
          rw (e, take_ip) (take_token-Paid l start end ip now l.ips s t last)
      | inl e ↦
          let p = take_token-Paid l start end ip now (make_room l) (fresh_state l now) last last in
          let less = mul_le (end - now) (end - start) l.burst (omega arith) in
          rw (e, take_ip)
            (record {
              left = p.left;
              found = p.found;
              in_time = p.in_time;
              paid = omega (arith, p.paid, less);
            })
    ]

take_token-lookup_ne :
    (l : Limiter) (ip q : List ℕ) (now : ℕ) (m : List (List ℕ × IpLimitState)) (s : IpLimitState)
    → q ≢ ip
    → lookup bytes_discrete q (take_token l ip now m s).0 ≡ lookup bytes_discrete q m
unfolding take_token
take_token-lookup_ne l ip q now m s ne =
    let r = refill l now s in
    ground (
      arith,
      lookup-insert_ne bytes_discrete ip q r m ne,
      lookup-insert_ne bytes_discrete ip q (record r { tokens = r.tokens - l.window }) m ne,
    )

-- With a place free in the table, another address is left alone.
pub take_ip-lookup_ne :
    (l : Limiter) (ip q : List ℕ) (now : ℕ)
    → length l.ips < l.max_tracked
    → q ≢ ip
    → lookup bytes_discrete q (take_ip l ip now).0 ≡ lookup bytes_discrete q l.ips
unfolding take_ip make_room
take_ip-lookup_ne l ip q now free ne = elim (Option-cases (lookup bytes_discrete ip l.ips)) [
  | inr (s, e) ↦ rw (e, take_ip) (take_token-lookup_ne l ip q now l.ips s ne)
  | inl e ↦
      let room : leb l.max_tracked (length l.ips) ≡ false = ground arith in
      rw (e, take_ip, make_room, room)
        (take_token-lookup_ne l ip q now l.ips (fresh_state l now) ne)
]

pub take_ip-length :
    (l : Limiter) (ip : List ℕ) (now : ℕ)
    → length l.ips < l.max_tracked
    → length (take_ip l ip now).0 ≤ length l.ips + 1
unfolding take_ip make_room
take_ip-length l ip now free = elim (Option-cases (lookup bytes_discrete ip l.ips)) [
  | inr (s, e) ↦ rw (e, take_ip) (omega (arith, take_token-length_of_lookup l ip now l.ips s e))
  | inl e ↦
      let room : leb l.max_tracked (length l.ips) ≡ false = ground arith in
      rw (e, take_ip, make_room, room) (take_token-length l ip now l.ips (fresh_state l now))
]
