-- ===== src/Chimera/Guard/Ranges.antt =====
-- The refused addresses of internal/chimera/guard.go as ranges of octets.
use chimera_core.Prelude.{
  ℕ, ◌≤◌, ◌<◌, ◌≡◌, refl, Bool, true, not, ◌⊎◌, inl, inr, Bool-cases, ◌∙◌, ◌&&◌, ◌||◌, [], ◌∷◌,
  ◌++◌, some, arith, ◌==◌, leb, ltb,
}
use chimera_core.Prelude.Bytes.{IsByte}
use chimera_core.Chimera.Ip.{v4_in_v6_prefix}
use chimera_core.Chimera.Guard.{is_forbidden_addr, is_forbidden_ip}

-- From the first to the last number.
abbrev pub within : ℕ → ℕ → ℕ → Bool
within low high n = leb low n && leb n high

-- The ranges that RFC 6890 keeps from the public Internet, and multicast, by their first three octets.
unfoldable pub is_reserved : ℕ → ℕ → ℕ → Bool
is_reserved a b c =
    a == 0
    || a == 10
    || a == 127
    || leb 224 a
    || (a == 100 && within 64 127 b)
    || (a == 169 && b == 254)
    || (a == 172 && within 16 31 b)
    || (a == 192 && (b == 168 || (b == 0 && (c == 0 || c == 2))))
    || (a == 198 && (within 18 19 b || (b == 51 && c == 100)))
    || (a == 203 && b == 0 && c == 113)

mapped :
    (a b c d : ℕ)
    → is_forbidden_ip (some (v4_in_v6_prefix ++ (a ∷ b ∷ c ∷ d ∷ [])))
      ≡ is_forbidden_ip (some (a ∷ b ∷ c ∷ d ∷ []))
unfolding is_forbidden_ip
mapped a b c d = refl

four_bytes :
    (a b c d : ℕ)
    → is_forbidden_ip (some (a ∷ b ∷ c ∷ d ∷ [])) ≡ is_forbidden_addr (a ∷ b ∷ c ∷ d ∷ [])
unfolding is_forbidden_ip
four_bytes a b c d = refl

abbrev not_special : ℕ → Bool
not_special a =
    not (a == 0)
    && not (a == 10)
    && not (a == 100)
    && not (a == 127)
    && not (a == 169)
    && not (a == 172)
    && not (a == 192)
    && not (a == 198)
    && not (a == 203)

abbrev IsRange : ℕ → ℕ → ℕ → ℕ → Type 0
IsRange a b c d = is_forbidden_addr (a ∷ b ∷ c ∷ d ∷ []) ≡ is_reserved a b c

range0 : (b c d : ℕ) → IsByte b → IsByte c → IsByte d → IsRange 0 b c d
unfolding is_forbidden_addr is_reserved
range0 b c d hb hc hd = ground arith

range10 : (b c d : ℕ) → IsByte b → IsByte c → IsByte d → IsRange 10 b c d
unfolding is_forbidden_addr is_reserved
range10 b c d hb hc hd = ground arith

range100 : (b c d : ℕ) → IsByte b → IsByte c → IsByte d → IsRange 100 b c d
unfolding is_forbidden_addr is_reserved
range100 b c d hb hc hd = ground arith

range127 : (b c d : ℕ) → IsByte b → IsByte c → IsByte d → IsRange 127 b c d
unfolding is_forbidden_addr is_reserved
range127 b c d hb hc hd = ground arith

range169 : (b c d : ℕ) → IsByte b → IsByte c → IsByte d → IsRange 169 b c d
unfolding is_forbidden_addr is_reserved
range169 b c d hb hc hd = ground arith

range172 : (b c d : ℕ) → IsByte b → IsByte c → IsByte d → IsRange 172 b c d
unfolding is_forbidden_addr is_reserved
range172 b c d hb hc hd = ground arith

range192 : (b c d : ℕ) → IsByte b → IsByte c → IsByte d → IsRange 192 b c d
unfolding is_forbidden_addr is_reserved
range192 b c d hb hc hd = ground arith

range198 : (b c d : ℕ) → IsByte b → IsByte c → IsByte d → IsRange 198 b c d
unfolding is_forbidden_addr is_reserved
range198 b c d hb hc hd = ground arith

range203 : (b c d : ℕ) → IsByte b → IsByte c → IsByte d → IsRange 203 b c d
unfolding is_forbidden_addr is_reserved
range203 b c d hb hc hd = ground arith

low-IsRange : (a b c d : ℕ) → a < 224 → not_special a ≡ true → IsRange a b c d
unfolding is_forbidden_addr is_reserved
low-IsRange a b c d ha e = ground arith

high-IsRange : (a b c d : ℕ) → IsByte a → 224 ≤ a → IsRange a b c d
unfolding is_forbidden_addr is_reserved
high-IsRange a b c d ha h = ground arith

special_cases :
    (a : ℕ)
    → a < 224
    → (not_special a ≡ true)
      ⊎ (a ≡ 0)
      ⊎ (a ≡ 10)
      ⊎ (a ≡ 100)
      ⊎ (a ≡ 127)
      ⊎ (a ≡ 169)
      ⊎ (a ≡ 172)
      ⊎ (a ≡ 192)
      ⊎ (a ≡ 198)
      ⊎ (a ≡ 203)
special_cases a h = ground arith

ranges : (a b c d : ℕ) → IsByte a → IsByte b → IsByte c → IsByte d → IsRange a b c d
ranges a b c d ha hb hc hd = elim (Bool-cases (ltb a 224)) [
  | inr high ↦ high-IsRange a b c d ha (ground arith)
  | inl low ↦ elim (special_cases a (ground arith)) [
    | inl e ↦ low-IsRange a b c d (ground arith) e
    | inr (inl e) ↦ rw e (range0 b c d hb hc hd)
    | inr (inr (inl e)) ↦ rw e (range10 b c d hb hc hd)
    | inr (inr (inr (inl e))) ↦ rw e (range100 b c d hb hc hd)
    | inr (inr (inr (inr (inl e)))) ↦ rw e (range127 b c d hb hc hd)
    | inr (inr (inr (inr (inr (inl e))))) ↦ rw e (range169 b c d hb hc hd)
    | inr (inr (inr (inr (inr (inr (inl e)))))) ↦ rw e (range172 b c d hb hc hd)
    | inr (inr (inr (inr (inr (inr (inr (inl e))))))) ↦ rw e (range192 b c d hb hc hd)
    | inr (inr (inr (inr (inr (inr (inr (inr (inl e)))))))) ↦ rw e (range198 b c d hb hc hd)
    | inr (inr (inr (inr (inr (inr (inr (inr (inr e)))))))) ↦ rw e (range203 b c d hb hc hd)
  ]
]

-- An IPv4 address is refused exactly if its octets lie in a range that is reserved, and the same
-- address written in 16 bytes, as ::ffff:a.b.c.d, is treated alike.
pub is_forbidden_ip-ranges :
    (a b c d : ℕ)
    → IsByte a
    → IsByte b
    → IsByte c
    → IsByte d
    → (is_forbidden_ip (some (a ∷ b ∷ c ∷ d ∷ [])) ≡ is_reserved a b c)
      × (is_forbidden_ip (some (v4_in_v6_prefix ++ (a ∷ b ∷ c ∷ d ∷ []))) ≡ is_reserved a b c)
is_forbidden_ip-ranges a b c d ha hb hc hd =
    let four : is_forbidden_ip (some (a ∷ b ∷ c ∷ d ∷ [])) ≡ is_reserved a b c =
      four_bytes a b c d ∙ ranges a b c d ha hb hc hd in
    (four, mapped a b c d ∙ four)
