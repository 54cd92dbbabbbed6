-- ===== src/Auth/Replay/Laws.antt =====
-- What the replay cache of internal/quicx/auth.go promises: a nonce is not taken twice.
use chimera_core.Prelude.{
  ℕ, suc, ◌+◌, ◌≤◌, ◌<◌, ◌≡◌, refl, sym, ap, subst, ◌∙◌, true, false, List, [], ◌∷◌, ◌++◌, lt→ltb,
  append_assoc, Option, none, some, arith, ltb, if◌then◌else◌, length, All, Bool-cases, inl, inr,
  length-append,
}
use chimera_core.Prelude.Dict.{lookup}
use chimera_core.Auth.Replay.{ReplayEntry, ReplayCache, add}
use chimera_core.Auth.Replay.Order.{
  cache_of, live, has, fit, add_live, add_order, IsOrder, add_order-IsOrder, add-cache_of,
}

-- Calls of `Add`, one after the other: the cache after them and how many nonces were taken.
unfoldable pub add_all : ReplayCache → List (List ℕ × ℕ) → Option (ReplayCache × ℕ)
add_all c [] = some (c, 0)
add_all c ((nonce, now) ∷ calls) = elim (add c nonce now) [
  | none ↦ none
  | some (c1, taken) ↦ elim (add_all c1 calls) [
    | none ↦ none
    | some (c2, n) ↦ some (c2, if taken then n + 1 else n)
  ]
]

-- The entry stands in the list with at most `n` entries behind it.
record Holds (e : ReplayEntry) (n : ℕ) (order : List ReplayEntry) : Type 0 where
  before : List ReplayEntry
  behind : List ReplayEntry
  place : order ≡ before ++ (e ∷ behind)
  few : length behind ≤ n

here :
    (e : ReplayEntry) (n : ℕ) (behind : List ReplayEntry)
    → length behind ≤ n
    → Holds e n (e ∷ behind)
here e n behind few = record { before = []; behind = behind; place = refl; few = few }

live-Holds :
    (e : ReplayEntry) (n now : ℕ) (before behind : List ReplayEntry)
    → now < e.expires_at
    → length behind ≤ n
    → Holds e n (live now (before ++ (e ∷ behind)))
unfolding live
live-Holds e n now [] behind h few = rw (lt→ltb now e.expires_at h) (here e n behind few)
live-Holds e n now (x ∷ before) behind h few = elim (Bool-cases (ltb now x.expires_at)) [
  | inl alive ↦ rw alive (record { before = x ∷ before; behind = behind; place = refl; few = few })
  | inr dead ↦ rw dead (live-Holds e n now before behind h few)
]

fit-Holds :
    (e : ReplayEntry) (n capacity : ℕ) (before behind : List ReplayEntry)
    → length behind ≤ n
    → n + 1 < capacity
    → Holds e n (fit capacity (before ++ (e ∷ behind)))
unfolding fit
fit-Holds e n capacity [] behind few h =
    rw (lt→ltb (suc (length behind)) capacity (omega arith)) (here e n behind few)
fit-Holds e n capacity (x ∷ before) behind few h =
    elim (Bool-cases (ltb (suc (length (before ++ (e ∷ behind)))) capacity)) [
      | inl room ↦
          rw room (record { before = x ∷ before; behind = behind; place = refl; few = few })
      | inr full ↦ rw full (fit-Holds e n capacity before behind few h)
    ]

Holds-has :
    (e : ReplayEntry) (before behind : List ReplayEntry) → has e.key (before ++ (e ∷ behind)) ≡ true
unfolding has lookup
Holds-has e [] behind = ground arith
Holds-has e (x ∷ before) behind = ground (arith, Holds-has e before behind)

add_live-Holds :
    (capacity window : ℕ) (l : List ReplayEntry) (nonce : List ℕ) (now : ℕ) (e : ReplayEntry)
    (n : ℕ)
    → Holds e n l
    → let r = add_live capacity window l nonce now in
      (r.1 ≡ true → n + 1 < capacity) → Holds e (if r.1 then n + 1 else n) r.0
unfolding add_live
add_live-Holds capacity window l nonce now e n held room = elim (Bool-cases (has nonce l)) [
  | inl seen ↦ rw (seen, add_live) held
  | inr new ↦
      let x : ReplayEntry = record { key = nonce; expires_at = now + window } in
      let room' : n + 1 < capacity = room (rw (new, add_live)) in
      let f : Holds e n (fit capacity l) =
        rw held.place (fit-Holds e n capacity held.before held.behind held.few room') in
      rw (new, add_live)
        (record {
          before = f.before;
          behind = f.behind ++ (x ∷ []);
          place =
              ap (λ (o : List ReplayEntry). o ++ (x ∷ [])) f.place
              ∙ append_assoc f.before (e ∷ f.behind) (x ∷ []);
          few = omega (arith, length-append f.behind (x ∷ []), f.few);
        })
]

add_order-Holds :
    (capacity window : ℕ) (order : List ReplayEntry) (nonce : List ℕ) (now : ℕ) (e : ReplayEntry)
    (n : ℕ)
    → now < e.expires_at
    → Holds e n order
    → let r = add_order capacity window order nonce now in
      (r.1 ≡ true → n + 1 < capacity) → Holds e (if r.1 then n + 1 else n) r.0
unfolding add_order
add_order-Holds capacity window order nonce now e n h held room =
    let l = live-Holds e n now held.before held.behind h held.few in
    add_live-Holds capacity window (live now order) nonce now e n (rw held.place l) room

-- A run of `Add` ends; as long as fewer nonces than the capacity have been taken since, an entry
-- that does not expire stays.
record Runs (capacity window : ℕ) (e : ReplayEntry) (order : List ReplayEntry)
    (r : Option (ReplayCache × ℕ)) : Type 0 where
  order' : List ReplayEntry
  taken : ℕ
  ends : r ≡ some (cache_of capacity window order', taken)
  valid : IsOrder capacity order'
  keeps : (n : ℕ) → Holds e n order → n + taken < capacity → Holds e (n + taken) order'

Unexpired : ReplayEntry → List ℕ × ℕ → Type 0
Unexpired e call = call.1 < e.expires_at

keeps_step :
    (capacity window : ℕ) (order : List ReplayEntry) (nonce : List ℕ) (now : ℕ) (e : ReplayEntry)
    (n : ℕ)
    → now < e.expires_at
    → Holds e n order
    → (m : ℕ) (order' : List ReplayEntry)
    → let a = add_order capacity window order nonce now in
      n + (if a.1 then m + 1 else m) < capacity
      → ((k : ℕ) → Holds e k a.0 → k + m < capacity → Holds e (k + m) order')
      → Holds e (n + (if a.1 then m + 1 else m)) order'
keeps_step capacity window order nonce now e n h held m order' few keeps =
    let a = add_order capacity window order nonce now in
    let next = add_order-Holds capacity window order nonce now e n h held in
    elim (Bool-cases a.1) [
      | inl new ↦
          let few' : n + (m + 1) < capacity = rw new at few in
          let sum : n + (m + 1) ≡ n + 1 + m = omega arith in
          let held' : Holds e (n + 1) a.0 = rw new at (next (λ _. omega arith)) in
          rw (new, sum) (keeps (n + 1) held' (omega arith))
      | inr old ↦
          let few' : n + m < capacity = rw old at few in
          let held' : Holds e n a.0 = rw old at (next (λ t. absurd (ground arith))) in
          rw old (keeps n held' few')
    ]

add_all-Runs :
    (capacity window : ℕ) (e : ReplayEntry) (calls : List (List ℕ × ℕ)) (order : List ReplayEntry)
    → IsOrder capacity order
    → All (Unexpired e) calls
    → Runs capacity window e order (add_all (cache_of capacity window order) calls)
unfolding add_all Unexpired
add_all-Runs capacity window e [] order v h = record {
  order' = order;
  taken = 0;
  ends = refl;
  valid = v;
  keeps = λ n held few. let z : n + 0 ≡ n = omega arith in rw z held;
}
add_all-Runs capacity window e ((nonce, now) ∷ calls) order v h =
    let a = add_order capacity window order nonce now in
    let ih =
      add_all-Runs capacity window e calls a.0 (add_order-IsOrder capacity window order nonce now v)
        h.1 in
    record {
      order' = ih.order';
      taken = if a.1 then ih.taken + 1 else ih.taken;
      ends = rw (add-cache_of capacity window order nonce now v, add_all) (rw ih.ends);
      valid = ih.valid;
      keeps = λ n held few.
          keeps_step capacity window order nonce now e n h.0 held ih.taken ih.order' few ih.keeps;
    }

add_order-new :
    (capacity window : ℕ) (order : List ReplayEntry) (nonce : List ℕ) (now : ℕ)
    → (add_order capacity window order nonce now).1 ≡ true
    → Holds
        (record { key = nonce; expires_at = now + window })
        0
        (add_order capacity window order nonce now).0
unfolding add_order add_live
add_order-new capacity window order nonce now t = elim (Bool-cases (has nonce (live now order))) [
  | inl seen ↦ absurd (ground arith)
  | inr new ↦
      rw (new, add_live)
        (record {
          before = fit capacity (live now order);
          behind = [];
          place = refl;
          few = omega arith;
        })
]

add_order-old :
    (capacity window : ℕ) (order : List ReplayEntry) (e : ReplayEntry) (n now : ℕ)
    → now < e.expires_at
    → Holds e n order
    → (add_order capacity window order e.key now).1 ≡ false
unfolding add_order add_live
add_order-old capacity window order e n now h held =
    let l : Holds e n (live now order) =
      rw held.place (live-Holds e n now held.before held.behind h held.few) in
    let seen : has e.key (live now order) ≡ true = rw l.place (Holds-has e l.before l.behind) in
    rw (seen, add_live)

-- Replay protection. On a valid cache, once `Add` has taken a nonce, a later `Add` of the same nonce
-- ends and refuses it, if it comes before the window is over and fewer nonces than the capacity were
-- taken in between, whatever was added in between in that time.
pub add_refuses_replay :
    (capacity window : ℕ) (order : List ReplayEntry) (nonce : List ℕ) (start now : ℕ)
    (c1 c2 : ReplayCache) (calls : List (List ℕ × ℕ)) (taken : ℕ)
    → IsOrder capacity order
    → add (cache_of capacity window order) nonce start ≡ some (c1, true)
    → All (λ call. call.1 < start + window) calls
    → add_all c1 calls ≡ some (c2, taken)
    → taken < capacity
    → now < start + window
    → (c3 : ReplayCache) × (add c2 nonce now ≡ some (c3, false))
add_refuses_replay capacity window order nonce start now c1 c2 calls taken v first times run few
      soon =
    let e : ReplayEntry = record { key = nonce; expires_at = start + window } in
    let a = add_order capacity window order nonce start in
    let start_eq = sym (add-cache_of capacity window order nonce start v) ∙ first in
    let fresh : a.1 ≡ true = cc start_eq in
    let c1_eq : c1 ≡ cache_of capacity window a.0 = cc start_eq in
    let w = add_order-IsOrder capacity window order nonce start v in
    let runs = add_all-Runs capacity window e calls a.0 w (unfold Unexpired in times) in
    let run_eq : some (cache_of capacity window runs.order', runs.taken) ≡ some (c2, taken) =
      sym runs.ends ∙ subst (λ c. add_all c calls ≡ some (c2, taken)) c1_eq run in
    let c2_eq : c2 ≡ cache_of capacity window runs.order' = cc run_eq in
    let count : runs.taken ≡ taken = cc run_eq in
    let kept = runs.keeps 0 (add_order-new capacity window order nonce start fresh) (omega arith) in
    let b = add_order capacity window runs.order' nonce now in
    let refused : b.1 ≡ false =
      add_order-old capacity window runs.order' e (0 + runs.taken) now soon kept in
    (
      cache_of capacity window b.0,
      rw (c2_eq, add-cache_of capacity window runs.order' nonce now runs.valid, refused),
    )
