-- ===== src/Auth/Replay/Order.antt =====
-- The replay cache as the list of its entries alone: what the map adds is only speed.
use chimera_core.Prelude.{
  ℕ, suc, ◌+◌, ◌≤◌, ◌<◌, ◌≡◌, ◌≢◌, refl, sym, ap, ◌∙◌, Bool, true, false, List, [], ◌∷◌, ◌++◌, none,
  some, arith, ltb, if◌then◌else◌, length, map, All, Bool-cases, inl, inr, lt→ltb, All-append,
  Option-cases, length-append,
}
use chimera_core.Prelude.Bytes.{bytes_discrete}
use chimera_core.Prelude.Dict.{lookup, insert, delete}
use chimera_core.Auth.Replay.{
  ReplayEntry, ReplayCache, forget, prune_loop, evict_loop, add_fresh, add,
}

abbrev pub Distinct : List ReplayEntry → Type 0
Distinct [] = Unit {0}
Distinct (e ∷ order) = All (λ o. o.key ≢ e.key) order × Distinct order

-- The map that belongs to a list.
abbrev pub index : List ReplayEntry → List (List ℕ × ReplayEntry)
index = map (λ e. (e.key, e))

abbrev pub cache_of : ℕ → ℕ → List ReplayEntry → ReplayCache
cache_of capacity window order = record {
  capacity = capacity;
  window = window;
  items = index order;
  order = order;
}

-- What `Add` does to the list: expired entries leave the front, a nonce that is there is refused, and
-- otherwise the oldest make room for it.
unfoldable pub live : ℕ → List ReplayEntry → List ReplayEntry
live now [] = []
live now (e ∷ order) = let rest = live now order in if ltb now e.expires_at then e ∷ order else rest

unfoldable pub has : List ℕ → List ReplayEntry → Bool
has k order = elim (lookup bytes_discrete k (index order)) [ none ↦ false | some _ ↦ true ]

unfoldable pub fit : ℕ → List ReplayEntry → List ReplayEntry
fit capacity [] = []
fit capacity (e ∷ order) =
    let rest = fit capacity order in if ltb (suc (length order)) capacity then e ∷ order else rest

unfoldable pub add_live : ℕ → ℕ → List ReplayEntry → List ℕ → ℕ → List ReplayEntry × Bool
add_live capacity window l nonce now =
    if has nonce l
    then (l, false)
    else (fit capacity l ++ (record { key = nonce; expires_at = now + window } ∷ []), true)

unfoldable pub add_order : ℕ → ℕ → List ReplayEntry → List ℕ → ℕ → List ReplayEntry × Bool
add_order capacity window order nonce now = add_live capacity window (live now order) nonce now

length-index : (order : List ReplayEntry) → length (index order) ≡ length order
length-index [] = refl
length-index (e ∷ order) = ap suc (length-index order)

delete_absent :
    (k : List ℕ) (order : List ReplayEntry)
    → All (λ o. o.key ≢ k) order
    → delete bytes_discrete k (index order) ≡ index order
unfolding delete
delete_absent k [] h = refl
delete_absent k (e ∷ order) h = ground (arith, delete_absent k order h.1)

forget_front :
    (e : ReplayEntry) (order : List ReplayEntry)
    → Distinct (e ∷ order)
    → forget e (index (e ∷ order)) ≡ index order
unfolding delete
forget_front e order d = ground (arith, delete_absent e.key order d.0)

prune_loop-live :
    (now : ℕ) (order : List ReplayEntry)
    → Distinct order
    → prune_loop now (index order) order ≡ (index (live now order), live now order)
unfolding prune_loop live
prune_loop-live now [] d = refl
prune_loop-live now (e ∷ order) d = elim (Bool-cases (ltb now e.expires_at)) [
  | inl alive ↦ rw (alive, prune_loop, live) refl
  | inr dead ↦
      rw (dead, prune_loop, live) (rw (forget_front e order d) (prune_loop-live now order d.1))
]

evict_loop-fit :
    (capacity : ℕ) (order : List ReplayEntry)
    → 0 < capacity
    → Distinct order
    → evict_loop capacity (index order) order
      ≡ some (index (fit capacity order), fit capacity order)
unfolding evict_loop fit
evict_loop-fit capacity [] h d = rw (lt→ltb 0 capacity h)
evict_loop-fit capacity (e ∷ order) h d = elim (Bool-cases (ltb (suc (length order)) capacity)) [
  | inl room ↦ rw (length-index order, room)
  | inr full ↦
      rw (length-index order, full)
        (rw (forget_front e order d) (evict_loop-fit capacity order h d.1))
]

insert_absent :
    (k : List ℕ) (e : ReplayEntry) (order : List ReplayEntry)
    → e.key ≡ k
    → lookup bytes_discrete k (index order) ≡ none
    → insert bytes_discrete k e (index order) ≡ index (order ++ (e ∷ []))
unfolding insert lookup
insert_absent k e [] h n = ground arith
insert_absent k e (x ∷ order) h n = ground (arith, insert_absent k e order h)

pub live-Distinct :
    (now : ℕ) (order : List ReplayEntry) → Distinct order → Distinct (live now order)
unfolding live
live-Distinct now [] d = tt
live-Distinct now (e ∷ order) d = ground (arith, live-Distinct now order d.1)

All-live :
    (P : ReplayEntry → Type 0) (now : ℕ) (order : List ReplayEntry)
    → All P order
    → All P (live now order)
unfolding live
All-live P now [] h = tt
All-live P now (e ∷ order) h = ground (arith, All-live P now order h.1)

All-fit :
    (P : ReplayEntry → Type 0) (capacity : ℕ) (order : List ReplayEntry)
    → All P order
    → All P (fit capacity order)
unfolding fit
All-fit P capacity [] h = tt
All-fit P capacity (e ∷ order) h = ground (arith, All-fit P capacity order h.1)

fit-Distinct :
    (capacity : ℕ) (order : List ReplayEntry) → Distinct order → Distinct (fit capacity order)
unfolding fit
fit-Distinct capacity [] d = tt
fit-Distinct capacity (e ∷ order) d = ground (arith, fit-Distinct capacity order d.1)

length-fit :
    (capacity : ℕ) (order : List ReplayEntry)
    → 0 < capacity
    → length (fit capacity order) < capacity
unfolding fit
length-fit capacity [] h = h
length-fit capacity (e ∷ order) h = ground (arith, length-fit capacity order h)

absent_keys :
    (k : List ℕ) (order : List ReplayEntry)
    → lookup bytes_discrete k (index order) ≡ none
    → All (λ o. o.key ≢ k) order
unfolding lookup
absent_keys k [] h = tt
absent_keys k (e ∷ order) h = ground (arith, absent_keys k order)

lookup-fit :
    (k : List ℕ) (capacity : ℕ) (order : List ReplayEntry)
    → lookup bytes_discrete k (index order) ≡ none
    → lookup bytes_discrete k (index (fit capacity order)) ≡ none
unfolding lookup fit
lookup-fit k capacity [] h = refl
lookup-fit k capacity (e ∷ order) h = ground (arith, lookup-fit k capacity order)

snoc-Distinct :
    (e : ReplayEntry) (order : List ReplayEntry)
    → Distinct order
    → All (λ o. o.key ≢ e.key) order
    → Distinct (order ++ (e ∷ []))
snoc-Distinct e [] d h = (tt, tt)
snoc-Distinct e (x ∷ order) d h = (
  All-append (λ o. o.key ≢ x.key) order (e ∷ []) d.0 ((λ q. h.0 (sym q)), tt),
  snoc-Distinct e order d.1 h.1,
)

-- A list that a cache with capacity `n` may hold.
pub record IsOrder (n : ℕ) (order : List ReplayEntry) : Type 0 where
  pub positive : 0 < n
  pub distinct : Distinct order
  pub bounded : length order ≤ n

length-live : (now : ℕ) (order : List ReplayEntry) → length (live now order) ≤ length order
unfolding live
length-live now [] = omega arith
length-live now (e ∷ order) = ground (arith, length-live now order)

-- What `Add` does to the list of a valid cache keeps it valid: at most the capacity of entries, with
-- distinct keys.
pub add_order-IsOrder :
    (capacity window : ℕ) (order : List ReplayEntry) (nonce : List ℕ) (now : ℕ)
    → IsOrder capacity order
    → IsOrder capacity (add_order capacity window order nonce now).0
unfolding add_order add_live has
add_order-IsOrder capacity window order nonce now v =
    let l = live now order in
    let k = live-Distinct now order v.distinct in
    elim (Option-cases (lookup bytes_discrete nonce (index l))) [
      | inr (e, old) ↦
          rw (old, add_live, has)
            (record {
              positive = v.positive;
              distinct = k;
              bounded = omega (arith, length-live now order, v.bounded);
            })
      | inl fresh ↦
          let f = fit capacity l in
          let e : ReplayEntry = record { key = nonce; expires_at = now + window } in
          rw (fresh, add_live, has)
            (record {
              positive = v.positive;
              distinct =
                  snoc-Distinct e f (fit-Distinct capacity l k)
                    (absent_keys nonce f (lookup-fit nonce capacity l fresh));
              bounded = omega (arith, length-fit capacity l v.positive, length-append f (e ∷ []));
            })
    ]

add_fresh-cache_of :
    (capacity window : ℕ) (l : List ReplayEntry) (nonce : List ℕ) (now : ℕ)
    → 0 < capacity
    → Distinct l
    → let r = add_live capacity window l nonce now in
      add_fresh (cache_of capacity window l) nonce now ≡ some (cache_of capacity window r.0, r.1)
unfolding add_fresh add_live has
add_fresh-cache_of capacity window l nonce now h d =
    elim (Option-cases (lookup bytes_discrete nonce (index l))) [
      | inr (e, old) ↦ rw (old, add_fresh, add_live, has)
      | inl fresh ↦
          let f = fit capacity l in
          let e : ReplayEntry = record { key = nonce; expires_at = now + window } in
          rw (fresh, add_fresh, add_live, has)
            (rw (evict_loop-fit capacity l h d)
              (rw (insert_absent nonce e f refl (lookup-fit nonce capacity l fresh))))
    ]

-- `Add` on a valid cache ends, and does to the map and the list together what `add_order` does to
-- the list: the map holds exactly the entries of the list.
pub add-cache_of :
    (capacity window : ℕ) (order : List ReplayEntry) (nonce : List ℕ) (now : ℕ)
    → IsOrder capacity order
    → let r = add_order capacity window order nonce now in
      add (cache_of capacity window order) nonce now ≡ some (cache_of capacity window r.0, r.1)
unfolding add add_order
add-cache_of capacity window order nonce now v =
    let c = cache_of capacity window order in
    ap
      (λ (p : List (List ℕ × ReplayEntry) × List ReplayEntry).
        add_fresh (record c { items = p.0; order = p.1 }) nonce now)
      (prune_loop-live now order v.distinct)
    ∙ add_fresh-cache_of capacity window (live now order) nonce now v.positive
        (live-Distinct now order v.distinct)
