-- ===== src/Auth/Replay.antt =====
-- `replayCache` of internal/quicx/auth.go: the nonces seen, in a map and in order of arrival.
pub mod Order
pub mod Laws
use chimera_core.Prelude.{
  ℕ, suc, ◌+◌, ◌≡◌, Bool, true, false, List, [], ◌∷◌, ◌++◌, Option, none, some, ltb, if◌then◌else◌,
  length,
}
use chimera_core.Prelude.Bytes.{bytes_discrete}
use chimera_core.Prelude.Dict.{lookup, insert, delete}

pub record ReplayEntry : Type 0 where
  pub key : List ℕ
  pub expires_at : ℕ

-- `order` is the list, front first; the map leads from a key to its element of the list.
pub record ReplayCache : Type 0 where
  pub capacity : ℕ
  pub window : ℕ
  pub items : List (List ℕ × ReplayEntry)
  pub order : List ReplayEntry

unfoldable pub new_replay_cache : ℕ → ℕ → ReplayCache
new_replay_cache capacity window = record {
  capacity = capacity;
  window = window;
  items = [];
  order = [];
}

-- `Len`.
unfoldable pub len : ReplayCache → ℕ
len c = length c.items

-- The map without the key of the element that `removeElement` takes off the front.
abbrev pub forget : ReplayEntry → List (List ℕ × ReplayEntry) → List (List ℕ × ReplayEntry)
forget e items = delete bytes_discrete e.key items

-- The loop of `pruneExpired`, on the map and the list.
unfoldable pub prune_loop :
    ℕ
    → List (List ℕ × ReplayEntry)
    → List ReplayEntry
    → List (List ℕ × ReplayEntry) × List ReplayEntry
prune_loop now items [] = (items, [])
prune_loop now items (e ∷ order) =
    let rest = prune_loop now (forget e items) order in
    if ltb now e.expires_at then (items, e ∷ order) else rest

-- The loop that evicts from the front until the map is below the capacity. On an empty list
-- `removeElement(nil)` does nothing, and the loop would not end: `none`.
unfoldable pub evict_loop :
    ℕ
    → List (List ℕ × ReplayEntry)
    → List ReplayEntry
    → Option (List (List ℕ × ReplayEntry) × List ReplayEntry)
evict_loop capacity items [] = if ltb (length items) capacity then some (items, []) else none
evict_loop capacity items (e ∷ order) =
    let rest = evict_loop capacity (forget e items) order in
    if ltb (length items) capacity then some (items, e ∷ order) else rest

abbrev pub push_back :
    ReplayCache → ReplayEntry → List (List ℕ × ReplayEntry) → List ReplayEntry → ReplayCache
push_back c e items order = record c {
  items = insert bytes_discrete e.key e items;
  order = order ++ (e ∷ []);
}

-- `Add` after pruning.
unfoldable pub add_fresh : ReplayCache → List ℕ → ℕ → Option (ReplayCache × Bool)
add_fresh c nonce now = elim (lookup bytes_discrete nonce c.items) [
  | some _ ↦ some (c, false)
  | none ↦ elim (evict_loop c.capacity c.items c.order) [
    | none ↦ none
    | some (items, order) ↦
        some (push_back c (record { key = nonce; expires_at = now + c.window }) items order, true)
  ]
]

unfoldable pub add : ReplayCache → List ℕ → ℕ → Option (ReplayCache × Bool)
add c nonce now =
    let (items, order) = prune_loop now c.items c.order in
    add_fresh (record c { items = items; order = order }) nonce now
