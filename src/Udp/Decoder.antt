-- ===== src/Udp/Decoder.antt =====
-- The fragment decoder of internal/quicx/udp_codec.go. Times are nanoseconds; `now` is what
-- `d.now()` returns. `time.Time` does not wrap here.
pub mod Parts
pub mod Eviction
pub mod Invariant
pub mod Agrees
pub mod Collecting
pub mod Reassembly
use chimera_core.Prelude.{
  ℕ, suc, ◌+◌, ◌≡◌, Bool, not, List, [], ◌∷◌, ◌++◌, Option, none, some, Result, ok, err, ◌==◌, ltb,
  if◌then◌else◌, length, set, replicate, ℕ_discrete,
}
use chimera_core.Prelude.Dict.{lookup, insert, delete}
use chimera_core.Prelude.Int.{ℤ, or_default}
use chimera_core.Udp.Frame.{
  default_udp_max_packet_size, udp_fragment_max_assemblies, udp_fragment_assembly_ttl, Fragment,
  DecodeError, conflicting_count, packet_too_large, incomplete, parse_frame,
}
use Parts.{part_at, join}

pub record Assembly : Type 0 where
  pub count : ℕ
  pub parts : List (Option (List ℕ))
  pub received : ℕ
  pub total : ℕ
  pub expires_at : ℕ

pub record Decoder : Type 0 where
  pub max_packet : ℕ
  pub pending : List (ℕ × Assembly)

unfoldable pub new_udp_fragment_decoder : ℤ → Decoder
new_udp_fragment_decoder max_packet = record {
  max_packet = or_default max_packet default_udp_max_packet_size;
  pending = [];
}

unfoldable pub pending_count : Decoder → ℕ
pending_count d = length d.pending

-- Drops what does not expire after `now`.
unfoldable pub prune_expired : ℕ → List (ℕ × Assembly) → List (ℕ × Assembly)
prune_expired now [] = []
prune_expired now ((k, a) ∷ m) =
    if ltb now a.expires_at then (k, a) ∷ prune_expired now m else prune_expired now m

-- The loop of `evictOldestLocked`: the oldest so far, as its sequence and expiry.
unfoldable pub oldest : Option (ℕ × ℕ) → List (ℕ × Assembly) → Option (ℕ × ℕ)
oldest found [] = found
oldest none ((k, a) ∷ m) = oldest (some (k, a.expires_at)) m
oldest (some (s, e)) ((k, a) ∷ m) =
    oldest (if ltb a.expires_at e then some (k, a.expires_at) else some (s, e)) m

unfoldable pub evict_oldest : List (ℕ × Assembly) → List (ℕ × Assembly)
evict_oldest m = elim (oldest none m) [ none ↦ m | some (s, e) ↦ delete ℕ_discrete s m ]

unfoldable pub new_assembly : ℕ → ℕ → Assembly
new_assembly now count = record {
  count = count;
  parts = replicate count none;
  received = 0;
  total = 0;
  expires_at = now + udp_fragment_assembly_ttl;
}

-- `assembly` with the fragment's payload in its place.
unfoldable pub put_part : Assembly → Fragment → Assembly
put_part a f = record a {
  parts = set a.parts f.index (some f.payload);
  received = a.received + 1;
  total = a.total + length f.payload;
}

-- The end of `Decode`: `a` is the complete assembly.
unfoldable pub finish : Decoder → ℕ → Assembly → Decoder × Result DecodeError (Option (List ℕ))
finish d sequence a = elim (join a.parts) [
  | none ↦ (record d { pending = insert ℕ_discrete sequence a d.pending }, err incomplete)
  | some packet ↦ (record d { pending = delete ℕ_discrete sequence d.pending }, ok (some packet))
]

-- `Decode` from the test of the fragment's place on; `a` is the assembly that `d` holds.
unfoldable pub add_part :
    Decoder → Assembly → Fragment → Decoder × Result DecodeError (Option (List ℕ))
unfolding put_part finish
add_part d a f = elim (part_at a.parts f.index) [
  | some _ ↦ (d, ok none)
  | none ↦
      if ltb d.max_packet (a.total + length f.payload)
      then (record d { pending = delete ℕ_discrete f.sequence d.pending }, err packet_too_large)
      else if not (a.received + 1 == a.count)
      then (record d { pending = insert ℕ_discrete f.sequence (put_part a f) d.pending }, ok none)
      else finish d f.sequence (put_part a f)
]

-- Room for one more assembly.
unfoldable pub make_room : List (ℕ × Assembly) → List (ℕ × Assembly)
unfolding evict_oldest
make_room m = if ltb (length m) udp_fragment_max_assemblies then m else evict_oldest m

-- `Decode` under the lock, after pruning.
unfoldable pub admit : ℕ → Decoder → Fragment → Decoder × Result DecodeError (Option (List ℕ))
unfolding add_part make_room new_assembly
admit now d f = elim (lookup ℕ_discrete f.sequence d.pending) [
  | none ↦
      add_part
        (record d {
          pending = insert ℕ_discrete f.sequence (new_assembly now f.count) (make_room d.pending);
        })
        (new_assembly now f.count) f
  | some a ↦
      if a.count == f.count
      then add_part d a f
      else (record d { pending = delete ℕ_discrete f.sequence d.pending }, err conflicting_count)
]

unfoldable pub decode : ℕ → Decoder → List ℕ → Decoder × Result DecodeError (Option (List ℕ))
unfolding admit
decode now d frame = elim (parse_frame frame) [
  | err e ↦ (d, err e)
  | ok f ↦ admit now (record d { pending = prune_expired now d.pending }) f
]
