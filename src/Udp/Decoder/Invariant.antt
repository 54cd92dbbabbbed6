-- ===== src/Udp/Decoder/Invariant.antt =====
-- What holds of the decoder of internal/quicx/udp_codec.go whatever frames arrive.
use chimera_core.Prelude.{
  ℕ, ◌+◌, ◌≤◌, ◌<◌, ◌≡◌, refl, ◌≢◌, inl, inr, List, Option, none, some, Result, ok, err, arith, ltb,
  ◌==◌, length, All, Bool-cases, Option-cases, Result-cases, ◌∙◌, sym, length-set, length-replicate,
  ℕ_discrete,
}
use chimera_core.Prelude.Dict.{
  lookup, insert, delete, All-insert, All-delete, All-lookup, length-delete-le, length-insert-le,
  lookup-insert_self, length-insert_of_lookup,
}
use chimera_core.Udp.Frame.{
  Fragment, IsFragment, DecodeError, conflicting_count, packet_too_large, incomplete, parse_frame,
  parse_frame-IsFragment, parse_frame-ne-incomplete, udp_fragment_max_assemblies,
  udp_fragment_max_count,
}
use chimera_core.Udp.Decoder.Parts.{
  part_at, arrived, part_bytes, arrived-set, part_bytes-set, arrived-replicate,
  part_bytes-replicate, join_complete,
}
use chimera_core.Udp.Decoder.{
  Assembly, Decoder, prune_expired, new_assembly, put_part, finish, add_part, make_room, admit,
  decode,
}
use chimera_core.Udp.Decoder.Eviction.{
  prune_expired-length, prune_expired-All, make_room-few, make_room-All,
}

-- An assembly that is not complete, with its counters right.
pub record IsAssembly (max : ℕ) (a : Assembly) : Type 0 where
  pub count_max : a.count ≤ udp_fragment_max_count
  pub slots : length a.parts ≡ a.count
  pub received_eq : a.received ≡ arrived a.parts
  pub received_lt : a.received < a.count
  pub total_eq : a.total ≡ part_bytes a.parts
  pub total_le : a.total ≤ max

abbrev pub Held : ℕ → ℕ × Assembly → Type 0
Held max p = IsAssembly max p.1

pub record IsValid (d : Decoder) : Type 0 where
  pub few : length d.pending ≤ udp_fragment_max_assemblies
  pub held : All (Held d.max_packet) d.pending

abbrev Answer : Type 0
Answer = Decoder × Result DecodeError (Option (List ℕ))

-- The answers that `Decode` gives: never the error for an incomplete assembly, and packets that are
-- not empty and within the limit; the new state is valid.
pub record IsSound (max : ℕ) (r : Answer) : Type 0 where
  pub max_kept : r.0.max_packet ≡ max
  pub valid : IsValid r.0
  pub complete : r.1 ≢ err incomplete
  pub bounded :
      (packet : List ℕ) → r.1 ≡ ok (some packet) → (0 < length packet) × (length packet ≤ max)

-- The assembly with one part more, its counters right again.
record Grown (a : Assembly) (f : Fragment) (b : Assembly) : Type 0 where
  count_same : b.count ≡ a.count
  received_next : b.received ≡ a.received + 1
  total_next : b.total ≡ a.total + length f.payload
  slots : length b.parts ≡ a.count
  received_eq : b.received ≡ arrived b.parts
  total_eq : b.total ≡ part_bytes b.parts

put_part-Grown :
    (max : ℕ) (a : Assembly) (f : Fragment)
    → IsAssembly max a
    → IsFragment f
    → a.count ≡ f.count
    → part_at a.parts f.index ≡ none
    → Grown a f (put_part a f)
unfolding put_part
put_part-Grown max a f v w same slot =
    let free : f.index < length a.parts = omega arith in
    record {
      count_same = refl;
      received_next = refl;
      total_next = refl;
      slots = length-set a.parts f.index (some f.payload) ∙ v.slots;
      received_eq = omega (arith, arrived-set a.parts f.index f.payload free slot);
      total_eq = omega (arith, part_bytes-set a.parts f.index f.payload free slot);
    }

-- The three kinds of sound answers.
quiet : (d : Decoder) → IsValid d → IsSound d.max_packet (d, ok none)
quiet d v = record {
  max_kept = refl;
  valid = v;
  complete = λ e. cc;
  bounded = λ packet e. absurd (cc);
}

refused :
    (d : Decoder) (x : DecodeError) → IsValid d → x ≢ incomplete → IsSound d.max_packet (d, err x)
refused d x v h = record {
  max_kept = refl;
  valid = v;
  complete = λ e. h (cc);
  bounded = λ packet e. absurd (cc);
}

delivered :
    (d : Decoder) (packet : List ℕ)
    → IsValid d
    → 0 < length packet
    → length packet ≤ d.max_packet
    → IsSound d.max_packet (d, ok (some packet))
delivered d packet v lo hi = record {
  max_kept = refl;
  valid = v;
  complete = λ e. cc;
  bounded = λ other e. let same : packet ≡ other = cc in rw (← same) (lo, hi);
}

module _ (d : Decoder) (a : Assembly) (f : Fragment) (v : IsValid d) (w : IsFragment f)
    (stored : lookup ℕ_discrete f.sequence d.pending ≡ some a) (same : a.count ≡ f.count) where
  this_held : IsAssembly d.max_packet a
  this_held = All-lookup ℕ_discrete (Held d.max_packet) f.sequence a d.pending v.held stored

  delete-IsValid : IsValid (record d { pending = delete ℕ_discrete f.sequence d.pending })
  delete-IsValid = record {
    few = omega (arith, length-delete-le ℕ_discrete f.sequence d.pending, v.few);
    held = All-delete ℕ_discrete (Held d.max_packet) f.sequence d.pending v.held;
  }

  insert-IsValid :
      (b : Assembly)
      → IsAssembly d.max_packet b
      → IsValid (record d { pending = insert ℕ_discrete f.sequence b d.pending })
  insert-IsValid b h = record {
    few = omega (arith, length-insert_of_lookup ℕ_discrete f.sequence b a d.pending stored, v.few);
    held = All-insert ℕ_discrete (Held d.max_packet) f.sequence b d.pending h v.held;
  }

  -- The last part: all slots are full, so that they join.
  finish-IsSound :
      part_at a.parts f.index ≡ none
      → a.total + length f.payload ≤ d.max_packet
      → a.received + 1 ≡ a.count
      → IsSound d.max_packet (finish d f.sequence (put_part a f))
  unfolding finish
  finish-IsSound slot fits last =
      let g = put_part-Grown d.max_packet a f this_held w same slot in
      let full : arrived (put_part a f).parts ≡ length (put_part a f).parts = omega arith in
      let (packet, joins, size) = join_complete (put_part a f).parts full in
      rw (joins, finish)
        (delivered (record d { pending = delete ℕ_discrete f.sequence d.pending }) packet
          delete-IsValid (omega arith) (omega arith))

  partial-IsAssembly :
      part_at a.parts f.index ≡ none
      → a.total + length f.payload ≤ d.max_packet
      → a.received + 1 ≢ a.count
      → IsAssembly d.max_packet (put_part a f)
  partial-IsAssembly slot fits more =
      let g = put_part-Grown d.max_packet a f this_held w same slot in
      let h = this_held in
      record {
        count_max = omega arith;
        slots = omega arith;
        received_eq = g.received_eq;
        received_lt = omega arith;
        total_eq = g.total_eq;
        total_le = omega arith;
      }

  add_part-IsSound : IsSound d.max_packet (add_part d a f)
  unfolding add_part
  add_part-IsSound = elim (Option-cases (part_at a.parts f.index)) [
    | inr (p, old) ↦ rw (old, add_part) (quiet d v)
    | inl slot ↦ elim (Bool-cases (ltb d.max_packet (a.total + length f.payload))) [
      | inl big ↦
          rw (slot, add_part)
            (rw big (
              refused (record d { pending = delete ℕ_discrete f.sequence d.pending })
                packet_too_large delete-IsValid (λ e. cc)))
      | inr fits ↦ elim (Bool-cases (a.received + 1 == a.count)) [
        | inr more ↦
            rw (slot, add_part)
              (rw (fits, more)
                (quiet
                  (record d { pending = insert ℕ_discrete f.sequence (put_part a f) d.pending })
                  (insert-IsValid (put_part a f)
                    (partial-IsAssembly slot (ground arith) (ground arith)))))
        | inl last ↦
            rw (slot, add_part)
              (rw (fits, last) (finish-IsSound slot (ground arith) (ground arith)))
      ]
    ]
  ]

new_assembly-IsAssembly :
    (max now : ℕ) (f : Fragment) → IsFragment f → IsAssembly max (new_assembly now f.count)
unfolding new_assembly
new_assembly-IsAssembly max now f w = record {
  count_max = w.count_max;
  slots = length-replicate f.count none;
  received_eq = sym (arrived-replicate f.count);
  received_lt = w.count_pos;
  total_eq = sym (part_bytes-replicate f.count);
  total_le = omega arith;
}

admit-IsSound :
    (now : ℕ) (d : Decoder) (f : Fragment)
    → IsValid d
    → IsFragment f
    → IsSound d.max_packet (admit now d f)
unfolding admit new_assembly
admit-IsSound now d f v w = elim (Option-cases (lookup ℕ_discrete f.sequence d.pending)) [
  | inl fresh ↦
      let a = new_assembly now f.count in
      let opened : Decoder = record d {
        pending = insert ℕ_discrete f.sequence a (make_room d.pending);
      } in
      rw (fresh, admit)
        (add_part-IsSound opened a f
          (record {
            few = omega (
              arith,
              length-insert-le ℕ_discrete f.sequence a (make_room d.pending),
              make_room-few d.pending v.few,
            );
            held =
                All-insert ℕ_discrete (Held d.max_packet) f.sequence a (make_room d.pending)
                  (new_assembly-IsAssembly d.max_packet now f w)
                  (make_room-All (Held d.max_packet) d.pending v.held);
          })
          w (lookup-insert_self ℕ_discrete f.sequence a (make_room d.pending)) refl)
  | inr (a, stored) ↦ elim (Bool-cases (a.count == f.count)) [
    | inl same ↦ rw (stored, admit) (rw same (add_part-IsSound d a f v w stored (ground arith)))
    | inr other ↦
        rw (stored, admit)
          (rw other (
            refused (record d { pending = delete ℕ_discrete f.sequence d.pending })
              conflicting_count
              (record {
                few = omega (arith, length-delete-le ℕ_discrete f.sequence d.pending, v.few);
                held = All-delete ℕ_discrete (Held d.max_packet) f.sequence d.pending v.held;
              })
              (λ e. cc)))
  ]
]

-- Whatever frame arrives, at whatever time: a valid decoder stays valid (at most 16 assemblies, each
-- incomplete, within the packet limit and with its counters right), keeps its limit, never answers
-- with the error for an incomplete assembly, and delivers only packets that are not empty and
-- within the limit.
pub decode-IsSound :
    (now : ℕ) (d : Decoder) (frame : List ℕ) → IsValid d → IsSound d.max_packet (decode now d frame)
unfolding decode
decode-IsSound now d frame v = elim (Result-cases (parse_frame frame)) [
  | inr (x, bad) ↦ rw (bad, decode) (refused d x v (parse_frame-ne-incomplete frame x bad))
  | inl (f, good) ↦
      rw (good, decode)
        (admit-IsSound now (record d { pending = prune_expired now d.pending }) f
          (record {
            few = omega (arith, prune_expired-length now d.pending);
            held = prune_expired-All (Held d.max_packet) now d.pending v.held;
          })
          (parse_frame-IsFragment frame f good))
]
