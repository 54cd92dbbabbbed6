-- ===== src/Udp/Decoder/Collecting.antt =====
-- The fragments of one packet as they gather in the decoder of internal/quicx/udp_codec.go.
use chimera_core.Prelude.{
  ℕ, zero, suc, ◌+◌, ◌≤◌, ◌<◌, ◌≡◌, ◌≢◌, refl, true, false, List, [], ◌∷◌, none, some, ok, arith,
  ltb, ◌==◌, length, All, concat, get_or, ℕ_discrete, ltb-eq-false, ==_iff,
}
use chimera_core.Prelude.Dict.{lookup, insert, lookup-insert_self}
use chimera_core.Udp.Frame.{
  Fragment, put_frame, parse_frame, parse_frame-put_frame, IsPiece, udp_fragment_max_count,
}
use chimera_core.Udp.Decoder.Parts.{part_at, join, arrived, part_bytes, arrived-set, part_bytes-set}
use chimera_core.Udp.Decoder.Agrees.{
  Agrees, Agrees-length, Agrees-set, join-Agrees, part_bytes-add-le,
}
use chimera_core.Udp.Decoder.{
  Assembly, Decoder, prune_expired, put_part, finish, add_part, admit, decode,
}

-- The fragment of index `i` of the packet that `cs` is cut into.
abbrev pub fragment_of : ℕ → List (List ℕ) → ℕ → Fragment
fragment_of sequence cs i = record {
  sequence = sequence;
  index = i;
  count = length cs;
  payload = get_or cs i [];
}

All-get_or :
    (cs : List (List ℕ)) (i : ℕ) → All IsPiece cs → i < length cs → IsPiece (get_or cs i [])
All-get_or [] i h lt = absurd (omega arith)
All-get_or (c ∷ cs) zero h lt = h.0
All-get_or (c ∷ cs) (suc i) h lt = All-get_or cs i h.1 (omega arith)

pub lookup-prune_none :
    (now s : ℕ) (m : List (ℕ × Assembly))
    → lookup ℕ_discrete s m ≡ none
    → lookup ℕ_discrete s (prune_expired now m) ≡ none
unfolding lookup prune_expired
lookup-prune_none now s [] e = refl
lookup-prune_none now s ((k, a) ∷ m) e = ground (arith, lookup-prune_none now s m)

lookup-prune_some :
    (now s : ℕ) (a : Assembly) (m : List (ℕ × Assembly))
    → lookup ℕ_discrete s m ≡ some a
    → now < a.expires_at
    → lookup ℕ_discrete s (prune_expired now m) ≡ some a
unfolding lookup prune_expired
lookup-prune_some now s a [] e h = absurd (ground arith)
lookup-prune_some now s a ((k, b) ∷ m) e h = ground (arith, lookup-prune_some now s a m)

-- The decoder holds an assembly of the packet.
pub record Collects (sequence : ℕ) (cs : List (List ℕ)) (limit : ℕ) (d : Decoder) (a : Assembly)
    : Type 0 where
  pub stored : lookup ℕ_discrete sequence d.pending ≡ some a
  pub count_eq : a.count ≡ length cs
  pub received_eq : a.received ≡ arrived a.parts
  pub total_eq : a.total ≡ part_bytes a.parts
  pub agrees : Agrees a.parts cs
  pub expiry : a.expires_at ≡ limit
  pub fits : length (concat cs) ≤ d.max_packet

module _ (sequence : ℕ) (cs : List (List ℕ)) (limit : ℕ) (d : Decoder) (a : Assembly) (i : ℕ)
    (c : Collects sequence cs limit d a) (in_range : i < length cs)
    (slot : part_at a.parts i ≡ none) where
  abbrev f : Fragment
  f = fragment_of sequence cs i

  free : i < length a.parts
  free = omega (arith, Agrees-length a.parts cs c.agrees)

  pub arrived_next : arrived (put_part a f).parts ≡ arrived a.parts + 1
  unfolding put_part
  arrived_next = arrived-set a.parts i (get_or cs i []) free slot

  pub put_part-Collects :
      Collects sequence cs limit
        (record d { pending = insert ℕ_discrete sequence (put_part a f) d.pending })
        (put_part a f)
  unfolding put_part
  put_part-Collects = record {
    stored = lookup-insert_self ℕ_discrete sequence (put_part a f) d.pending;
    count_eq = c.count_eq;
    received_eq = omega (arith, c.received_eq, arrived-set a.parts i (get_or cs i []) free slot);
    total_eq = omega (arith, c.total_eq, part_bytes-set a.parts i (get_or cs i []) free slot);
    agrees = Agrees-set a.parts cs i c.agrees;
    expiry = c.expiry;
    fits = c.fits;
  }

  small : ltb d.max_packet (a.total + length (get_or cs i [])) ≡ false
  small =
      ltb-eq-false _ _
        (omega (arith, part_bytes-add-le a.parts cs i c.agrees in_range slot, c.total_eq, c.fits))

  pub add_part_more :
      arrived a.parts + 1 ≢ length cs
      → add_part d a f
        ≡ (record d { pending = insert ℕ_discrete sequence (put_part a f) d.pending }, ok none)
  unfolding add_part
  add_part_more more =
      let test : (a.received + 1 == a.count) ≡ false = ground (arith, c.received_eq, c.count_eq) in
      rw (slot, add_part) (rw (small, test))

  joined : arrived a.parts + 1 ≡ length cs → join (put_part a f).parts ≡ some (concat cs)
  joined last = join-Agrees (put_part a f).parts cs put_part-Collects.agrees (
      omega
        (arith, arrived_next, last, Agrees-length (put_part a f).parts cs put_part-Collects.agrees))

  pub add_part_last : arrived a.parts + 1 ≡ length cs → (add_part d a f).1 ≡ ok (some (concat cs))
  unfolding add_part finish
  add_part_last last =
      let test : (a.received + 1 == a.count) ≡ true = ground (arith, c.received_eq, c.count_eq) in
      rw (slot, add_part) (rw (small, test) (rw (joined last, finish)))

-- A piece's frame parses to its fragment.
pub parse_fragment_of :
    (sequence : ℕ) (cs : List (List ℕ)) (i : ℕ)
    → sequence < 4294967296
    → length cs ≤ udp_fragment_max_count
    → All IsPiece cs
    → i < length cs
    → parse_frame (put_frame (fragment_of sequence cs i)) ≡ ok (fragment_of sequence cs i)
parse_fragment_of sequence cs i small few pieces lt =
    let piece = All-get_or cs i pieces lt in
    parse_frame-put_frame (fragment_of sequence cs i)
      (record {
        count_pos = omega arith;
        count_max = few;
        index_range = lt;
        payload_pos = piece.0;
        payload_max = piece.1;
      })
      small

pub prune-Collects :
    (now sequence : ℕ) (cs : List (List ℕ)) (limit : ℕ) (d : Decoder) (a : Assembly)
    → now < limit
    → Collects sequence cs limit d a
    → Collects sequence cs limit (record d { pending = prune_expired now d.pending }) a
prune-Collects now sequence cs limit d a h c = record {
  stored = lookup-prune_some now sequence a d.pending c.stored (omega (arith, c.expiry));
  count_eq = c.count_eq;
  received_eq = c.received_eq;
  total_eq = c.total_eq;
  agrees = c.agrees;
  expiry = c.expiry;
  fits = c.fits;
}

-- With the assembly there, a fragment of the packet goes straight to it.
pub decode_known :
    (now sequence : ℕ) (cs : List (List ℕ)) (limit : ℕ) (d : Decoder) (a : Assembly) (i : ℕ)
    → now < limit
    → Collects sequence cs limit d a
    → parse_frame (put_frame (fragment_of sequence cs i)) ≡ ok (fragment_of sequence cs i)
    → decode now d (put_frame (fragment_of sequence cs i))
      ≡ add_part (record d { pending = prune_expired now d.pending }) a (fragment_of sequence cs i)
unfolding decode admit
decode_known now sequence cs limit d a i h c parses =
    rw (parses, decode)
      (rw ((prune-Collects now sequence cs limit d a h c).stored, admit)
        (rw ((==_iff _ _).1 c.count_eq)))
