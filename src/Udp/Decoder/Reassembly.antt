-- ===== src/Udp/Decoder/Reassembly.antt =====
-- The fragments of one packet, in any order, give the packet back.
use chimera_core.Prelude.{
  ℕ, suc, ◌+◌, ◌≤◌, ◌<◌, ◌≡◌, ◌≢◌, refl, sym, ap, ◌∙◌, List, [], ◌∷◌, ◌++◌, map, Option, none, some,
  Result, ok, arith, length, All, replicate, concat, get_or, ℕ_discrete,
}
use chimera_core.Prelude.Dict.{lookup, insert, lookup-insert_self}
use chimera_core.Udp.Frame.{
  DecodeError, put_frame, IsPiece, udp_fragment_max_count, udp_fragment_assembly_ttl,
}
use chimera_core.Udp.Decoder.Parts.{
  part_at, arrived, arrived-replicate, part_bytes-replicate, part_at-replicate,
}
use chimera_core.Udp.Decoder.Agrees.{Agrees-replicate, part_at-set_ne}
use chimera_core.Udp.Decoder.{
  Assembly, Decoder, prune_expired, new_assembly, put_part, add_part, make_room, admit, decode,
}
use chimera_core.Udp.Decoder.Collecting.{
  fragment_of, lookup-prune_none, Collects, parse_fragment_of, prune-Collects, decode_known,
  arrived_next, put_part-Collects, add_part_more, add_part_last,
}

abbrev pub Answer : Type 0
Answer = Result DecodeError (Option (List ℕ))

-- Datagrams that arrive one after the other, each with its time.
unfoldable pub decode_all : Decoder → List (ℕ × List ℕ) → Decoder × List Answer
decode_all d [] = (d, [])
decode_all d ((now, frame) ∷ more) =
    let (d1, answer) = decode now d frame in
    let (d2, answers) = decode_all d1 more in (d2, answer ∷ answers)

abbrev pub arrivals : ℕ → List (List ℕ) → List (ℕ × ℕ) → List (ℕ × List ℕ)
arrivals sequence cs = map (λ e. (e.0, put_frame (fragment_of sequence cs e.1)))

-- No index comes twice.
abbrev pub Distinct : List (ℕ × ℕ) → Type 0
Distinct [] = Unit {0}
Distinct (e ∷ r) = All (λ o. o.1 ≢ e.1) r × Distinct r

-- An arrival in time, of an index of the packet.
abbrev pub InTime : ℕ → ℕ → ℕ × ℕ → Type 0
InTime limit n e = (e.0 < limit) × (e.1 < n)

abbrev Missing : Assembly → ℕ × ℕ → Type 0
Missing a e = part_at a.parts e.1 ≡ none

put_part-Missing :
    (sequence : ℕ) (cs : List (List ℕ)) (a : Assembly) (i : ℕ) (r : List (ℕ × ℕ))
    → All (λ o. o.1 ≢ i) r
    → All (Missing a) r
    → All (Missing (put_part a (fragment_of sequence cs i))) r
unfolding put_part
put_part-Missing sequence cs a i [] h m = tt
put_part-Missing sequence cs a i (e ∷ r) h m = (
  part_at-set_ne a.parts i e.1 (some (get_or cs i [])) h.0 ∙ m.0,
  put_part-Missing sequence cs a i r h.1 m.1,
)

abbrev pub answers : ℕ → List ℕ → List Answer
answers n packet = replicate n (ok none) ++ (ok (some packet) ∷ [])

module _ (sequence : ℕ) (cs : List (List ℕ)) (limit : ℕ) (small : sequence < 4294967296)
    (few : length cs ≤ udp_fragment_max_count) (pieces : All IsPiece cs) where
  collect :
      (t i : ℕ) (r : List (ℕ × ℕ)) (d : Decoder) (a : Assembly)
      → Collects sequence cs limit d a
      → All (InTime limit (length cs)) ((t, i) ∷ r)
      → All (Missing a) ((t, i) ∷ r)
      → Distinct ((t, i) ∷ r)
      → arrived a.parts + suc (length r) ≡ length cs
      → (decode_all d (arrivals sequence cs ((t, i) ∷ r))).1 ≡ answers (length r) (concat cs)
  unfolding decode_all
  collect t i [] d a c times missing distinct left =
      let p = prune-Collects t sequence cs limit d a times.0.0 c in
      let parses = parse_fragment_of sequence cs i small few pieces times.0.1 in
      rw (decode_known t sequence cs limit d a i times.0.0 c parses, decode_all)
        (ap (λ (x : Answer). x ∷ [])
          (add_part_last sequence cs limit _ a i p times.0.1 missing.0 (omega arith)))
  collect t i ((t', i') ∷ r) d a c times missing distinct left =
      let p = prune-Collects t sequence cs limit d a times.0.0 c in
      let parses = parse_fragment_of sequence cs i small few pieces times.0.1 in
      let f = fragment_of sequence cs i in
      rw (decode_known t sequence cs limit d a i times.0.0 c parses) (
        rw (add_part_more sequence cs limit _ a i p times.0.1 missing.0 (omega arith)) (
          ap (λ (x : List Answer). ok none ∷ x)
            (collect t' i' r _ (put_part a f)
              (put_part-Collects sequence cs limit _ a i p times.0.1 missing.0) times.1
              (put_part-Missing sequence cs a i ((t', i') ∷ r) distinct.0 missing.1) distinct.1
              (omega (arith, arrived_next sequence cs limit _ a i p times.0.1 missing.0)))))

  -- The first fragment opens the assembly.
  opened : ℕ → Decoder → Decoder
  opened t d = record d {
    pending =
        insert ℕ_discrete sequence (new_assembly t (length cs))
          (make_room (prune_expired t d.pending));
  }

  opened-Collects :
      (t : ℕ) (d : Decoder)
      → limit ≡ t + udp_fragment_assembly_ttl
      → length (concat cs) ≤ d.max_packet
      → Collects sequence cs limit (opened t d) (new_assembly t (length cs))
  unfolding opened new_assembly
  opened-Collects t d time fits = record {
    stored = lookup-insert_self ℕ_discrete sequence (new_assembly t (length cs)) _;
    count_eq = refl;
    received_eq = sym (arrived-replicate (length cs));
    total_eq = sym (part_bytes-replicate (length cs));
    agrees = Agrees-replicate cs;
    expiry = sym time;
    fits = fits;
  }

  decode_first :
      (t i : ℕ) (d : Decoder)
      → lookup ℕ_discrete sequence d.pending ≡ none
      → i < length cs
      → decode t d (put_frame (fragment_of sequence cs i))
        ≡ add_part (opened t d) (new_assembly t (length cs)) (fragment_of sequence cs i)
  unfolding decode admit opened
  decode_first t i d fresh lt =
      rw (parse_fragment_of sequence cs i small few pieces lt, decode)
        (rw (lookup-prune_none t sequence d.pending fresh, admit))

  new-Missing : (t : ℕ) (r : List (ℕ × ℕ)) → All (Missing (new_assembly t (length cs))) r
  unfolding new_assembly
  new-Missing t [] = tt
  new-Missing t (e ∷ r) = (part_at-replicate (length cs) e.1, new-Missing t r)

  arrived_new : (t : ℕ) → arrived (new_assembly t (length cs)).parts ≡ 0
  unfolding new_assembly
  arrived_new t = arrived-replicate (length cs)

  pub reassemble :
      (t i : ℕ) (r : List (ℕ × ℕ)) (d : Decoder)
      → limit ≡ t + udp_fragment_assembly_ttl
      → lookup ℕ_discrete sequence d.pending ≡ none
      → length (concat cs) ≤ d.max_packet
      → All (InTime limit (length cs)) ((t, i) ∷ r)
      → Distinct ((t, i) ∷ r)
      → suc (length r) ≡ length cs
      → (decode_all d (arrivals sequence cs ((t, i) ∷ r))).1 ≡ answers (length r) (concat cs)
  unfolding decode_all
  reassemble t i [] d time fresh fits times distinct all =
      let a = new_assembly t (length cs) in
      let c = opened-Collects t d time fits in
      rw (decode_first t i d fresh times.0.1) (
        ap (λ (x : Answer). x ∷ [])
          (add_part_last sequence cs limit _ a i c times.0.1 (new-Missing t ((t, i) ∷ [])).0
            (omega (arith, arrived_new t))))
  reassemble t i ((t', i') ∷ r) d time fresh fits times distinct all =
      let a = new_assembly t (length cs) in
      let c = opened-Collects t d time fits in
      let slot = (new-Missing t ((t, i) ∷ [])).0 in
      rw (decode_first t i d fresh times.0.1) (
        rw (add_part_more sequence cs limit _ a i c times.0.1 slot (omega (arith, arrived_new t))) (
          ap (λ (x : List Answer). ok none ∷ x)
            (collect t' i' r _ (put_part a (fragment_of sequence cs i))
              (put_part-Collects sequence cs limit _ a i c times.0.1 slot) times.1
              (put_part-Missing sequence cs a i ((t', i') ∷ r) distinct.0
                (new-Missing t ((t', i') ∷ r)))
              distinct.1
              (omega
                (arith, arrived_new t, arrived_next sequence cs limit _ a i c times.0.1 slot)))))
