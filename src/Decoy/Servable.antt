-- ===== src/Decoy/Servable.antt =====
-- What the decoy of internal/quicx/decoy.go serves, whatever the fetched site sends.
use chimera_core.Prelude.{
  ℕ, ◌≤◌, ◌≡◌, inl, inr, sym, subst, false, List, [], ◌∷◌, ◌++◌, Option, none, some, arith, length,
  All, All-append, Bool-cases, Option-cases, length-take,
}
use chimera_core.Prelude.Bytes.{bytes_discrete}
use chimera_core.Prelude.Dict.{lookup, All-insert, All-lookup}
use chimera_core.Decoy.{
  Header, DecoySnapshot, Decoy, max_decoy_body, values, add_value, safe_names, has_break,
  copy_values, copy_names, sanitize_decoy_snapshot, refresh,
}

-- A header value cannot end its line.
abbrev pub OneLine : List ℕ → Type 0
OneLine v = has_break v ≡ false

abbrev pub Clean : List ℕ × List (List ℕ) → Type 0
Clean p = All OneLine p.1

abbrev OneLines : Option (List (List ℕ)) → Type 0
OneLines o = All OneLine (elim o [ none ↦ [] | some vs ↦ vs ])

values-Clean : (name : List ℕ) (h : Header) → All Clean h → All OneLine (values name h)
values-Clean name h c = elim (Option-cases (lookup bytes_discrete name h)) [
  | inl e ↦ subst OneLines (sym e) tt
  | inr (vs, e) ↦ subst OneLines (sym e) (All-lookup bytes_discrete Clean name vs h c e)
]

add_value-Clean :
    (name v : List ℕ) (h : Header) → OneLine v → All Clean h → All Clean (add_value name v h)
add_value-Clean name v h one c =
    All-insert bytes_discrete Clean name (values name h ++ (v ∷ [])) h
      (All-append OneLine (values name h) (v ∷ []) (values-Clean name h c) (one, tt)) c

copy_values-Clean :
    (name : List ℕ) (vs : List (List ℕ)) (safe : Header)
    → All Clean safe
    → All Clean (copy_values name vs safe)
unfolding copy_values
copy_values-Clean name [] safe c = c
copy_values-Clean name (v ∷ vs) safe c = elim (Bool-cases (has_break v)) [
  | inl bad ↦ rw bad (copy_values-Clean name vs safe c)
  | inr one ↦
      rw one (copy_values-Clean name vs (add_value name v safe) (add_value-Clean name v safe one c))
]

copy_names-Clean :
    (names : List (List ℕ)) (header safe : Header)
    → All Clean safe
    → All Clean (copy_names names header safe)
unfolding copy_names
copy_names-Clean [] header safe c = c
copy_names-Clean (name ∷ names) header safe c =
    copy_names-Clean names header (copy_values name (values name header) safe)
      (copy_values-Clean name (values name header) safe c)

-- A snapshot that can be served.
pub record IsServable (s : DecoySnapshot) : Type 0 where
  pub status_low : 200 ≤ s.status
  pub status_high : s.status ≤ 404
  pub clean : All Clean s.header
  pub small : length s.body ≤ max_decoy_body

-- Whatever the fetched site answers, a failed fetch included, `Refresh` keeps what the decoy serves in
-- bounds: a status from 200 to 404, a body within the limit, and header values of one line, so that
-- the site cannot inject a header line.
pub refresh-IsServable :
    (d : Decoy) (fetched : Option DecoySnapshot)
    → IsServable d.snapshot
    → IsServable (refresh d fetched).snapshot
unfolding refresh sanitize_decoy_snapshot
refresh-IsServable d none v = v
refresh-IsServable d (some s) v = record {
  status_low = ground arith;
  status_high = ground arith;
  clean = copy_names-Clean safe_names s.header [] tt;
  small = omega (arith, length-take max_decoy_body s.body);
}
