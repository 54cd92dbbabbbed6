-- ===== src/Quic/Client/Authority/Hosts.antt =====
-- net.SplitHostPort on what net.JoinHostPort writes.
use chimera_core.Prelude.{
  ℕ, suc, ◌+◌, ◌-◌, ◌<◌, ◌≡◌, ◌≢◌, refl, false, List, [], ◌∷◌, ◌++◌, none, some, length, take, drop,
  All, All-append, All-take, take-length_append, ◌⊎◌, length-append, append_assoc, arith, inr, sym,
  ap, ◌∙◌,
}
use chimera_core.Prelude.Text.{
  index_byte, last_index_byte, has_byte, split_bracketed, split_plain, split_host_port,
}
use chimera_core.Quic.Client.Authority.Digits.{IsDigit}

abbrev pub Absent : ℕ → List ℕ → Type 0
Absent b = All (λ c. c ≢ b)

index_byte-none : (b : ℕ) (s : List ℕ) → Absent b s → index_byte b s ≡ none
unfolding index_byte
index_byte-none b [] h = refl
index_byte-none b (c ∷ s) h = ground (arith, index_byte-none b s h.1, h.0)

index_byte-some :
    (b : ℕ) (s t : List ℕ) → Absent b s → index_byte b (s ++ (b ∷ t)) ≡ some (length s)
unfolding index_byte
index_byte-some b [] t h = ground arith
index_byte-some b (c ∷ s) t h = ground (arith, index_byte-some b s t h.1, h.0)

last_index_byte-none : (b : ℕ) (s : List ℕ) → Absent b s → last_index_byte b s ≡ none
unfolding last_index_byte
last_index_byte-none b [] h = refl
last_index_byte-none b (c ∷ s) h = ground (arith, last_index_byte-none b s h.1, h.0)

last_index_byte-some :
    (b : ℕ) (s t : List ℕ) → Absent b t → last_index_byte b (s ++ (b ∷ t)) ≡ some (length s)
unfolding last_index_byte
last_index_byte-some b [] t h = ground (arith, last_index_byte-none b t h)
last_index_byte-some b (c ∷ s) t h = ground (arith, last_index_byte-some b s t h)

pub has_byte-Absent : (b : ℕ) (s : List ℕ) → has_byte b s ≡ false → Absent b s
unfolding index_byte
has_byte-Absent b [] e = tt
has_byte-Absent b (c ∷ s) e = ground (arith, has_byte-Absent b s)

has_byte-false : (b : ℕ) (s : List ℕ) → Absent b s → has_byte b s ≡ false
has_byte-false b s h = ground (arith, index_byte-none b s h)

digits-Absent : (b : ℕ) (s : List ℕ) → All IsDigit s → (b < 48) ⊎ (57 < b) → Absent b s
digits-Absent b [] h out = tt
digits-Absent b (c ∷ s) h out = ground (arith, digits-Absent b s h.1 out, h.0)

drop_past : (b : ℕ) (xs ys : List ℕ) → drop (length xs + 1) (xs ++ (b ∷ ys)) ≡ ys
drop_past b xs ys =
    let next : length xs + 1 ≡ suc (length xs) = omega arith in
    ap (λ (n : ℕ). drop n (xs ++ (b ∷ ys))) next ∙ past xs
  where
    past : (xs : List ℕ) → drop (suc (length xs)) (xs ++ (b ∷ ys)) ≡ ys
    past [] = refl
    past (x ∷ xs) = past xs

-- A host without a colon.
pub split_plain_lem :
    (host port : List ℕ)
    → Absent 58 host
    → Absent 91 host
    → Absent 93 host
    → All IsDigit port
    → split_host_port (host ++ (58 ∷ port)) ≡ some (host, port)
unfolding split_host_port split_plain
split_plain_lem host port colon left right digits =
    let s = host ++ (58 ∷ port) in
    let no_digit = λ (b : ℕ) (out : (b < 48) ⊎ (57 < b)). digits-Absent b port digits out in
    let colon_at = last_index_byte-some 58 host port (no_digit 58 (inr (omega arith))) in
    let no_left : Absent 91 s =
      All-append (λ c. c ≢ 91) host (58 ∷ port) left
        ((omega arith), no_digit 91 (inr (omega arith))) in
    let no_right : Absent 93 s =
      All-append (λ c. c ≢ 93) host (58 ∷ port) right
        ((omega arith), no_digit 93 (inr (omega arith))) in
    let f1 = has_byte-false 91 s no_left in
    let f2 = has_byte-false 93 s no_right in
    let f3 = has_byte-false 91 (take 1 s) (All-take (λ c. c ≢ 91) 1 s no_left) in
    let f4 = has_byte-false 58 host colon in
    ground
      (arith, colon_at, take-length_append host (58 ∷ port), f1, f2, f3, f4, drop_past 58 host port)

-- A host in brackets.
pub split_bracketed_lem :
    (host port : List ℕ)
    → Absent 91 host
    → Absent 93 host
    → All IsDigit port
    → split_host_port (91 ∷ host ++ (93 ∷ 58 ∷ port)) ≡ some (host, port)
unfolding split_host_port split_bracketed
split_bracketed_lem host port left right digits =
    let s = 91 ∷ host ++ (93 ∷ 58 ∷ port) in
    let no_digit = λ (b : ℕ) (out : (b < 48) ⊎ (57 < b)). digits-Absent b port digits out in
    let long : (host ++ (93 ∷ [])) ++ (58 ∷ port) ≡ host ++ (93 ∷ 58 ∷ port) =
      append_assoc host (93 ∷ []) (58 ∷ port) in
    let colon_at : last_index_byte 58 s ≡ some (length host + 2) =
      ap (λ (t : List ℕ). last_index_byte 58 (91 ∷ t)) (sym long)
      ∙ last_index_byte-some 58 (91 ∷ host ++ (93 ∷ [])) port (no_digit 58 (inr (omega arith)))
      ∙ ap (λ (n : ℕ). some n) (omega (arith, length-append host (93 ∷ []))) in
    let bracket_at : index_byte 93 s ≡ some (suc (length host)) =
      index_byte-some 93 (91 ∷ host) (58 ∷ port) ((omega arith), right) in
    let tail_ok : Absent 93 (58 ∷ port) = ((omega arith), no_digit 93 (inr (omega arith))) in
    let rest_ok : Absent 91 (host ++ (93 ∷ 58 ∷ port)) =
      All-append (λ c. c ≢ 91) host (93 ∷ 58 ∷ port) left
        ((omega arith), ((omega arith), no_digit 91 (inr (omega arith)))) in
    let f1 = has_byte-false 91 (host ++ (93 ∷ 58 ∷ port)) rest_ok in
    let f2 = has_byte-false 93 (58 ∷ port) tail_ok in
    let d1 : drop (suc (length host) + 1) s ≡ 58 ∷ port = drop_past 93 (91 ∷ host) (58 ∷ port) in
    let d2 : drop (length host + 2 + 1) s ≡ port =
      let count : length host + 2 + 1 ≡ length (91 ∷ host ++ (93 ∷ [])) + 1 =
        omega (arith, length-append host (93 ∷ [])) in
      ap (λ (n : ℕ). drop n s) count
      ∙ ap (λ (t : List ℕ). drop (length (91 ∷ host ++ (93 ∷ [])) + 1) (91 ∷ t)) (sym long)
      ∙ drop_past 58 (91 ∷ host ++ (93 ∷ [])) port in
    let t1 : take (suc (length host) - 1) (host ++ (93 ∷ 58 ∷ port)) ≡ host =
      let count : suc (length host) - 1 ≡ length host = omega arith in
      ap (λ (n : ℕ). take n (host ++ (93 ∷ 58 ∷ port))) count
      ∙ take-length_append host (93 ∷ 58 ∷ port) in
    ground (arith, colon_at, bracket_at, f1, f2, d1, d2, t1)
