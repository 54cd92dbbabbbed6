-- ===== src/Auth/Token/Input.antt =====
-- What the MAC of internal/quicx/auth.go is taken of: `canonicalAuthInput` mixes up no two requests.
use chimera_core.Prelude.{
  ℕ, ◌/◌, ◌%◌, ◌<◌, ◌≡◌, refl, sym, ◌∙◌, List, [], ◌∷◌, ◌++◌, append-nil, ok, arith, length,
}
use chimera_core.Auth.Token.{Request, auth_version, put_uint64, put_field, canonical_auth_input}

cons_eq : {x y : ℕ} {s t : List ℕ} → x ∷ s ≡ y ∷ t → (x ≡ y) × (s ≡ t)
cons_eq e = ground arith

split_eq : (xs ys a b : List ℕ) → length xs ≡ length ys → xs ++ a ≡ ys ++ b → (xs ≡ ys) × (a ≡ b)
split_eq [] [] a b h e = (refl, e)
split_eq [] (y ∷ ys) a b h e = absurd (omega arith)
split_eq (x ∷ xs) [] a b h e = absurd (omega arith)
split_eq (x ∷ xs) (y ∷ ys) a b h e =
    let (same, tails) = cons_eq e in
    let (rest, left) = split_eq xs ys a b (omega arith) tails in (rw (same, rest), left)

length_eq :
    (m n : ℕ) → m < 65536 → n < 65536 → m / 256 % 256 ≡ n / 256 % 256 → m % 256 ≡ n % 256 → m ≡ n
length_eq m n h k hi lo = omega arith

field_eq :
    (f g a b : List ℕ)
    → length f < 65536
    → length g < 65536
    → put_field f ++ a ≡ put_field g ++ b
    → (f ≡ g) × (a ≡ b)
field_eq f g a b h k e =
    let (hi, e1) = cons_eq e in
    let (lo, e2) = cons_eq e1 in split_eq f g a b (length_eq (length f) (length g) h k hi lo) e2

timestamp_eq :
    (m n : ℕ)
    → m < 18446744073709551616
    → n < 18446744073709551616
    → put_uint64 m ≡ put_uint64 n
    → m ≡ n
timestamp_eq m n h k e =
    let (e0, t0) = cons_eq e in
    let (e1, t1) = cons_eq t0 in
    let (e2, t2) = cons_eq t1 in
    let (e3, t3) = cons_eq t2 in
    let (e4, t4) = cons_eq t3 in
    let (e5, t5) = cons_eq t4 in
    let (e6, t6) = cons_eq t5 in let (e7, _) = cons_eq t6 in omega arith

abbrev body_of : ℕ → List ℕ → Request → List ℕ
body_of timestamp nonce r =
    put_uint64 timestamp
    ++ (nonce ++ (put_field r.method ++ (put_field r.authority ++ put_field r.server_name)))

-- What a success of `canonicalAuthInput` says.
record Built (timestamp : ℕ) (nonce : List ℕ) (r : Request) (input : List ℕ) : Type 0 where
  nonce_size : length nonce ≡ 16
  method_size : length r.method < 65536
  authority_size : length r.authority < 65536
  server_name_size : length r.server_name < 65536
  input_eq : input ≡ auth_version ∷ body_of timestamp nonce r

canonical-Built :
    (timestamp : ℕ) (nonce : List ℕ) (r : Request) (input : List ℕ)
    → canonical_auth_input timestamp nonce r ≡ ok input
    → Built timestamp nonce r input
unfolding canonical_auth_input
canonical-Built timestamp nonce r input e = ground arith

request_eq :
    (r q : Request)
    → r.method ≡ q.method
    → r.authority ≡ q.authority
    → r.server_name ≡ q.server_name
    → r ≡ q
request_eq r q m a s = cc

-- Two requests with the same input for the MAC are the same: their timestamps, of 64 bits, their
-- nonces, methods, authorities and server names agree.
pub canonical_auth_input_injective :
    (t u : ℕ) (nonce other : List ℕ) (r q : Request) (input : List ℕ)
    → t < 18446744073709551616
    → u < 18446744073709551616
    → canonical_auth_input t nonce r ≡ ok input
    → canonical_auth_input u other q ≡ ok input
    → (t ≡ u) × (nonce ≡ other) × (r ≡ q)
canonical_auth_input_injective t u nonce other r q input h k first second =
    let a = canonical-Built t nonce r input first in
    let b = canonical-Built u other q input second in
    let (_, bodies) = cons_eq (sym a.input_eq ∙ b.input_eq) in
    let (times, e1) = split_eq (put_uint64 t) (put_uint64 u) _ _ refl bodies in
    let (nonces, e2) = split_eq nonce other _ _ (a.nonce_size ∙ sym b.nonce_size) e1 in
    let (methods, e3) = field_eq r.method q.method _ _ a.method_size b.method_size e2 in
    let (authorities, e4) =
      field_eq r.authority q.authority _ _ a.authority_size b.authority_size e3 in
    let (names, _) =
      field_eq r.server_name q.server_name [] [] a.server_name_size b.server_name_size
        (append-nil (put_field r.server_name) ∙ e4 ∙ sym (append-nil (put_field q.server_name))) in
    (timestamp_eq t u h k times, nonces, request_eq r q methods authorities names)
