-- ===== src/Decoy/Tests.antt =====
-- A run of internal/quicx/decoy.go on a concrete answer.
use chimera_core.Prelude.{◌≡◌, refl, [], ◌∷◌, some, arith, ℕ_discrete}
use chimera_core.Prelude.Bytes.{bytes_discrete}
use chimera_core.Prelude.Dict.{lookup, insert}
use chimera_core.Prelude.Text.{trim_space, index_byte}
use chimera_core.Chimera.Resolve.{format_uint}
use chimera_core.Decoy.{
  DecoySnapshot, Decoy, content_length, content_type, etag, head_method, new_decoy, refresh,
  sanitize_decoy_snapshot, copy_names, copy_values, serve_status, add_header, add_values,
}
use chimera_core.Decoy.Servable.{IsServable, refresh-IsServable}

abbrev first_page : DecoySnapshot
first_page = record {
  status = 404;
  header = (content_type, (120 ∷ []) ∷ []) ∷ [];
  body = 1 ∷ 2 ∷ [];
}

abbrev decoy : Decoy
decoy = record { target = 104 ∷ []; snapshot = first_page }

made : new_decoy (1 ∷ 2 ∷ []) (120 ∷ []) (32 ∷ 104 ∷ []) ≡ some decoy
unfolding new_decoy trim_space
made = refl

-- A redirect with a cookie and a broken tag.
abbrev answer : DecoySnapshot
answer = record {
  status = 302;
  header = (etag, (65 ∷ 10 ∷ []) ∷ (66 ∷ []) ∷ []) ∷ ((67 ∷ []), (68 ∷ []) ∷ []) ∷ [];
  body = 3 ∷ [];
}

cleaned :
    (refresh decoy (some answer)).snapshot
    ≡ record { status = 200; header = (etag, (66 ∷ []) ∷ []) ∷ []; body = 3 ∷ [] }
unfolding refresh sanitize_decoy_snapshot copy_names copy_values lookup insert bytes_discrete
    ℕ_discrete index_byte
cleaned = refl

served : serve_status decoy head_method 0 ≡ record {
  header = (content_type, (120 ∷ []) ∷ []) ∷ (content_length, (50 ∷ []) ∷ []) ∷ [];
  status = 404;
  body = [];
}
unfolding serve_status add_header add_values format_uint lookup insert bytes_discrete ℕ_discrete
served = refl

first_page-IsServable : IsServable first_page
unfolding index_byte
first_page-IsServable = record {
  status_low = omega arith;
  status_high = omega arith;
  clean = ((refl, tt), tt);
  small = omega arith;
}

refresh-IsServable_example : IsServable (refresh decoy (some answer)).snapshot
refresh-IsServable_example = refresh-IsServable decoy (some answer) first_page-IsServable
