-- ===== src/Decoy.antt =====
-- internal/quicx/decoy.go. An http.Header maps canonical names to values; a response is its header, its
-- status and its body. The text of the first page is a parameter, and so is the fetch.
pub mod Servable
mod Tests
use chimera_core.Prelude.{
  ℕ, ◌*◌, ◌≡◌, Bool, ◌||◌, ◌==◌, List, [], ◌∷◌, ◌++◌, Option, none, some, ltb, leb, if◌then◌else◌,
  length, take,
}
use chimera_core.Prelude.Bytes.{bytes_discrete}
use chimera_core.Prelude.Dict.{lookup, insert}
use chimera_core.Prelude.Text.{has_byte, trim_space}
use chimera_core.Chimera.Ip.{bytes_equal}
use chimera_core.Chimera.Resolve.{format_uint}

-- "Cache-Control".
abbrev pub cache_control : List ℕ
cache_control = 67 ∷ 97 ∷ 99 ∷ 104 ∷ 101 ∷ 45 ∷ 67 ∷ 111 ∷ 110 ∷ 116 ∷ 114 ∷ 111 ∷ 108 ∷ []

-- "Content-Language".
abbrev pub content_language : List ℕ
content_language =
    67 ∷ 111 ∷ 110 ∷ 116 ∷ 101 ∷ 110 ∷ 116 ∷ 45 ∷ 76 ∷ 97 ∷ 110 ∷ 103 ∷ 117 ∷ 97 ∷ 103 ∷ 101 ∷ []

-- "Content-Type".
abbrev pub content_type : List ℕ
content_type = 67 ∷ 111 ∷ 110 ∷ 116 ∷ 101 ∷ 110 ∷ 116 ∷ 45 ∷ 84 ∷ 121 ∷ 112 ∷ 101 ∷ []

-- "Etag".
abbrev pub etag : List ℕ
etag = 69 ∷ 116 ∷ 97 ∷ 103 ∷ []

-- "Last-Modified".
abbrev pub last_modified : List ℕ
last_modified = 76 ∷ 97 ∷ 115 ∷ 116 ∷ 45 ∷ 77 ∷ 111 ∷ 100 ∷ 105 ∷ 102 ∷ 105 ∷ 101 ∷ 100 ∷ []

-- "Vary".
abbrev pub vary : List ℕ
vary = 86 ∷ 97 ∷ 114 ∷ 121 ∷ []

-- "Content-Length".
abbrev pub content_length : List ℕ
content_length = 67 ∷ 111 ∷ 110 ∷ 116 ∷ 101 ∷ 110 ∷ 116 ∷ 45 ∷ 76 ∷ 101 ∷ 110 ∷ 103 ∷ 116 ∷ 104 ∷ []

-- "HEAD".
abbrev pub head_method : List ℕ
head_method = 72 ∷ 69 ∷ 65 ∷ 68 ∷ []

abbrev pub max_decoy_body : ℕ
max_decoy_body = 262144

abbrev pub Header : Type 0
Header = List (List ℕ × List (List ℕ))

pub record DecoySnapshot : Type 0 where
  pub status : ℕ
  pub header : Header
  pub body : List ℕ

pub record Decoy : Type 0 where
  pub target : List ℕ
  pub snapshot : DecoySnapshot

-- http.Header.Values, Add and Set.
abbrev pub values : List ℕ → Header → List (List ℕ)
values name h = elim (lookup bytes_discrete name h) [ none ↦ [] | some vs ↦ vs ]

abbrev pub add_value : List ℕ → List ℕ → Header → Header
add_value name v h = insert bytes_discrete name (values name h ++ (v ∷ [])) h

-- The names that `sanitizeDecoySnapshot` keeps.
abbrev pub safe_names : List (List ℕ)
safe_names = cache_control ∷ content_language ∷ content_type ∷ etag ∷ last_modified ∷ vary ∷ []

-- strings.ContainsAny with CR and LF.
abbrev pub has_break : List ℕ → Bool
has_break v = has_byte 13 v || has_byte 10 v

-- The inner and the outer loop.
unfoldable pub copy_values : List ℕ → List (List ℕ) → Header → Header
copy_values name [] safe = safe
copy_values name (v ∷ vs) safe =
    copy_values name vs (if has_break v then safe else add_value name v safe)

unfoldable pub copy_names : List (List ℕ) → Header → Header → Header
copy_names [] header safe = safe
copy_names (name ∷ names) header safe =
    copy_names names header (copy_values name (values name header) safe)

-- `sanitizeDecoySnapshot`.
unfoldable pub sanitize_decoy_snapshot : DecoySnapshot → DecoySnapshot
sanitize_decoy_snapshot s = record {
  status = if ltb s.status 200 || leb 300 s.status then 200 else s.status;
  header = copy_names safe_names s.header [];
  body = take max_decoy_body s.body;
}

-- `NewDecoy`: none without a target. `page` is the text of the 404 page and `html` its type.
unfoldable pub new_decoy : List ℕ → List ℕ → List ℕ → Option Decoy
new_decoy page html target =
    if length (trim_space target) == 0
    then none
    else some (record {
      target = trim_space target;
      snapshot = record { status = 404; header = (content_type, html ∷ []) ∷ []; body = page };
    })

-- `Refresh`, on what the fetch gave; `none` is an error.
unfoldable pub refresh : Decoy → Option DecoySnapshot → Decoy
refresh d none = d
refresh d (some s) = record d { snapshot = sanitize_decoy_snapshot s }

pub record Response : Type 0 where
  pub header : Header
  pub status : ℕ
  pub body : List ℕ

-- The loops of `serveStatus` over the header.
unfoldable pub add_values : List ℕ → List (List ℕ) → Header → Header
add_values name [] h = h
add_values name (v ∷ vs) h = add_values name vs (add_value name v h)

unfoldable pub add_header : Header → Header → Header
add_header [] h = h
add_header ((name, vs) ∷ more) h = add_header more (add_values name vs h)

-- `serveStatus`, on a response without a header; the length has at most 20 digits.
unfoldable pub serve_status : Decoy → List ℕ → ℕ → Response
serve_status d method override = record {
  header =
      insert bytes_discrete content_length (format_uint 20 (length d.snapshot.body) ∷ [])
        (add_header d.snapshot.header []);
  status = if override == 0 then d.snapshot.status else override;
  body = if bytes_equal method head_method then [] else d.snapshot.body;
}
