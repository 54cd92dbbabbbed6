-- ===== src/Quic/Cert/Atomic.antt =====
-- What `writeFileAtomic` of internal/quicx/cert.go leaves, whichever call fails and whenever it is cut short.
use chimera_core.Prelude.{
  ℕ, ◌≡◌, ◌≢◌, refl, false, List, [], ◌∷◌, ◌++◌, ◌⊎◌, inl, inr, Option, none, some, length, take,
  All, All-append, arith, Bool-cases, Option-cases, sym, ap, ◌∙◌, subst, append_assoc, append-nil,
}
use chimera_core.Prelude.Bytes.{bytes_discrete}
use chimera_core.Prelude.Dict.{
  lookup, insert, delete, lookup-insert_self, lookup-insert_ne, lookup-delete_self,
  lookup-delete_ne,
}
use chimera_core.Quic.Cert.{
  File, Files, Disk, change, Calls, FileError, renamed, fill_temp, clean_up, new_temp,
  write_file_atomic,
}

abbrev pub find : List ℕ → Files → Option File
find = lookup bytes_discrete

-- The same files but for one.
abbrev Near : List ℕ → Files → Files → Type 0
Near temp base files = (q : List ℕ) → q ≢ temp → find q files ≡ find q base

insert_kept :
    (temp : List ℕ) (base files : Files) (file : File)
    → Near temp base files
    → Near temp base (insert bytes_discrete temp file files)
insert_kept temp base files file near q ne =
    lookup-insert_ne bytes_discrete temp q file files ne ∙ near q ne

-- At the path there is the old file or the new one, whole.
abbrev pub Whole : List ℕ → File → Files → Files → Type 0
Whole path new base files = (find path files ≡ find path base) ⊎ (find path files ≡ some new)

-- The states since `base`.
pub record Since (path : List ℕ) (new : File) (base : Disk) (d : Disk) : Type 0 where
  pub states : List Files
  pub past_eq : d.past ≡ base.past ++ states
  pub whole : All (Whole path new base.files) states

change_kept :
    (path : List ℕ) (new : File) (base d : Disk) (files : Files)
    → Since path new base d
    → Whole path new base.files files
    → Since path new base (change files d)
change_kept path new base d files s w = record {
  states = s.states ++ (files ∷ []);
  past_eq =
      ap (λ (l : List Files). l ++ (files ∷ [])) s.past_eq
      ∙ append_assoc base.past s.states (files ∷ []);
  whole = All-append (Whole path new base.files) s.states (files ∷ []) s.whole (w, tt);
}

-- A disk on which only the temporary file has changed.
record Working (path temp : List ℕ) (new : File) (base d : Disk) : Type 0 where
  since : Since path new base d
  near : Near temp base.files d.files

put-Working :
    (path temp : List ℕ) (new file : File) (base d : Disk)
    → path ≢ temp
    → Working path temp new base d
    → Working path temp new base (change (insert bytes_discrete temp file d.files) d)
put-Working path temp new file base d ne w =
    let near = insert_kept temp base.files d.files file w.near in
    record { since = change_kept path new base d _ w.since (inl (near path ne)); near = near }

-- `fill_temp` either fails and has changed the temporary file only, or has put the new file in place.
abbrev Filled : List ℕ → List ℕ → File → Disk → Disk × Option FileError → Type 0
Filled path temp new base (d, some e) = Working path temp new base d
Filled path temp new base (d, none) =
    Since path new base d
    × ((q : List ℕ) → find q d.files ≡ find q (insert bytes_discrete path new base.files))

rest-find :
    (temp : List ℕ) (base files : Files)
    → find temp base ≡ none
    → Near temp base files
    → (q : List ℕ) → find q (delete bytes_discrete temp files) ≡ find q base
rest-find temp base files fresh near q = elim (bytes_discrete q temp) [
  | yes same ↦
      subst (λ x. find x (delete bytes_discrete temp files) ≡ find x base) (sym same)
        (lookup-delete_self bytes_discrete temp files ∙ sym fresh)
  | no far ↦ lookup-delete_ne bytes_discrete temp q files far ∙ near q far
]

renamed-find :
    (path temp : List ℕ) (new : File) (base files : Files)
    → path ≢ temp
    → find temp base ≡ none
    → Near temp base files
    → (q : List ℕ)
    → find q (renamed temp path new files) ≡ find q (insert bytes_discrete path new base)
renamed-find path temp new base files ne fresh near q =
    let rest = delete bytes_discrete temp files in
    let after = renamed temp path new files in
    let wanted = insert bytes_discrete path new base in
    elim (bytes_discrete q path) [
      | yes same ↦
          subst (λ x. find x after ≡ find x wanted) (sym same)
            (lookup-insert_self bytes_discrete path new rest
              ∙ sym (lookup-insert_self bytes_discrete path new base))
      | no other ↦
          lookup-insert_ne bytes_discrete path q new rest other
          ∙ rest-find temp base files fresh near q
          ∙ sym (lookup-insert_ne bytes_discrete path q new base other)
    ]

fill_temp-Filled :
    (calls : Calls) (path temp content : List ℕ) (mode : ℕ) (base d : Disk)
    → path ≢ temp
    → find temp base.files ≡ none
    → Working path temp (record { mode = mode; content = content }) base d
    → Filled path temp
        (record { mode = mode; content = content })
        base
        (fill_temp calls temp path content mode d)
unfolding fill_temp
fill_temp-Filled calls path temp content mode base d ne fresh w =
    let new : File = record { mode = mode; content = content } in
    let part : ℕ → File = λ n. record { mode = mode; content = take n content } in
    let w1 = put-Working path temp new (part 0) base d ne w in
    let w2 = put-Working path temp new (part calls.written) base _ ne w1 in
    let w3 = put-Working path temp new (part (length content)) base _ ne w1 in
    let found = renamed-find path temp new base.files _ ne fresh w3.near in
    let placed =
      change_kept path new base _ _ w3.since
        (inr (found path ∙ lookup-insert_self bytes_discrete path new base.files)) in
    ground (arith, w, w2, w3, placed, found)

-- The files at the end: all as they were, but for a temporary file that could not be removed; or the new
-- file at the path, and the rest as it was.
abbrev pub Left : Calls → List ℕ → File → Files → Disk × Option FileError → Type 0
Left calls path new base (d, none) =
    (q : List ℕ) → find q d.files ≡ find q (insert bytes_discrete path new base)
Left calls path new base (d, some e) =
    (q : List ℕ)
    → (find q d.files ≡ find q base) ⊎ ((calls.create_temp ≡ some q) × (calls.remove_ok ≡ false))

abbrev pub Atomic : Calls → List ℕ → File → Disk → Disk × Option FileError → Type 0
Atomic calls path new base r = Since path new base r.0 × Left calls path new base.files r

stays_behind :
    (calls : Calls) (path temp : List ℕ) (new : File) (base d : Disk) (e : FileError)
    → calls.create_temp ≡ some temp
    → calls.remove_ok ≡ false
    → Near temp base.files d.files
    → Left calls path new base.files (d, some e)
stays_behind calls path temp new base d e made stays near q = elim (bytes_discrete q temp) [
  | yes same ↦ inr (made ∙ ap (λ (x : List ℕ). some x) (sym same), stays)
  | no far ↦ inl (near q far)
]

clean_up-Atomic :
    (calls : Calls) (path temp : List ℕ) (new : File) (base : Disk) (r : Disk × Option FileError)
    → path ≢ temp
    → find temp base.files ≡ none
    → calls.create_temp ≡ some temp
    → Filled path temp new base r
    → Atomic calls path new base (clean_up calls temp r)
unfolding clean_up
clean_up-Atomic calls path temp new base (d, none) ne fresh made filled = filled
clean_up-Atomic calls path temp new base (d, some e) ne fresh made w =
    let cleaned = rest-find temp base.files d.files fresh w.near in
    let since = change_kept path new base d _ w.since (inl (cleaned path)) in
    elim (Bool-cases calls.remove_ok) [
      | inl removed ↦
          let there = change (delete bytes_discrete temp d.files) d in
          let same : clean_up calls temp (d, some e) ≡ (there, some e) = ground arith in
          subst (Atomic calls path new base) (sym same) (since, λ q. inl (cleaned q))
      | inr stays ↦
          let same : clean_up calls temp (d, some e) ≡ (d, some e) = ground arith in
          subst (Atomic calls path new base) (sym same)
            (w.since, stays_behind calls path temp new base d e made stays w.near)
    ]

-- If `CreateTemp` gives a name that is new and is not the path: at every moment of writeFileAtomic,
-- whichever of its calls fails, the path has the file that it had or the new one with its mode and its
-- whole content. At the end, without an error, it has the new one and all other paths are as they were;
-- with an error all paths are as they were, but for the temporary file if it cannot be removed.
pub write_file_atomic-Atomic :
    (calls : Calls) (path content : List ℕ) (mode : ℕ) (d : Disk)
    → ((temp : List ℕ) → calls.create_temp ≡ some temp → (path ≢ temp) × (find temp d.files ≡ none))
    → Atomic calls path
        (record { mode = mode; content = content })
        d
        (write_file_atomic calls path content mode d)
unfolding write_file_atomic
write_file_atomic-Atomic calls path content mode d new_name =
    let new : File = record { mode = mode; content = content } in
    let start : Since path new d d = record {
      states = [];
      past_eq = sym (append-nil d.past);
      whole = tt;
    } in
    elim (Option-cases calls.create_temp) [
      | inl none_made ↦ rw (none_made, write_file_atomic) (start, λ q. inl refl)
      | inr (temp, made) ↦
          let (ne, fresh) = new_name temp made in
          let w =
            put-Working path temp new new_temp d d ne
              (record { since = start; near = λ q far. refl }) in
          let d1 = change (insert bytes_discrete temp new_temp d.files) d in
          let filled = fill_temp-Filled calls path temp content mode d d1 ne fresh w in
          let done = clean_up calls temp (fill_temp calls temp path content mode d1) in
          let same : write_file_atomic calls path content mode d ≡ done = ground arith in
          subst (Atomic calls path new d) (sym same) (
            clean_up-Atomic calls path temp new d (fill_temp calls temp path content mode d1) ne
              fresh made filled)
    ]
