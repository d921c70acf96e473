-- ===== src/Streams/Paths.antt =====
-- `std::path`: the components of a path, and a file's name. archived.rs: which entries of the
-- archive are the manifest and which are AppendVecs.
use solana_snapshot_etl.Prelude.{
  ℕ, Bool, false, ◌&&◌, List, [], ◌∷◌, ◌++◌, Option, none, some, if◌then◌else◌, is_some, filter_map,
  ◌>>=◌, ◌==◌,
}
use solana_snapshot_etl.Prelude.Order.{eqb}
use solana_snapshot_etl.Prelude.Text.{Str, bytes, parse_u64}
use solana_snapshot_etl.AppendVec.Name.{to_str, parse_append_vec_name}
use solana_snapshot_etl.Metadata.{str_ord}

pub data Component : Type 0 where
  root_dir cur_dir parent_dir : Component
  normal : Str → Component

-- The first piece between separators, and the others.
abbrev pub split_all : ℕ → Str → Str × List Str
split_all sep [] = ([], [])
split_all sep (c ∷ cs) =
    let rest = split_all sep cs in if c == sep then ([], rest.0 ∷ rest.1) else (c ∷ rest.0, rest.1)

abbrev pub is_text : Str → Str → Bool
is_text s t = eqb ⦃o = str_ord⦄ s t

-- An empty piece is skipped, and so is a full stop anywhere but at the start.
abbrev pub component : Str → Option Component
component piece =
    if is_text piece []
    then none
    else if is_text piece (bytes ".")
    then none
    else if is_text piece (bytes "..")
    then some parent_dir
    else some (normal piece)

-- `Path::components`
unfoldable pub components : Str → List Component
components [] = []
components (c ∷ cs) =
    let found = split_all b'/' (c ∷ cs) in
    let rest = filter_map component found.1 in
    if c == b'/'
    then root_dir ∷ rest
    else if is_text found.0 (bytes ".")
    then cur_dir ∷ rest
    else filter_map component (found.0 ∷ found.1)

abbrev pub last_normal : List Component → Option Str
last_normal [] = none
last_normal (normal name ∷ []) = some name
last_normal (c ∷ []) = none
last_normal (c ∷ d ∷ cs) = last_normal (d ∷ cs)

-- `Path::file_name`
unfoldable pub file_name : Str → Option Str
unfolding components
file_name path = last_normal (components path)

-- `snapshots/<slot>/<slot>`, for a slot that is a `u64`.
abbrev pub manifest_components : List Component → Bool
manifest_components (normal dir ∷ normal slot_1 ∷ normal slot_2 ∷ []) =
    is_text dir (bytes "snapshots")
    && is_some (to_str slot_1 >>= parse_u64)
    && is_text slot_1 slot_2
manifest_components _ = false

unfoldable pub is_snapshot_manifest_file : Str → Bool
unfolding components parse_u64
is_snapshot_manifest_file path = manifest_components (components path)

-- `accounts/<slot>.<id>`
abbrev pub appendvec_components : List Component → Bool
appendvec_components (normal dir ∷ normal name ∷ []) =
    is_text dir (bytes "accounts") && is_some (parse_append_vec_name name)
appendvec_components _ = false

unfoldable pub is_appendvec_file : Str → Bool
unfolding components parse_append_vec_name
is_appendvec_file path = appendvec_components (components path)

abbrev pub ends_with_slash : Str → Bool
ends_with_slash [] = false
ends_with_slash (c ∷ []) = c == b'/'
ends_with_slash (c ∷ d ∷ cs) = ends_with_slash (d ∷ cs)

-- `Path::join` of a relative part.
abbrev pub join : Str → Str → Str
join [] name = name
join (c ∷ cs) name = if ends_with_slash (c ∷ cs) then (c ∷ cs) ++ name else (c ∷ cs) ++ b'/' ∷ name
