-- ===== src/Sharding/EntryId.antt =====
-- pkg/sharding/sharding.go: an entry id is the hexadecimal id of a tree and the UUID of a leaf.
pub mod Reading
pub mod Writing
mod Examples
use rekor.Base.{
  ℕ, ◌-◌, Bool, true, false, ◌&&◌, ◌||◌, List, [], ◌++◌, Option, none, some, ltb, ◌==◌,
  if◌then◌else◌, length, take, drop, Result, ok, err, ◌>>=◌, ◌>>◌, guard,
}
use rekor.Base.Bytes.{Bytes}
use rekor.Base.Int64.{ℤ, pos, int_eq}
use rekor.Golib.Hex.{hex_decode}
use rekor.Golib.Num.{parse_int}
use rekor.Golib.Runes.{pad_zeros}

abbrev pub tree_id_hex_string_len : ℕ
tree_id_hex_string_len = 16

abbrev pub uuid_hex_string_len : ℕ
uuid_hex_string_len = 64

abbrev pub entry_id_hex_string_len : ℕ
entry_id_hex_string_len = 80

-- One constructor for each text that the functions report.
pub data Error : Type 0 where
  invalid_treeid_len : ℕ → Error
  invalid_uuid_len : ℕ → Error
  treeid_too_long : Bytes → Error
  not_hex : Bytes → Error
  invalid_id_len : ℕ → Bytes → Error
  not_int64 : Bytes → Error
  zero_tree_id : Error
  tree_id_len : ℕ → Error
  plain_uuid : Error

pub record EntryId : Type 0 where
  pub tree_id : Bytes
  pub uuid : Bytes

pub entry_id_string : EntryId → Bytes
entry_id_string e = e.tree_id ++ e.uuid

unfoldable pub pad_to_tree_id_len : Bytes → Result Error Bytes
pad_to_tree_id_len t =
    if length t == tree_id_hex_string_len
    then ok t
    else if ltb tree_id_hex_string_len (length t)
    then err (treeid_too_long t)
    else ok (pad_zeros 16 t)

-- The last 64 bytes of an entry id.
abbrev pub uuid_part : Bytes → Bytes
uuid_part id = drop (length id - uuid_hex_string_len) id

abbrev pub tree_id_part : Bytes → Bytes
tree_id_part id = take tree_id_hex_string_len id

-- The case of 64 bytes.
unfoldable pub validate_plain_uuid : Bytes → Result Error (Unit {0})
validate_plain_uuid u = elim (hex_decode u) [ none ↦ err (not_hex u) | some _ ↦ ok tt ]

-- The recursive call of the case of an entry id is on 64 bytes.
unfoldable pub validate_uuid : Bytes → Result Error (Unit {0})
validate_uuid u =
    if length u == entry_id_hex_string_len
    then validate_plain_uuid (uuid_part u)
    else if length u == uuid_hex_string_len
    then validate_plain_uuid u
    else err (invalid_id_len (length u) u)

abbrev nonzero : Bytes → Option ℤ → Result Error (Unit {0})
nonzero t none = err (not_int64 t)
nonzero t (some i) = if int_eq i (pos 0) then err zero_tree_id else ok tt

-- The case of 16 bytes.
unfoldable pub validate_plain_tree_id : Bytes → Result Error (Unit {0})
validate_plain_tree_id t = nonzero t (parse_int 16 t)

-- The recursive call of the case of an entry id is on 16 bytes.
unfoldable pub validate_tree_id : Bytes → Result Error (Unit {0})
validate_tree_id t =
    if length t == entry_id_hex_string_len
    then validate_plain_tree_id (tree_id_part t)
    else if length t == tree_id_hex_string_len
    then validate_plain_tree_id t
    else err (tree_id_len (length t))

unfoldable pub validate_entry_id : Bytes → Result Error (Unit {0})
validate_entry_id id = do validate_uuid id; validate_tree_id id

-- On an error the source also returns an empty `EntryID`.
unfoldable pub create_entry_id_from_parts : Bytes → Bytes → Result Error EntryId
create_entry_id_from_parts treeid uuid =
    if ltb tree_id_hex_string_len (length treeid)
    then err (invalid_treeid_len (length treeid))
    else if length uuid == uuid_hex_string_len
    then (do
      treeid_formatted ← pad_to_tree_id_len treeid
      validate_entry_id (treeid_formatted ++ uuid)
      ok (record { tree_id = treeid_formatted; uuid = uuid }))
    else err (invalid_uuid_len (length uuid))

-- The tree id 0 is forgiven: the UUID is returned all the same.
abbrev uuid_despite_zero : Bytes → Result Error (Unit {0}) → Result Error Bytes
uuid_despite_zero id (ok _) = ok (uuid_part id)
uuid_despite_zero id (err zero_tree_id) = ok (uuid_part id)
uuid_despite_zero id (err e) = err e

pub get_uuid_from_id_string : Bytes → Result Error Bytes
get_uuid_from_id_string id =
    if length id == uuid_hex_string_len
    then (do validate_uuid id; ok id)
    else if length id == entry_id_hex_string_len
    then uuid_despite_zero id (validate_entry_id id)
    else err (invalid_id_len (length id) id)

pub get_tree_id_from_id_string : Bytes → Result Error Bytes
get_tree_id_from_id_string id =
    if length id == uuid_hex_string_len
    then err plain_uuid
    else if length id == entry_id_hex_string_len || length id == tree_id_hex_string_len
    then (do validate_entry_id id; ok (tree_id_part id))
    else err (invalid_id_len (length id) id)

abbrev parsed : Bytes → Option ℤ → Result Error ℤ
parsed t none = err (not_int64 t)
parsed t (some i) = ok i

-- TreeID
pub tree_id_of : Bytes → Result Error ℤ
tree_id_of entry_id = do tid ← get_tree_id_from_id_string entry_id; parsed tid (parse_int 16 tid)
