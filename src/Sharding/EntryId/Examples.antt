-- ===== src/Sharding/EntryId/Examples.antt =====
-- Entry ids on which the theorems about pkg/sharding/sharding.go are applied.
use rekor.Base.{◌≡◌, ◌≢◌, ◌↔◌, refl, [], ◌∷◌, ◌++◌, true, some, ok, err, replicate, arith}
use rekor.Base.Bytes.{Bytes}
use rekor.Base.Int64.{ℤ, pos}
use rekor.Golib.Hex.{is_hex, hex_decode}
use rekor.Golib.Runes.{pad_zeros, rune_count, count_from}
use rekor.Golib.Num.{parse_int, format_uint}
use rekor.Sharding.EntryId.{
  EntryId, Error, zero_tree_id, validate_entry_id, get_uuid_from_id_string,
  get_tree_id_from_id_string, tree_id_of, uuid_part, tree_id_part, create_entry_id_from_parts,
  entry_id_string, pad_to_tree_id_len, validate_uuid, validate_plain_uuid, validate_tree_id,
  validate_plain_tree_id,
}
use rekor.Sharding.EntryId.Reading.{validate_entry_id_iff, plain_tree_id_refused, entry_id_read}
use rekor.Sharding.EntryId.Writing.{create_format}

abbrev uuid_aa : Bytes
uuid_aa = replicate 64 b'a'

abbrev tree_three : Bytes
tree_three = replicate 15 b'0' ++ b'3' ∷ []

abbrev id_three : Bytes
id_three = tree_three ++ uuid_aa

abbrev zero_id : Bytes
zero_id = replicate 16 b'0' ++ uuid_aa

three : parse_int 16 tree_three ≡ some (pos 3)
unfolding parse_int
three = refl

validate_entry_id_iff_example : (validate_entry_id id_three ≡ ok tt) ↔ (
    (is_hex (uuid_part id_three) ≡ true)
    × ((i : ℤ) × (parse_int 16 (tree_id_part id_three) ≡ some i) × (i ≢ pos 0)))
validate_entry_id_iff_example = validate_entry_id_iff id_three refl

plain_tree_id_refused_example :
    get_tree_id_from_id_string tree_three ≡ err (Error.invalid_id_len 16 tree_three)
plain_tree_id_refused_example = plain_tree_id_refused tree_three refl

zero_read : parse_int 16 (replicate 16 b'0') ≡ some (pos 0)
unfolding parse_int
zero_read = refl

entry_id_read_example :
    (get_uuid_from_id_string zero_id ≡ ok uuid_aa) × (tree_id_of zero_id ≡ err zero_tree_id)
entry_id_read_example = entry_id_read zero_id {i = pos 0} refl refl zero_read

made_three :
    create_entry_id_from_parts (b'3' ∷ []) uuid_aa
    ≡ ok (record { tree_id = tree_three; uuid = uuid_aa })
unfolding create_entry_id_from_parts validate_entry_id parse_int pad_to_tree_id_len validate_uuid
    pad_zeros rune_count count_from validate_plain_uuid hex_decode validate_tree_id
    validate_plain_tree_id
made_three = refl

create_format_example :
    (e : EntryId) × (create_entry_id_from_parts (format_uint 16 48879) uuid_aa ≡ ok e)
    × (tree_id_of (entry_id_string e) ≡ ok (pos 48879))
    × (get_uuid_from_id_string (entry_id_string e) ≡ ok uuid_aa)
create_format_example = create_format 48879 uuid_aa (omega arith) (omega arith) refl refl
