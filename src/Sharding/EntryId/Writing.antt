-- ===== src/Sharding/EntryId/Writing.antt =====
-- What `CreateEntryIDFromParts` makes, and that the readers give the parts back.
use rekor.Base.{
  ℕ, ◌∷◌, ==_iff, Result-cases, ◌-◌, ◌^◌, ◌<◌, ◌≤◌, ◌≡◌, refl, ap, ◌∙◌, true, false, [], ◌++◌, some,
  arith, ◌==◌, length, replicate, ok, length-append, length-replicate, take-length, drop-length,
  Bool-cases, inl, inr, All,
}
use rekor.Base.Bytes.{Bytes}
use rekor.Base.Int64.{ℤ, pos, int_eq}
use rekor.Golib.Hex.{is_hex}
use rekor.Golib.Num.{parse_int, format_uint}
use rekor.Golib.Num.RoundTrip.{parse_int-format, length-format_16, format_uint-IsPlain, IsPlain}
use rekor.Golib.Runes.{pad_zeros, rune_count_ascii}
use rekor.Sharding.EntryId.{
  EntryId, entry_id_string, create_entry_id_from_parts, pad_to_tree_id_len, validate_entry_id,
  validate_uuid, validate_tree_id, uuid_part, tree_id_part, get_uuid_from_id_string,
  get_tree_id_from_id_string, tree_id_of,
}
use rekor.Sharding.EntryId.Reading.{get_tree_id_80, get_uuid_80, valid_when_read, entry_id_read}

-- What validation accepts has 80 bytes.
length_of_valid : (id : Bytes) → validate_entry_id id ≡ ok tt → length id ≡ 80
unfolding validate_entry_id validate_uuid validate_tree_id
length_of_valid id e = ground arith

-- The two parts of an id that is put together.
parts_of_append :
    (t u : Bytes)
    → length u ≡ 64
    → length (t ++ u) ≡ 80
    → (length t ≡ 16) × (uuid_part (t ++ u) ≡ u) × (tree_id_part (t ++ u) ≡ t)
parts_of_append t u h k =
    let n : length t ≡ 16 = omega (arith, length-append {0} t u) in
    let d : length (t ++ u) - 64 ≡ length t = omega arith in
    (n, rw d (drop-length t u), rw (← n) (take-length t u))

create_inverted :
    (treeid uuid : Bytes) {e : EntryId}
    → create_entry_id_from_parts treeid uuid ≡ ok e
    → (length uuid ≡ 64)
      × (validate_entry_id (e.tree_id ++ uuid) ≡ ok tt)
      × (e ≡ record { tree_id = e.tree_id; uuid = uuid })
unfolding create_entry_id_from_parts
create_inverted treeid uuid {e} made = elim (Result-cases (pad_to_tree_id_len treeid)) [
  | inr (f, bad) ↦ ground (arith, bad)
  | inl (t, good) ↦ elim (Result-cases (validate_entry_id (t ++ uuid))) [
    | inr (f, bad) ↦ ground (arith, good, bad)
    | inl (u, fine) ↦ ground (arith, good, fine)
  ]
]

-- Whatever parts are accepted: the UUID is kept, the tree id is filled up to 16 bytes, and the
-- readers give both back.
pub create_read :
    (treeid uuid : Bytes) {e : EntryId}
    → create_entry_id_from_parts treeid uuid ≡ ok e
    → (e.uuid ≡ uuid)
      × (length e.tree_id ≡ 16)
      × (get_uuid_from_id_string (entry_id_string e) ≡ ok uuid)
      × (get_tree_id_from_id_string (entry_id_string e) ≡ ok e.tree_id)
unfolding entry_id_string
create_read treeid uuid {e} made =
    let (h, v, same) = create_inverted treeid uuid made in
    let k = length_of_valid (e.tree_id ++ uuid) v in
    let (n, u, t) = parts_of_append e.tree_id uuid h k in
    rw same (
      refl,
      n,
      rw (get_uuid_80 (e.tree_id ++ uuid) k, v) (ap ok u),
      rw (get_tree_id_80 (e.tree_id ++ uuid) k, v) (ap ok t),
    )

plain_ascii : (t : Bytes) → All IsPlain t → All (λ c. c < 128) t
plain_ascii [] _ = tt
plain_ascii (c ∷ t) ((_, h), p) = (h, plain_ascii t p)

padded_16 :
    (t : Bytes)
    → length t ≤ 16
    → All IsPlain t
    → pad_to_tree_id_len t ≡ ok (replicate (16 - length t) b'0' ++ t)
unfolding pad_to_tree_id_len pad_zeros
padded_16 t h p = rw (rune_count_ascii t (plain_ascii t p)) (elim (Bool-cases (length t == 16)) [
  | inl full ↦ let n : length t ≡ 16 = (==_iff _ _).0 full in rw n refl
  | inr short ↦ rw short (ground arith)
])

create_accepts :
    (t uuid : Bytes) {p : Bytes}
    → length t ≤ 16
    → length uuid ≡ 64
    → pad_to_tree_id_len t ≡ ok p
    → validate_entry_id (p ++ uuid) ≡ ok tt
    → create_entry_id_from_parts t uuid ≡ ok (record { tree_id = p; uuid = uuid })
unfolding create_entry_id_from_parts
create_accepts t uuid {p} h k e v = ground (arith, e, v)

length-padded :
    (t uuid : Bytes)
    → length t ≤ 16
    → length uuid ≡ 64
    → length ((replicate (16 - length t) b'0' ++ t) ++ uuid) ≡ 80
length-padded t uuid h k = omega (
  arith,
  length-append {0} (replicate (16 - length t) b'0' ++ t) uuid,
  length-append {0} (replicate (16 - length t) b'0') t,
  length-replicate {0} {A = ℕ} (16 - length t) b'0',
)

-- A tree id of up to 16 plain bytes that spells `i`.
create_spelled :
    (t uuid : Bytes) (i : ℤ)
    → length t ≤ 16
    → All IsPlain t
    → parse_int 16 (replicate (16 - length t) b'0' ++ t) ≡ some i
    → int_eq i (pos 0) ≡ false
    → length uuid ≡ 64
    → is_hex uuid ≡ true
    → (e : EntryId) × (create_entry_id_from_parts t uuid ≡ ok e)
      × (tree_id_of (entry_id_string e) ≡ ok i)
      × (get_uuid_from_id_string (entry_id_string e) ≡ ok uuid)
unfolding entry_id_string
create_spelled t uuid i n p spelled z h d =
    let pad = replicate (16 - length t) b'0' ++ t in
    let k = length-padded t uuid n h in
    let (m, u, q) = parts_of_append pad uuid h k in
    let x = entry_id_read (pad ++ uuid) {i = i} k (rw u d) (rw q spelled) in
    (
      record { tree_id = pad; uuid = uuid },
      create_accepts t uuid n h (padded_16 t n p)
          (valid_when_read (pad ++ uuid) i k (rw u d) (rw q spelled) z),
      x.1 ∙ rw z refl,
      x.0 ∙ ap ok u,
    )

-- For a positive int64 tree id and a UUID of 64 hexadecimal bytes: with `fmt.Sprintf("%x", treeID)` for
-- the tree, CreateEntryIDFromParts makes an entry id, and the tree id and the UUID are read back from it.
pub create_format :
    (n : ℕ) (uuid : Bytes)
    → 0 < n
    → n < 2 ^ 63
    → length uuid ≡ 64
    → is_hex uuid ≡ true
    → (e : EntryId) × (create_entry_id_from_parts (format_uint 16 n) uuid ≡ ok e)
      × (tree_id_of (entry_id_string e) ≡ ok (pos n))
      × (get_uuid_from_id_string (entry_id_string e) ≡ ok uuid)
create_format n uuid z b h d =
    let t = format_uint 16 n in
    create_spelled t uuid (pos n) (length-format_16 n (omega arith))
      (format_uint-IsPlain 16 n (inr refl)) (parse_int-format 16 (16 - length t) n (inr refl) b)
      (ground arith) h d
