-- ===== src/Sharding/EntryId/Reading.antt =====
-- What the readers of an id accept, and what they return.
use rekor.Base.{
  ◌∙◌, Result-cases, ap, if◌then◌else◌, Bool-cases, ◌-◌, ◌≡◌, ◌≢◌, ◌↔◌, inl, inr, refl, true, false,
  some, arith, length, ok, err, ◌>>=◌, length-drop, Option-cases,
}
use rekor.Base.Bytes.{Bytes}
use rekor.Base.Int64.{ℤ, pos, int_eq, int_eq_iff}
use rekor.Golib.Hex.{is_hex, decode_some, decode_none}
use rekor.Golib.Num.{parse_int}
use rekor.Sharding.EntryId.{
  Error, uuid_despite_zero, not_hex, zero_tree_id, plain_uuid, tree_id_len, validate_plain_uuid,
  validate_plain_tree_id, validate_uuid, validate_tree_id, validate_entry_id, uuid_part,
  tree_id_part, get_uuid_from_id_string, get_tree_id_from_id_string, tree_id_of, nonzero, parsed,
}

uuid_accepted : (u : Bytes) → length u ≡ 64 → is_hex u ≡ true → validate_plain_uuid u ≡ ok tt
unfolding validate_plain_uuid
uuid_accepted u h d = let (t, q) = decode_some u (omega arith) d in rw (q, validate_plain_uuid) refl

uuid_rejected :
    (u : Bytes) → length u ≡ 64 → is_hex u ≡ false → validate_plain_uuid u ≡ err (not_hex u)
unfolding validate_plain_uuid
uuid_rejected u h d = rw (decode_none u (omega arith) d, validate_plain_uuid) refl

-- The functions at the lengths that they tell apart.
validate_entry_id_80 :
    (id : Bytes)
    → length id ≡ 80
    → validate_entry_id id
      ≡ (validate_plain_uuid (uuid_part id) >>= λ _. validate_plain_tree_id (tree_id_part id))
unfolding validate_entry_id validate_uuid validate_tree_id
validate_entry_id_80 id h = rw h refl

length-uuid_part : (id : Bytes) → length id ≡ 80 → length (uuid_part id) ≡ 64
length-uuid_part id h = omega (arith, length-drop {0} (length id - 64) id)

abbrev IsNonzero : Bytes → Type 0
IsNonzero t = (i : ℤ) × (parse_int 16 t ≡ some i) × (i ≢ pos 0)

tree_id_accepted : (t : Bytes) → IsNonzero t → validate_plain_tree_id t ≡ ok tt
unfolding validate_plain_tree_id
tree_id_accepted t (i, e, ne) = rw e (ground (arith, int_eq_iff i (pos 0)))

tree_id_inverted : (t : Bytes) → validate_plain_tree_id t ≡ ok tt → IsNonzero t
unfolding validate_plain_tree_id
tree_id_inverted t e = elim (Option-cases (parse_int 16 t)) [
  | inl failed ↦ cc (ap (nonzero t) failed, e)
  | inr (i, q) ↦ (i, q, ground (arith, ap (nonzero t) q, int_eq_iff i (pos 0)))
]

-- An entry id of 80 bytes is valid exactly if its last 64 bytes are hexadecimal and its first 16
-- read, in base 16, as an int64 other than 0.
pub validate_entry_id_iff :
    (id : Bytes)
    → length id ≡ 80
    → (validate_entry_id id ≡ ok tt) ↔ (
        (is_hex (uuid_part id) ≡ true)
        × ((i : ℤ) × (parse_int 16 (tree_id_part id) ≡ some i) × (i ≢ pos 0)))
validate_entry_id_iff id h =
    let n = length-uuid_part id h in
    rw (validate_entry_id_80 id h) (
      λ e. elim (Bool-cases (is_hex (uuid_part id))) [
        | inl d ↦
            (d, tree_id_inverted (tree_id_part id) (rw (uuid_accepted (uuid_part id) n d) at e))
        | inr d ↦ cc (rw (uuid_rejected (uuid_part id) n d) at e)
      ],
      λ (d, z). rw (uuid_accepted (uuid_part id) n d) (tree_id_accepted (tree_id_part id) z),
    )

-- A plain UUID is no entry id, and its tree id cannot be read.
pub plain_uuid_refused :
    (u : Bytes)
    → length u ≡ 64
    → is_hex u ≡ true
    → (get_uuid_from_id_string u ≡ ok u)
      × (validate_entry_id u ≡ err (tree_id_len 64))
      × (tree_id_of u ≡ err plain_uuid)
unfolding get_uuid_from_id_string tree_id_of get_tree_id_from_id_string validate_entry_id
    validate_uuid validate_tree_id
plain_uuid_refused u h d =
    (rw (h, uuid_accepted u h d) refl, rw (h, uuid_accepted u h d) refl, rw h refl)

-- The tree id alone is never accepted, though the length of one is a case of the function.
pub plain_tree_id_refused :
    (t : Bytes) → length t ≡ 16 → get_tree_id_from_id_string t ≡ err (Error.invalid_id_len 16 t)
unfolding get_tree_id_from_id_string validate_entry_id validate_uuid
plain_tree_id_refused t h = rw h refl

tree_id_read :
    (t : Bytes) {i : ℤ}
    → parse_int 16 t ≡ some i
    → validate_plain_tree_id t ≡ (if int_eq i (pos 0) then err zero_tree_id else ok tt)
unfolding validate_plain_tree_id
tree_id_read t e = rw (e, validate_plain_tree_id) refl

pub get_uuid_80 :
    (id : Bytes)
    → length id ≡ 80
    → get_uuid_from_id_string id ≡ uuid_despite_zero id (validate_entry_id id)
unfolding get_uuid_from_id_string
get_uuid_80 id h = rw h refl

tree_id_of_80 :
    (id : Bytes)
    → length id ≡ 80
    → tree_id_of id
      ≡ (validate_entry_id id >>= λ _. parsed (tree_id_part id) (parse_int 16 (tree_id_part id)))
unfolding tree_id_of get_tree_id_from_id_string
tree_id_of_80 id h = elim (Result-cases (validate_entry_id id)) [
  | inl (u, e) ↦ rw (h, e) refl
  | inr (f, e) ↦ rw (h, e) refl
]

pub get_tree_id_80 :
    (id : Bytes)
    → length id ≡ 80
    → get_tree_id_from_id_string id ≡ (validate_entry_id id >>= λ _. ok (tree_id_part id))
unfolding get_tree_id_from_id_string
get_tree_id_80 id h = rw h refl

pub valid_when_read :
    (id : Bytes) (i : ℤ)
    → length id ≡ 80
    → is_hex (uuid_part id) ≡ true
    → parse_int 16 (tree_id_part id) ≡ some i
    → int_eq i (pos 0) ≡ false
    → validate_entry_id id ≡ ok tt
valid_when_read id i h d e z =
    rw (validate_entry_id_80 id h, uuid_accepted (uuid_part id) (length-uuid_part id h) d)
      (tree_id_read (tree_id_part id) e ∙ rw z refl)

-- An entry id of 80 bytes with a hexadecimal UUID gives the UUID whatever int64 its tree id spells,
-- and the tree id only if it is not 0.
pub entry_id_read :
    (id : Bytes) {i : ℤ}
    → length id ≡ 80
    → is_hex (uuid_part id) ≡ true
    → parse_int 16 (tree_id_part id) ≡ some i
    → (get_uuid_from_id_string id ≡ ok (uuid_part id))
      × (tree_id_of id ≡ (if int_eq i (pos 0) then err zero_tree_id else ok i))
entry_id_read id {i} h d e =
    let v : validate_entry_id id ≡ (if int_eq i (pos 0) then err zero_tree_id else ok tt) =
      rw (validate_entry_id_80 id h, uuid_accepted (uuid_part id) (length-uuid_part id h) d)
        (tree_id_read (tree_id_part id) e) in
    rw (get_uuid_80 id h, tree_id_of_80 id h, v, e)
      (elim (Bool-cases (int_eq i (pos 0))) [
        | inl zero ↦ rw zero (refl, refl)
        | inr other ↦ rw other (refl, refl)
      ])
