-- ===== src/Util/Checkpoint.antt =====
-- pkg/util/checkpoint.go: a checkpoint of the log as text.
pub mod RoundTrip
use rekor.Base.{
  ℕ, Bool, true, false, List, [], ◌∷◌, ◌++◌, Option, none, some, if◌then◌else◌, Result, ok, err,
  is_ok,
}
use rekor.Base.Bytes.{Bytes}
use rekor.Golib.Base64
use rekor.Golib.Lines.{split_lines, join_lines}
use rekor.Golib.Num.{parse_uint, format_uint}

pub record Checkpoint : Type 0 where
  pub origin : Bytes
  pub size : ℕ
  pub hash : Bytes
  pub other_content : List Bytes

pub data Error : Type 0 where
  too_few_newlines empty_ecosystem size_invalid invalid_hash : Error

-- String
unfoldable pub checkpoint_string : Checkpoint → Bytes
checkpoint_string c =
    join_lines (c.origin ∷ format_uint 10 c.size ∷ Base64.encode c.hash ∷ c.other_content)

unfoldable pub marshal_checkpoint : Checkpoint → Bytes
unfolding checkpoint_string
marshal_checkpoint c = checkpoint_string c

-- The lines in front of the first empty one.
abbrev pub until_empty : List Bytes → List Bytes
until_empty [] = []
until_empty ([] ∷ ls) = []
until_empty ((c ∷ l) ∷ ls) = (c ∷ l) ∷ until_empty ls

abbrev pub with_hash : Bytes → ℕ → Option Bytes → List Bytes → Result Error Checkpoint
with_hash origin size none ls = err invalid_hash
with_hash origin size (some h) ls =
    ok (record { origin = origin; size = size; hash = h; other_content = until_empty ls })

abbrev pub with_size : Bytes → Option ℕ → Bytes → List Bytes → Result Error Checkpoint
with_size origin none h ls = err size_invalid
with_size origin (some size) h ls = with_hash origin size (Base64.decode h) ls

-- Four lines at least.
abbrev pub from_lines : List Bytes → Result Error Checkpoint
from_lines ([] ∷ _ ∷ _ ∷ _ ∷ _) = err empty_ecosystem
from_lines ((c ∷ origin) ∷ size ∷ h ∷ l ∷ ls) =
    with_size (c ∷ origin) (parse_uint 10 size) h (l ∷ ls)
from_lines _ = err too_few_newlines

unfoldable pub unmarshal_checkpoint : Bytes → Result Error Checkpoint
unmarshal_checkpoint data_bytes = from_lines (split_lines data_bytes)

pub checkpoint_validator : Bytes → Bool
checkpoint_validator s = is_ok (unmarshal_checkpoint s)
