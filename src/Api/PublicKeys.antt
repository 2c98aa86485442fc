-- ===== src/Api/PublicKeys.antt =====
-- pkg/api/public_key.go: the handlers of the public keys, and those of an instance without them. What
-- is answered to an error is a response of Api.Errors.
pub mod Agreeing
mod Examples
use rekor.Base.{ℕ, List, [], ◌∷◌, Option, none, some, Result, ok, err}
use rekor.Base.Bytes.{Bytes, codes}
use rekor.Sharding.Ranges.{LogRanges, public_key, public_keys}
use rekor.Sharding.Ranges
use rekor.Api.Errors.{
  Params, get_public_key, get_public_keys, Response, with_payload, handle_rekor_api_error,
}

-- The payload, or the response to an error.
abbrev pub Answer : Type 0 → Type 0
Answer A = Result (Option Response) A

-- A tree id that is absent is empty.
abbrev pub text_of : Option Bytes → Bytes
text_of none = []
text_of (some t) = t

abbrev pub or_bad_request : {A : Type 0} → (ℕ → Bytes) → Params → Result Ranges.Error A → Answer A
or_bad_request status_text params (ok a) = ok a
or_bad_request status_text params (err _) =
    err (handle_rekor_api_error status_text params 400 [] [])

module _ {S : Type 0} (status_text : ℕ → Bytes) (log_ranges : LogRanges S) where
  unfoldable pub get_public_key_handler : Option Bytes → Answer Bytes
  get_public_key_handler tree_id =
      or_bad_request status_text get_public_key (public_key log_ranges (text_of tree_id))

  unfoldable pub get_public_keys_handler : Option Bytes → Answer (List Bytes)
  get_public_keys_handler tree_id =
      or_bad_request status_text get_public_keys (public_keys log_ranges (text_of tree_id))

abbrev pub get_public_key_not_implemented_handler : Response
get_public_key_not_implemented_handler =
    with_payload 501 (codes "Get Public Key API not enabled in this Rekor instance")

abbrev pub get_public_keys_not_implemented_handler : Response
get_public_keys_not_implemented_handler =
    with_payload 501 (codes "Get Public Keys API not enabled in this Rekor instance")
