-- ===== src/Api/PublicKeys/Examples.antt =====
-- The shards of Sharding.Ranges.Examples, on which the theorem about the handlers of public keys is
-- applied.
use rekor.Base.{ℕ, some}
use rekor.Base.Bytes.{Bytes, codes}
use rekor.Sharding.Ranges.Examples.{shards}
use rekor.Api.PublicKeys.Agreeing.{AgreeOn, public_key_handlers_agree}

abbrev status_text : ℕ → Bytes
status_text _ = codes "error"

public_key_handlers_agree_example : AgreeOn status_text shards (some (codes "4"))
public_key_handlers_agree_example = public_key_handlers_agree status_text shards (some (codes "4"))
