-- ===== src/Api/Create/Proposed/Examples.antt =====
-- An entry that the server of Api.Examples adds, on which the theorem about createLogEntry is applied.
use rekor.Base.{ℕ, ◌≡◌, ap, ◌∙◌, [], ◌∷◌, true, some, ok, wrap}
use rekor.Base.Bytes.{Bytes, codes}
use rekor.Trillian.Client.Examples.{seven_added}
use rekor.Api.Examples.{api, added_entry, entry_added, seven_of}
use rekor.Api.Create.{answered, create_log_entry}
use rekor.Api.Create.Proposed.{
  EntryTypes, certificate, not_created, proposed_leaf, check_entry_algorithms, check_verifiers,
  check_identities, check_identity, worded, create_log_entry_handler,
}
use rekor.Api.Create.Proposed.Permitted.{IsLeafOf, create_log_entry_handler-IsLeafOf}

-- An entry is its own canonical form; its one verifier has one certificate.
abbrev types : EntryTypes ℕ Bytes Bytes ℕ ℕ
types = record {
  create_versioned_entry = λ e. ok e;
  is_hashedrekord_v001 = λ _. true;
  verifiers = λ _. ok (1 ∷ []);
  artifact_hash = λ _. ok (codes "sha512:00");
  identities = λ v. ok (certificate v ∷ []);
  is_algorithm_permitted = λ _ _. ok true;
  canonicalize_entry = λ e. ok e;
}

handled : create_log_entry_handler api seven_of types 5 (b'x' ∷ []) 4 ≡ some (ok added_entry, 2)
unfolding create_log_entry_handler create_log_entry proposed_leaf check_entry_algorithms
    check_verifiers check_identities check_identity
handled =
    ap (λ a. worded api seven_of types (answered api seven_of (b'x' ∷ []) a)) seven_added
    ∙ ap (λ r. some (wrap not_created r, 2)) entry_added

create_log_entry_handler-IsLeafOf_example :
    (leaf : Bytes) × IsLeafOf types (b'x' ∷ []) leaf
    × (create_log_entry api seven_of 5 leaf 4 ≡ some (ok added_entry, 2))
create_log_entry_handler-IsLeafOf_example =
    create_log_entry_handler-IsLeafOf api seven_of types 5 (b'x' ∷ []) 4 {o = added_entry} {v = 2}
      handled
