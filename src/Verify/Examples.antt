-- ===== src/Verify/Examples.antt =====
-- A client of the server of Api.Examples, on which the theorems about pkg/verify/verify.go are applied.
use rekor.Base.{
  ℕ, true, ◌≡◌, ◌↔◌, refl, ap, ◌∙◌, subst, [], ◌∷◌, Option, none, some, Result, ok, ok-injective,
  some-injective, All, arith,
}
use rekor.Base.Bytes.{Bytes, bytes_eq, bytes_eq_refl, codes}
use rekor.Base.Int64.{pos}
use rekor.Golib.Base64
use rekor.Golib.Base64.RoundTrip.{decode-encode}
use rekor.Golib.Hex.{IsByte}
use rekor.Golib.Num.{format_int, format_uint, digits, parse_uint}
use rekor.Trillian.Client.{EntryAndProof}
use rekor.Trillian.Client.Examples.{
  server, added_seven, seven_added, entry_seven, leaf_seven, proof_seven, root_seven, hash_seven,
}
use rekor.Util.SignedNote.{verify, verify_from, note_string, get_public_key_hash}
use rekor.Util.Checkpoint.{marshal_checkpoint, unmarshal_checkpoint}
use rekor.Util.NoteText.{unmarshal_signed_checkpoint, unmarshal_text, split_last, read_signatures}
use rekor.Util.SignedCheckpoint.{SignedCheckpoint, checkpoint_of}
use rekor.Util.Examples.{crypto, pair, hash_one, rekor_three, signed_three}
use rekor.Util.NoteText.Examples.{
  fscanf, fscanf-ReadsWords, name-IsHost, crypto-HasHints, crypto-SignsBytes,
}
use rekor.Api.{LogEntryAnon}
use rekor.Api.Examples.{api, added_entry, entry_added, seven_of}
use rekor.Verify.{
  Checks, Rekor, prove_consistency_of, decode_hashes, verify_current_checkpoint, verify_log_entry,
}
use rekor.Verify.Sound.{IsAccepted, verify_log_entry_iff}
use rekor.Verify.Consistency.{IsCurrent, verify_current_checkpoint-IsCurrent}
use rekor.Verify.Created.{received, IsClientOf, IsServer, IsWellFormed, AreWellFormed}
use rekor.Verify.Created.Accepted.{created-IsAccepted}

-- The JSON of a bundle is its body.
abbrev or_empty : Option Bytes → Bytes
or_empty none = []
or_empty (some b) = b

abbrev json_of : Option Bytes → Bytes
json_of none = []
json_of (some body) = or_empty (Base64.decode body)

abbrev pub checks : Checks ℕ ℕ ℕ ℕ
checks = record {
  crypto = crypto;
  fscanf = fscanf;
  hash_leaf = λ _. hash_seven;
  prove_inclusion = λ _ _ _ _ _. none;
  prove_consistency = λ _ _ _ _ _. none;
  canonical_bundle = λ b. ok (json_of b.body);
  equal_fold = bytes_eq;
}

same_body :
    (e : LogEntryAnon) (payload canonical : Bytes)
    → All IsByte e.body
    → ◌≡◌ {A = Result ℕ Bytes} (ok e.body) (ok payload)
    → ◌≡◌ {A = Result ℕ Bytes} (ok payload) (ok canonical)
    → ◌≡◌ {A = Result ℕ Bytes} (ok (or_empty (Base64.decode (Base64.encode e.body)))) (ok canonical)
same_body e payload canonical bytes p q =
    ap (λ o. ok (or_empty o)) (decode-encode e.body bytes) ∙ p ∙ q

client : IsClientOf api checks server
client = record {
  same_crypto = refl;
  same_roots = λ b. refl;
  same_proofs = λ root hash p e. refl;
  reads_words = fscanf-ReadsWords;
  folds_itself = bytes_eq_refl;
  same_json = λ e payload canonical _ _ bytes p q. same_body e payload canonical bytes p q;
}

signs_five : IsServer api checks (pair 5 (omega arith)) []
unfolding format_int format_uint digits
signs_five = record {
  signers = refl;
  signs_bytes = (crypto-SignsBytes 5 (omega arith), tt);
  hints = crypto-HasHints;
  host = name-IsHost;
  origin_full = (λ e. cc, ground arith);
}

seven_AreWellFormed : AreWellFormed api checks leaf_seven proof_seven root_seven
seven_AreWellFormed = (refl, refl, ground arith, tt, ground arith, omega arith)

well :
    (m : EntryAndProof) → added_seven.get_leaf_and_proof_result ≡ some m → IsWellFormed api checks m
well m e leaf p root of_leaf of_proof of_root =
    let same : entry_seven ≡ m = some-injective e in
    subst (λ x. AreWellFormed api checks x p root)
      (some-injective (ap (λ n. n.leaf) same ∙ of_leaf))
      (subst (λ x. AreWellFormed api checks leaf_seven x root)
        (some-injective (ap (λ n. n.proof) same ∙ of_proof))
        (subst (AreWellFormed api checks leaf_seven proof_seven) (ok-injective of_root)
          seven_AreWellFormed))

created-IsAccepted_example : verify_log_entry checks (received added_entry.1) 5 ≡ ok tt
created-IsAccepted_example =
    created-IsAccepted api checks server seven_of (pair 5 (omega arith)) [] 5 (b'x' ∷ []) 4 2
      added_seven {o = added_entry} client signs_five well seven_added entry_added

verify_log_entry_iff_example :
    (verify_log_entry checks (received added_entry.1) 5 ≡ ok tt)
    ↔ IsAccepted checks (received added_entry.1) 5
verify_log_entry_iff_example = verify_log_entry_iff checks (received added_entry.1) 5

-- The head of a log of five entries, which the signer 3 signed.
abbrev pub older : SignedCheckpoint
older = record {
  checkpoint = checkpoint_of (codes "rekor") (pos 3) 5 hash_one;
  signed_note = record {
    note = marshal_checkpoint (checkpoint_of (codes "rekor") (pos 3) 5 hash_one);
    signatures = signed_three.signatures;
  };
}

-- The head of the same log with seven entries.
abbrev pub newer : SignedCheckpoint
newer = record { checkpoint = rekor_three; signed_note = signed_three }

abbrev grown : Rekor ℕ ℕ
grown = record {
  get_log_proof = λ _ _ _ w. (ok [], w);
  get_log_info = λ w. (ok (note_string signed_three, codes "3"), w);
}

newer_current : (verify_current_checkpoint checks grown 3 older 1).0 ≡ ok newer
unfolding verify_current_checkpoint verify get_public_key_hash verify_from
    unmarshal_signed_checkpoint unmarshal_text split_last read_signatures unmarshal_checkpoint
    marshal_checkpoint note_string prove_consistency_of decode_hashes format_int format_uint digits
    Base64.decode Base64.encode Base64.decode_prefix parse_uint
newer_current = refl

verify_current_checkpoint-IsCurrent_example :
    (verify crypto older.signed_note 3 ≡ true) × IsCurrent checks grown 3 older newer
verify_current_checkpoint-IsCurrent_example =
    verify_current_checkpoint-IsCurrent checks grown 3 older 1 {o = newer} newer_current
