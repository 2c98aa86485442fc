-- ===== src/Cli/State.antt =====
-- cmd/rekor-cli/app/state/state.go: the file with the last tree heads. Files and JSON are parameters.
pub mod Stored
use rekor.Base.{
  ℕ, ◌==◌, Bool, true, false, List, [], ◌∷◌, Option, none, some, if◌then◌else◌, Result, ok, err,
}
use rekor.Base.Bytes.{Bytes, bytes_eq, codes}
use rekor.Util.SignedCheckpoint.{SignedCheckpoint}
use rekor.Types.VersionMap.{put}

-- persistedState, with the pointers that a file can make nil.
abbrev pub PersistedState : Type 0
PersistedState = List (Bytes × Option SignedCheckpoint)

-- The packages os, filepath and json; a map that JSON makes nil is `none`.
pub record Files (E W : Type 0) : Type 0 where
  pub user_home_dir : W → Result E Bytes
  pub join : Bytes → Bytes → Bytes
  pub clean : Bytes → Bytes
  pub stat : Bytes → W → Option E
  pub is_not_exist : E → Bool
  pub mkdir_all : Bytes → W → Option E × W
  pub read_file : Bytes → W → Result E Bytes
  pub write_file : Bytes → Bytes → W → Option E × W
  pub marshal : PersistedState → Result E Bytes
  pub unmarshal : Bytes → Result E (Option PersistedState)

pub data DumpError (E : Type 0) : Type 0 where
  empty_log : DumpError E
  dump_failed : E → DumpError E

-- `state[key]`
unfoldable pub find : Bytes → PersistedState → Option SignedCheckpoint
find key [] = none
find key ((k, sth) ∷ m) = let rest = find key m in if bytes_eq k key then sth else rest

abbrev pub or_new : Option PersistedState → PersistedState
or_new none = []
or_new (some m) = m

abbrev pub find_in : Bytes → Option PersistedState → Option SignedCheckpoint
find_in key none = none
find_in key (some m) = find key m

module _ {E W : Type 0} (files : Files E W) where
  abbrev pub absent : Option E → Bool
  absent none = false
  absent (some e) = files.is_not_exist e

  abbrev pub made : Bytes → Option E × W → Result E Bytes × W
  made dir (some e, w) = (err e, w)
  made dir (none, w) = (ok dir, w)

  abbrev pub dir_if : Bool → Bytes → W → Result E Bytes × W
  dir_if false dir w = (ok dir, w)
  dir_if true dir w = made dir (files.mkdir_all dir w)

  abbrev pub in_home : Result E Bytes → W → Result E Bytes × W
  in_home (err e) w = (err e, w)
  in_home (ok home) w =
      let dir = files.join home (codes ".rekor") in dir_if (absent (files.stat dir w)) dir w

  unfoldable pub get_rekor_dir : W → Result E Bytes × W
  get_rekor_dir w = in_home (files.user_home_dir w) w

  abbrev pub state_path : Bytes → Bytes
  state_path dir = files.join dir (codes "state.json")

  abbrev pub unmarshaled : Result E (Option PersistedState) → Option PersistedState
  unmarshaled (err e) = none
  unmarshaled (ok m) = m

  abbrev pub state_of : Result E Bytes → Option PersistedState
  state_of (err e) = none
  state_of (ok b) = unmarshaled (files.unmarshal b)

  abbrev pub state_in : Result E Bytes × W → Option PersistedState × W
  state_in (err e, w) = (none, w)
  state_in (ok dir, w) = (state_of (files.read_file (files.clean (state_path dir)) w), w)

  unfoldable pub load_state_file : W → Option PersistedState × W
  load_state_file w = state_in (get_rekor_dir w)

  unfoldable pub load : Bytes → W → Option SignedCheckpoint × W
  load key w = let (m, v) = load_state_file w in (find_in key m, v)

  abbrev pub write_result : Option E × W → Result (DumpError E) (Unit {0}) × W
  write_result (none, w) = (ok tt, w)
  write_result (some e, w) = (err (dump_failed e), w)

  abbrev pub write_state : Bytes → Result E Bytes → W → Result (DumpError E) (Unit {0}) × W
  write_state path (err e) w = (err (dump_failed e), w)
  write_state path (ok b) w = write_result (files.write_file path b w)

  abbrev pub dump_in :
      Bytes → SignedCheckpoint → Result E Bytes × W → Result (DumpError E) (Unit {0}) × W
  dump_in key sth (err e, w) = (err (dump_failed e), w)
  dump_in key sth (ok dir, w) =
      let (m, v) = load_state_file w in
      write_state (state_path dir) (files.marshal (put key (some sth) (or_new m))) v

  abbrev pub dump_unless : Bool → Bytes → SignedCheckpoint → W → Result (DumpError E) (Unit {0}) × W
  dump_unless true key sth w = (err empty_log, w)
  dump_unless false key sth w = dump_in key sth (get_rekor_dir w)

  unfoldable pub dump : Bytes → SignedCheckpoint → W → Result (DumpError E) (Unit {0}) × W
  dump key sth w = dump_unless (sth.checkpoint.size == 0) key sth w
