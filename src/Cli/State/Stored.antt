-- ===== src/Cli/State/Stored.antt =====
-- What Load of cmd/rekor-cli/app/state/state.go finds after Dump.
use rekor.Base.{
  ◌==◌, ◌≡◌, refl, ap, sym, ◌∙◌, subst, inl, inr, Bool, true, false, Bool-cases, [], ◌∷◌, Option,
  none, some, if◌then◌else◌, Result, ok, err, ok-injective,
}
use rekor.Base.Bytes.{Bytes, bytes_eq, bytes_eq_iff, codes}
use rekor.Util.SignedCheckpoint.{SignedCheckpoint}
use rekor.Types.VersionMap.{put}
use rekor.Cli.State.{
  unmarshaled, state_in, PersistedState, Files, DumpError, find, or_new, find_in, absent, made,
  dir_if, in_home, get_rekor_dir, state_path, state_of, load_state_file, load, write_result,
  write_state, dump_in, dump_unless, dump,
}

other_key :
    (k0 key k : Bytes) → bytes_eq k0 key ≡ false → bytes_eq k0 k ≡ true → bytes_eq key k ≡ false
other_key k0 key k n p = elim (Bool-cases (bytes_eq key k)) [
  | inl t ↦
      let same = (bytes_eq_iff k0 k).0 p ∙ sym ((bytes_eq_iff key k).0 t) in
      let equal = (bytes_eq_iff k0 key).1 same in cc
  | inr f ↦ f
]

-- `state[k]` after `state[key] = sth`.
find-put :
    (k key : Bytes) (sth : SignedCheckpoint) (m : PersistedState)
    → find k (put key (some sth) m) ≡ (if bytes_eq key k then some sth else find k m)
unfolding find put
find-put k key sth [] = refl
find-put k key sth ((k0, old) ∷ m) = elim (Bool-cases (bytes_eq k0 key)) [
  | inl y ↦ elim (Bool-cases (bytes_eq key k)) [
    | inl p ↦ rw (y, p) refl
    | inr q ↦
        let same = (bytes_eq_iff k0 key).0 y in
        rw (y, q, subst (λ t. bytes_eq t k ≡ false) (sym same) q) refl
  ]
  | inr n ↦ elim (Bool-cases (bytes_eq k0 k)) [
    | inl p ↦ rw (n, p, other_key k0 key k n p) refl
    | inr q ↦ rw (n, q) (find-put k key sth m)
  ]
]

module _ {E W : Type 0} (files : Files E W) where
  -- Writing a file and making a directory leave the rest as it was, and what is written can be read.
  pub record IsFileSystem : Type 0 where
    pub mkdir_home :
        (dir : Bytes) (w : W)
        → files.user_home_dir (files.mkdir_all dir w).1 ≡ files.user_home_dir w
    pub mkdir_makes :
        (dir : Bytes) (w : W)
        → (files.mkdir_all dir w).0 ≡ none
        → absent files (files.stat dir (files.mkdir_all dir w).1) ≡ false
    pub write_home :
        (path b : Bytes) (w : W)
        → files.user_home_dir (files.write_file path b w).1 ≡ files.user_home_dir w
    pub write_stat :
        (dir path b : Bytes) (w : W)
        → absent files (files.stat dir w) ≡ false
        → absent files (files.stat dir (files.write_file path b w).1) ≡ false
    pub reads_written :
        (path b : Bytes) (w : W)
        → (files.write_file path b w).0 ≡ none
        → files.read_file (files.clean path) (files.write_file path b w).1 ≡ ok b

  -- The directory is there, under the home of the user.
  abbrev Has : Bytes → W → Type 0
  Has dir w =
      (home : Bytes) × (files.user_home_dir w ≡ ok home)
      × (files.join home (codes ".rekor") ≡ dir)
      × (absent files (files.stat dir w) ≡ false)

  get_rekor_dir-stays : (dir : Bytes) (w : W) → Has dir w → get_rekor_dir files w ≡ (ok dir, w)
  unfolding get_rekor_dir
  get_rekor_dir-stays dir w (home, at, under, there) = rw (at, under, there) refl

  made-Has :
      (dir home : Bytes) (p : Option E × W) {d : Bytes}
      → files.user_home_dir p.1 ≡ ok home
      → files.join home (codes ".rekor") ≡ dir
      → (p.0 ≡ none → absent files (files.stat dir p.1) ≡ false)
      → (made files dir p).0 ≡ ok d
      → Has d (made files dir p).1
  made-Has dir home (some e, w) at under makes h = cc
  made-Has dir home (none, w) at under makes h =
      subst (λ x. Has x w) (ok-injective h) (home, at, under, makes refl)

  dir_if-Has :
      (laws : IsFileSystem) (b : Bool) (dir home : Bytes) (w : W) {d : Bytes}
      → absent files (files.stat dir w) ≡ b
      → files.user_home_dir w ≡ ok home
      → files.join home (codes ".rekor") ≡ dir
      → (dir_if files b dir w).0 ≡ ok d
      → Has d (dir_if files b dir w).1
  dir_if-Has laws false dir home w there at under h =
      subst (λ x. Has x w) (ok-injective h) (home, at, under, there)
  dir_if-Has laws true dir home w {d} there at under h =
      made-Has dir home (files.mkdir_all dir w) {d = d} (laws.mkdir_home dir w ∙ at) under
        (laws.mkdir_makes dir w) h

  in_home-Has :
      (laws : IsFileSystem) (o : Result E Bytes) (w : W) {d : Bytes}
      → files.user_home_dir w ≡ o
      → (in_home files o w).0 ≡ ok d
      → Has d (in_home files o w).1
  in_home-Has laws (err e) w at h = cc
  in_home-Has laws (ok home) w {d} at h =
      let dir = files.join home (codes ".rekor") in
      dir_if-Has laws (absent files (files.stat dir w)) dir home w {d = d} refl at refl h

  get_rekor_dir-Has :
      (laws : IsFileSystem) (w : W) {d : Bytes}
      → (get_rekor_dir files w).0 ≡ ok d
      → Has d (get_rekor_dir files w).1
  unfolding get_rekor_dir
  get_rekor_dir-Has laws w {d} h = in_home-Has laws (files.user_home_dir w) w {d = d} refl h

  write-Has :
      (laws : IsFileSystem) (dir path b : Bytes) (w : W)
      → Has dir w
      → Has dir (files.write_file path b w).1
  write-Has laws dir path b w (home, at, under, there) =
      (home, laws.write_home path b w ∙ at, under, laws.write_stat dir path b w there)

  write_state-ok :
      (path : Bytes) (r : Result E Bytes) (w : W) {u : Unit {0}}
      → (write_state files path r w).0 ≡ ok u
      → (b : Bytes) × (r ≡ ok b)
        × ((files.write_file path b w).0 ≡ none)
        × ((write_state files path r w).1 ≡ (files.write_file path b w).1)
  write_state-ok path (err e) w h = cc
  write_state-ok path (ok b) w h =
      let (none_, same) = written (files.write_file path b w) h in (b, refl, none_, same)
    where
      written :
          (p : Option E × W) {u : Unit {0}}
          → (write_result files p).0 ≡ ok u
          → (p.0 ≡ none) × ((write_result files p).1 ≡ p.1)
      written (none, w) h = (refl, refl)
      written (some e, w) h = cc

  -- JSON gives this state back.
  abbrev pub IsPreserved : PersistedState → Type 0
  IsPreserved m = (b : Bytes) → files.marshal m ≡ ok b → files.unmarshal b ≡ ok (some m)

  load_state_file-in :
      (dir : Bytes) (w : W)
      → Has dir w
      → load_state_file files w
        ≡ (state_of files (files.read_file (files.clean (state_path files dir)) w), w)
  unfolding load_state_file
  load_state_file-in dir w has = rw (get_rekor_dir-stays dir w has) refl

  write_state-load :
      (laws : IsFileSystem) (dir : Bytes) (m : PersistedState) (w : W) {u : Unit {0}}
      → Has dir w
      → IsPreserved m
      → (write_state files (state_path files dir) (files.marshal m) w).0 ≡ ok u
      → (load_state_file files (write_state files (state_path files dir) (files.marshal m) w).1).0
        ≡ some m
  write_state-load laws dir m w {u} has preserved h =
      let path = state_path files dir in
      let (b, json, wrote, same) = write_state-ok path (files.marshal m) w {u = u} h in
      let v = (files.write_file path b w).1 in
      let found = load_state_file-in dir v (write-Has laws dir path b w has) in
      ap (λ x. (load_state_file files x).0) same
      ∙ ap (λ q. q.0) found
      ∙ ap (state_of files) (laws.reads_written path b w wrote)
      ∙ ap (unmarshaled files) (preserved b json)

  dump_in-load :
      (laws : IsFileSystem) (key : Bytes) (sth : SignedCheckpoint) (p : Result E Bytes × W)
      {u : Unit {0}}
      → ((d : Bytes) → p.0 ≡ ok d → Has d p.1)
      → IsPreserved (put key (some sth) (or_new (state_in files p).0))
      → (dump_in files key sth p).0 ≡ ok u
      → (load_state_file files (dump_in files key sth p).1).0
        ≡ some (put key (some sth) (or_new (state_in files p).0))
  dump_in-load laws key sth (err e, w) has preserved h = cc
  dump_in-load laws key sth (ok dir, w) {u} has preserved h =
      let m = state_of files (files.read_file (files.clean (state_path files dir)) w) in
      let start = load_state_file-in dir w (has dir refl) in
      let written : Option PersistedState × W → Result (DumpError E) (Unit {0}) × W = λ q.
        write_state files (state_path files dir) (files.marshal (put key (some sth) (or_new q.0)))
          q.1 in
      ap (λ q. (load_state_file files (written q).1).0) start
      ∙ write_state-load laws dir (put key (some sth) (or_new m)) w {u = u} (has dir refl) preserved
          (subst (λ q. (written q).0 ≡ ok u) start h)

  find-or_new : (k : Bytes) (m : Option PersistedState) → find k (or_new m) ≡ find_in k m
  unfolding find
  find-or_new k none = refl
  find-or_new k (some m) = refl

  dump_unless-load :
      (laws : IsFileSystem) (b : Bool) (key : Bytes) (sth : SignedCheckpoint) (w : W) {u : Unit {0}}
      → IsPreserved (put key (some sth) (or_new (load_state_file files w).0))
      → (dump_unless files b key sth w).0 ≡ ok u
      → (load_state_file files (dump_unless files b key sth w).1).0
        ≡ some (put key (some sth) (or_new (load_state_file files w).0))
  unfolding load_state_file
  dump_unless-load laws true key sth w preserved h = cc
  dump_unless-load laws false key sth w {u} preserved h =
      dump_in-load laws key sth (get_rekor_dir files w) {u = u}
        (λ d e. get_rekor_dir-Has laws w {d = d} e) preserved h

  -- After a Dump that succeeds, Load finds the tree head under its key, and under any other key what it
  -- found before: where the files keep what is written, and JSON gives the new state back.
  pub dump-load :
      (laws : IsFileSystem) (key k : Bytes) (sth : SignedCheckpoint) (w : W) {u : Unit {0}}
      → IsPreserved (put key (some sth) (or_new (load_state_file files w).0))
      → (dump files key sth w).0 ≡ ok u
      → (load files k (dump files key sth w).1).0
        ≡ (if bytes_eq key k then some sth else (load files k w).0)
  unfolding dump load
  dump-load laws key k sth w {u} preserved h =
      let m = (load_state_file files w).0 in
      ap (find_in k)
        (dump_unless-load laws (sth.checkpoint.size == 0) key sth w {u = u} preserved h)
      ∙ find-put k key sth (or_new m)
      ∙ ap (λ o. if bytes_eq key k then some sth else o) (find-or_new k m)
