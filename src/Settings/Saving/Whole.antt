-- ===== src/Settings/Saving/Whole.antt =====
-- What saving leaves on the disk, at any moment and in the end.
use mathlib.Core.Path.{subst}
use local_dictation.Prelude.{
  [], ◌∷◌, ◌++◌, Option, none, some, ◌≡◌, ◌≢◌, ◌⊎◌, inl, inr, refl, sym, arith, All,
}
use local_dictation.Text.{Text}
use local_dictation.Text.Laws.{beq_refl}
use local_dictation.Models.Install.Folder.{beq_differ}
use local_dictation.Settings.Config.{Config, current_version}
use local_dictation.Settings.Saving.{
  Bytes, Disk, History, change, put_bytes, not_written, not_flushed, not_closed, no_permissions,
  not_installed, SaveError, Saver, cleared, left, move_file, put_in_place, permitted, shut, flushed,
  put_raw, temporary_made, encoded_as, in_directory, save_to,
}

module _ (path name : Text) (d0 : Disk) (raw : Bytes) where
  -- The settings file is the one before or the new one, whole.
  abbrev pub IsWhole : Disk → Type 0
  IsWhole d = (d path ≡ d0 path) ⊎ (d path ≡ some raw)

  -- What is there in the end: `final` at the path, no temporary file where it went, and the other files.
  pub record Leaves (final : Option Bytes) (Gone : Type 0) (h : History) : Type 0 where
    pub settings_file : h.now path ≡ final
    pub no_temporary : Gone → h.now name ≡ none
    pub others : (q : Text) → q ≢ path → q ≢ name → h.now q ≡ d0 q
    pub always_whole : All IsWhole h.past

  -- What saving leaves, by its error and that of the deferred removal.
  abbrev pub Ends : Option Text → History × Option SaveError → Type 0
  Ends remove_failed (h, none) = Leaves (some raw) Unit h
  Ends remove_failed (h, some e) = Leaves (d0 path) (remove_failed ≡ none) h

  record Writing (h : History) : Type 0 where
    pub before : h.now path ≡ d0 path
    pub others : (q : Text) → q ≢ path → q ≢ name → h.now q ≡ d0 q
    pub whole : All IsWhole h.past

module _ (w : Saver) (path name : Text) (d0 : Disk) (raw : Bytes) (apart : path ≢ name) where
  abbrev Begun : History → Type 0
  Begun = Writing path name d0 raw

  abbrev Ended : History × Option SaveError → Type 0
  Ended = Ends path name d0 raw w.remove_failed

  put-Writing :
      (content : Bytes) (h : History) → Begun h → Begun (change (put_bytes name content h.now) h)
  put-Writing content h s = record {
    before = let e = beq_differ path name apart in ground (arith, e, s.before);
    others = λ q p n. let e = beq_differ q name n in ground (arith, e, s.others q p n);
    whole = (inl s.before, s.whole);
  }

  cleared-Leaves :
      (a : Option Text) (h : History)
      → Begun h
      → Leaves path name d0 raw (d0 path) (a ≡ none) (cleared w path name a h)
  cleared-Leaves (some e) h s = record {
    settings_file = s.before;
    no_temporary = λ k. ground (arith, k);
    others = s.others;
    always_whole = s.whole;
  }
  cleared-Leaves none h s = record {
    settings_file = let d = beq_differ path name apart in ground (arith, d, s.before);
    no_temporary = λ _. ground (arith, beq_refl name);
    others = λ q p n. let d = beq_differ q name n in ground (arith, d, s.others q p n);
    always_whole = (inl s.before, s.whole);
  }

  left-Ends : (e : SaveError) (h : History) → Begun h → Ended (left w path name (some e) h)
  left-Ends e h s = cleared-Leaves w.remove_failed h s

  -- The temporary file has become the settings file; its removal has nothing to remove.
  placed-Leaves :
      (a : Option Text) (h : History)
      → h.now name ≡ some raw
      → Begun h
      → Leaves path name d0 raw
          (some raw)
          Unit
          (cleared w path name a (change (move_file name path h.now) h))
  placed-Leaves (some e) h k s =
      let d = beq_differ path name apart in
      let same = beq_refl path in
      record {
        settings_file = ground (arith, same, k);
        no_temporary =
            λ _. ground (arith, beq_refl name, beq_differ name path (λ x. apart (sym x)));
        others = λ q p n.
            let e = beq_differ q name n in
            let f = beq_differ q path p in ground (arith, e, f, s.others q p n);
        always_whole = (inl s.before, s.whole);
      }
  placed-Leaves none h k s =
      let d = beq_differ path name apart in
      let same = beq_refl path in
      record {
        settings_file = ground (arith, d, same, k);
        no_temporary = λ _. ground (arith, beq_refl name);
        others = λ q p n.
            let e = beq_differ q name n in
            let f = beq_differ q path p in ground (arith, e, f, s.others q p n);
        always_whole = (inr (ground (arith, same, k)), (inl s.before, s.whole));
      }

  put_in_place-Ends :
      (a : Option Text) (h : History)
      → h.now name ≡ some raw
      → Begun h
      → Ended (put_in_place w path name a h)
  put_in_place-Ends (some e) h k s = left-Ends (not_installed e) h s
  put_in_place-Ends none h k s = placed-Leaves w.remove_failed h k s

  permitted-Ends :
      (a : Option Text) (h : History)
      → h.now name ≡ some raw
      → Begun h
      → Ended (permitted w path name a h)
  permitted-Ends (some e) h k s = left-Ends (no_permissions e) h s
  permitted-Ends none h k s = put_in_place-Ends w.rename h k s

  shut-Ends :
      (a : Option Text) (h : History)
      → h.now name ≡ some raw
      → Begun h
      → Ended (shut w path name a h)
  shut-Ends (some e) h k s = left-Ends (not_closed e) h s
  shut-Ends none h k s = permitted-Ends w.chmod h k s

  flushed-Ends :
      (a : Option Text) (h : History)
      → h.now name ≡ some raw
      → Begun h
      → Ended (flushed w path name a h)
  flushed-Ends (some e) h k s = left-Ends (not_flushed e) h s
  flushed-Ends none h k s = shut-Ends w.close h k s

  put_raw-Ends :
      (a : Option (Bytes × Text)) (h : History) → Begun h → Ended (put_raw w path name raw a h)
  put_raw-Ends (some (part, e)) h s =
      left-Ends (not_written e) (change (put_bytes name part h.now) h) (put-Writing part h s)
  put_raw-Ends none h s =
      flushed-Ends w.sync (change (put_bytes name raw h.now) h) (ground (arith, beq_refl name))
        (put-Writing raw h s)

abbrev pub at_first : Disk → History
at_first d = record { now = d; past = [] }

in_directory-Ends :
    (w : Saver) (path name : Text) (d0 : Disk) (json : Bytes) (c : Config) (a : Option Text)
    → path ≢ name
    → d0 name ≡ none
    → w.create_temporary ≡ inl name
    → w.encode (record c { version = current_version }) ≡ inl json
    → Ends path name d0 (json ++ 10 ∷ []) w.remove_failed (in_directory w path c a (at_first d0))
in_directory-Ends w path name d0 json c (some e) apart new made encoded = record {
  settings_file = refl;
  no_temporary = λ _. new;
  others = λ q p n. refl;
  always_whole = tt;
}
in_directory-Ends w path name d0 json c none apart new made encoded =
    let raw = json ++ 10 ∷ [] in
    let start : Writing path name d0 raw (at_first d0) = record {
      before = refl;
      others = λ q p n. refl;
      whole = tt;
    } in
    subst (λ x. Ends path name d0 raw w.remove_failed (encoded_as w path x (at_first d0)))
      (sym encoded)
      (subst
        (λ x. Ends path name d0 raw w.remove_failed (temporary_made w path raw x (at_first d0)))
        (sym made)
        (put_raw-Ends w path name d0 raw apart w.write_failed
          (change (put_bytes name [] d0) (at_first d0))
          (put-Writing w path name d0 raw apart [] (at_first d0) start)))

-- Where the settings can be encoded and the temporary file is new and not the settings file: in every
-- state on the way the settings file is the one before or the new one, whole; in the end it is the new
-- one where there is no error and the one before where there is one; the temporary file is gone, but
-- where saving fails and its removal fails too; and no other file has changed.
pub save_to-Ends :
    (w : Saver) (path name : Text) (d0 : Disk) (json : Bytes) (c : Config)
    → path ≢ name
    → d0 name ≡ none
    → w.create_temporary ≡ inl name
    → w.encode (record c { version = current_version }) ≡ inl json
    → Ends path name d0 (json ++ 10 ∷ []) w.remove_failed (save_to w path c (at_first d0))
unfolding save_to
save_to-Ends w path name d0 json c = in_directory-Ends w path name d0 json c w.make_directory
