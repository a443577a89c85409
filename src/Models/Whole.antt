-- ===== src/Models/Whole.antt =====
-- A model is installed whole or not at all, whenever the process is killed.
use mathlib.Core.Path.{subst}
use local_dictation.Prelude.{
  ◌+◌, Bool, true, false, not, List, [], ◌∷◌, Option, none, some, is_some, ◌⊎◌, inl, inr, ◌≡◌, ◌≢◌,
  refl, sym, ap, ◌∙◌, arith, All, All-map, length, length-append, if_cases,
}
use local_dictation.Text.{Text, codes}
use local_dictation.Update.Manifest.{Bytes}
use local_dictation.Models.Catalogue.{Model}
use local_dictation.Models.Install.{
  World, Trouble, Sums, sums_text, aside, moved_in, replacing, complete, summed, fetched, cleaned,
  stage, listed, made, install_folder, fetch_files,
}
use local_dictation.Models.Install.Names.{repository_files}
use local_dictation.Models.Install.Folder.{
  folder, Disk, Place, write, move, remove, new_folder, put_entry, with_file, put_file, file_in,
  remove_same, remove_other, new_folder_same, new_folder_other, put_file_other, put_file_same,
  move_to, move_from, move_other, file_in-put_entry, file_in-put_entry_other,
}
use local_dictation.Models.Staged.{
  onto, All-onto, Away, Calm, Got, Staged, FetchedAll, fetch_files-FetchedAll,
}

abbrev pub sums_name : Text
sums_name = codes "SHA256SUMS"

-- The directory has every file of the model, each the whole body that the repository answered with, and
-- beside them the checksums of all of them.
pub record Complete (w : World) (m : Model) (files : List Text) (d : Disk) : Type 0 where
  pub entries : List (Text × Bytes)
  pub is : d m.name ≡ some (folder entries)
  pub sums : Sums
  pub written : file_in sums_name entries ≡ some (w.utf8 (sums_text sums))
  pub got : All (λ n. n ≢ sums_name → Got w m.repo entries sums n) files

module _ (w : World) (m : Model) (d0 : Disk) where
  abbrev pub old : Text
  old = aside w m.name

  -- What may stand under the model's name: what stood there before, nothing while the previous model is
  -- safe aside, or the whole model.
  abbrev pub Sound : List Text → Disk → Type 0
  Sound files d =
      (d m.name ≡ d0 m.name) ⊎ ((d m.name ≡ none) × (d old ≡ d0 m.name)) ⊎ Complete w m files d

  -- How an error leaves the model's name.
  abbrev pub Restored : Disk → Type 0
  Restored d = (d m.name ≡ d0 m.name) ⊎ ((d m.name ≡ none) × (d old ≡ d0 m.name))

  -- A run by its outcome: every state on the way is sound; without an error the model is there as a
  -- whole, and with one what was there is still there, or aside where even the way back failed.
  abbrev pub Ends : List Text → Place × Option Trouble → Type 0
  Ends files (p, none) = All (Sound files) (p.now ∷ p.past) × Complete w m files p.now
  Ends files (p, some e) = All (Sound files) (p.now ∷ p.past) × Restored p.now

  Complete-same :
      (files : List Text) (d e : Disk)
      → d m.name ≡ e m.name
      → Complete w m files e
      → Complete w m files d
  Complete-same files d e h c = record {
    entries = c.entries;
    is = h ∙ c.is;
    sums = c.sums;
    written = c.written;
    got = c.got;
  }

  Restored-same : (d e : Disk) → d m.name ≡ e m.name → d old ≡ e old → Restored e → Restored d
  Restored-same d e h k (inl s) = inl (h ∙ s)
  Restored-same d e h k (inr (s, t)) = inr (h ∙ s, k ∙ t)

  Restored-Sound : (files : List Text) (d : Disk) → Restored d → Sound files d
  Restored-Sound files d (inl s) = inl s
  Restored-Sound files d (inr s) = inr (inl s)

  Sound-same :
      (files : List Text) (d e : Disk)
      → d m.name ≡ e m.name
      → d old ≡ e old
      → Sound files e
      → Sound files d
  Sound-same files d e h k (inl s) = inl (h ∙ s)
  Sound-same files d e h k (inr (inl (s, t))) = inr (inl (h ∙ s, k ∙ t))
  Sound-same files d e h k (inr (inr c)) = inr (inr (Complete-same files d e h c))

  name_not_old : m.name ≢ old
  name_not_old e =
      let longer : length m.name ≡ length m.name + 9 =
        ap length e ∙ length-append m.name (codes ".replaced") in
      omega (arith, longer)

  module _ (files : List Text) (staging : Text) (apart : staging ≢ m.name)
      (apart_old : staging ≢ old) where
    Away-Sound : (d : Disk) → Away w m.repo staging d0 d → Sound files d
    Away-Sound d away = inl (away m.name (λ e. apart (sym e)))

    -- What is in the staging folder when everything has been fetched.
    abbrev Packed : Disk → Type 0
    Packed d = Complete w (record m { name = staging }) files d

    Packed-moved : (d e : Disk) → d m.name ≡ e staging → Packed e → Complete w m files d
    Packed-moved d e h c = record {
      entries = c.entries;
      is = h ∙ c.is;
      sums = c.sums;
      written = c.written;
      got = c.got;
    }

    moved_in-Ends :
        (replaces : Bool) (o : Option Text) (p : Place)
        → All (Sound files) (p.now ∷ p.past)
        → Restored p.now
        → (replaces ≡ true → p.now old ≡ d0 m.name)
        → Packed p.now
        → Ends files (moved_in w staging m.name replaces o p)
    moved_in-Ends false none p sound restored aside_holds packed =
        let whole =
          Packed-moved (move staging m.name p.now) p.now (move_to staging m.name p.now) packed in
        ((inr (inr whole), sound), whole)
    moved_in-Ends true none p sound restored aside_holds packed =
        let d1 = move staging m.name p.now in
        let whole = Packed-moved d1 p.now (move_to staging m.name p.now) packed in
        let after =
          Complete-same files (remove old d1) d1 (remove_other old m.name d1 name_not_old) whole in
        ((inr (inr after), (inr (inr whole), sound)), after)
    moved_in-Ends false (some e) p sound restored aside_holds packed = (sound, restored)
    moved_in-Ends true (some e) p sound restored aside_holds packed =
        if_cases (λ q. Ends files (q, some (Trouble.not_installed e))) (not (is_some w.move_back)) _
          p
          (λ _.
            let back : Restored (move old m.name p.now) =
              inl (move_to old m.name p.now ∙ aside_holds refl) in
            ((Restored-Sound files (move old m.name p.now) back, sound), back))
          (λ _. (sound, restored))

    Complete-staging : (d e : Disk) → d staging ≡ e staging → Packed e → Packed d
    Complete-staging d e h c = record {
      entries = c.entries;
      is = h ∙ c.is;
      sums = c.sums;
      written = c.written;
      got = c.got;
    }

    replacing-Ends :
        (o : Option Text) (p : Place)
        → All (Sound files) (p.now ∷ p.past)
        → p.now m.name ≡ d0 m.name
        → Packed p.now
        → Ends files (replacing w staging m.name o p)
    replacing-Ends (some e) p sound same packed = (sound, inl same)
    replacing-Ends none p sound same packed =
        let d1 = move m.name old p.now in
        let held = move_to m.name old p.now ∙ same in
        let gone = move_from m.name old p.now name_not_old in
        moved_in-Ends true w.move_in (write d1 p) (inr (inl (gone, held)), sound) (inr (gone, held))
          (λ _. held)
          (Complete-staging d1 p.now (move_other m.name old staging p.now apart apart_old) packed)

    complete-Ends :
        (p : Place)
        → All (Sound files) (p.now ∷ p.past)
        → Away w m.repo staging d0 p.now
        → Packed p.now
        → Ends files (complete w staging m.name p)
    complete-Ends p sound away packed =
        let same : p.now m.name ≡ d0 m.name = away m.name (λ e. apart (sym e)) in
        if_cases (Ends files) (is_some (p.now m.name)) _ _
          (λ _.
            let d1 = remove old p.now in
            let kept = remove_other old m.name p.now name_not_old ∙ same in
            replacing-Ends w.move_aside (write d1 p) (inl kept, sound) kept
              (Complete-staging d1 p.now (remove_other old staging p.now apart_old) packed))
          (λ _.
            moved_in-Ends false w.move_in p sound (inl same) (λ e. absurd (ground (arith, e)))
              packed)

    summed-Ends :
        (sums : Sums) (o : Option Text) (p : Place)
        → Calm w m.repo staging d0 p
        → Staged w m.repo staging d0 p.now (onto files []) sums
        → Ends files (summed w staging m.name sums o p)
    summed-Ends sums (some e) p (away, aways) s = (
      All-map (Away w m.repo staging d0) (Sound files) Away-Sound (p.now ∷ p.past) (away, aways),
      inl (away m.name (λ e. apart (sym e))),
    )
    summed-Ends sums none p (away, aways) s =
        let text = w.utf8 (sums_text sums) in
        let d1 = put_file staging sums_name text p.now in
        let away1 : Away w m.repo staging d0 d1 =
          λ q ne. put_file_other staging sums_name q text p.now ne ∙ away q ne in
        complete-Ends (write d1 p)
          (All-map (Away w m.repo staging d0) (Sound files) Away-Sound (d1 ∷ p.now ∷ p.past)
            (away1, (away, aways)))
          away1
          (record {
            entries = put_entry sums_name text s.files;
            is = put_file_same staging sums_name text p.now ∙ ap (with_file sums_name text) s.is;
            sums = sums;
            written = file_in-put_entry sums_name text s.files;
            got =
                All-map (Got w m.repo s.files sums) _
                  (λ n (body, fetched, holds, noted) ne. (
                    body,
                    fetched,
                    file_in-put_entry_other n sums_name text s.files ne ∙ holds,
                    noted,
                  ))
                  files (All-onto (Got w m.repo s.files sums) files [] s.got).0;
          })

    fetched-Ends :
        (r : Place × (Sums ⊎ Trouble))
        → FetchedAll w m.repo staging d0 (onto files []) r
        → Ends files (fetched w staging m.name r)
    fetched-Ends (p, inr e) (away, aways) = (
      All-map (Away w m.repo staging d0) (Sound files) Away-Sound (p.now ∷ p.past) (away, aways),
      inl (away m.name (λ e. apart (sym e))),
    )
    fetched-Ends (p, inl sums) (calm, s) = summed-Ends sums w.write_sums p calm s

    cleaned-Ends :
        (r : Place × Option Trouble)
        → Ends files r
        → Ends files (cleaned w staging r) × ((cleaned w staging r).0.now staging ≡ none)
    cleaned-Ends (p, none) (sound, c) =
        let here = remove_other staging m.name p.now (λ e. apart (sym e)) in
        let c1 = Complete-same files (remove staging p.now) p.now here c in
        (((inr (inr c1), sound), c1), remove_same staging p.now)
    cleaned-Ends (p, some e) (sound, r) =
        let here = remove_other staging m.name p.now (λ e. apart (sym e)) in
        let r1 =
          Restored-same (remove staging p.now) p.now here
            (remove_other staging old p.now (λ e. apart_old (sym e))) r in
        (((Restored-Sound files (remove staging p.now) r1, sound), r1), remove_same staging p.now)

  abbrev pub first_place : Place
  first_place = record { now = d0; past = [] }

  -- A run that ends well and leaves no staging folder.
  abbrev pub Safe : List Text → Text → Place × Option Trouble → Type 0
  Safe files staging r = Ends files r × (r.0.now staging ≡ none)

  module _ (files : List Text) (staging : Text) (fresh : d0 staging ≡ none)
      (apart : staging ≢ m.name) (apart_old : staging ≢ old) where
    unchanged : (e : Trouble) → Safe files staging (first_place, some e)
    unchanged e = (((inl refl, tt), inl refl), fresh)

    stage-Safe : Safe files staging (stage w m files (inl staging) first_place)
    stage-Safe =
        let p = write (new_folder staging d0) first_place in
        let r = fetch_files w m.repo staging files 0 [] p in
        cleaned-Ends files staging apart apart_old (fetched w staging m.name r) (
          fetched-Ends files staging apart apart_old r (
            fetch_files-FetchedAll w m.repo staging d0 files [] 0 [] p
              (λ q ne. new_folder_other staging q d0 ne, (λ q ne. refl, tt))
              (record { files = []; is = new_folder_same staging d0; got = tt })))

    listed-Safe :
        (l : List Text ⊎ Text)
        → w.make_staging ≡ inl staging
        → l ≡ inl files
        → Safe files staging (listed w m l first_place)
    listed-Safe (inr e) made_staging h = absurd (ground (arith, h))
    listed-Safe (inl []) made_staging h = unchanged Trouble.nothing_listed
    listed-Safe (inl (f ∷ fs)) made_staging h =
        let same : f ∷ fs ≡ files =
          ap (λ (x : List Text ⊎ Text). elim x [ inl ns ↦ ns | inr e ↦ files ]) h in
        subst (λ ns. Safe files staging (stage w m ns w.make_staging first_place)) (sym same)
          (subst (λ s. Safe files staging (stage w m files s first_place)) (sym made_staging)
            stage-Safe)

    made-Safe :
        (o : Option Text)
        → w.make_staging ≡ inl staging
        → repository_files w.windows (w.listing m.repo) ≡ inl files
        → Safe files staging (made w m o first_place)
    made-Safe (some e) made_staging asked = unchanged (Trouble.no_directory e)
    made-Safe none made_staging asked = listed-Safe _ made_staging asked

  -- Whenever the process is killed while a model is installed, its name stands for what it stood for
  -- before, for nothing while the previous model is aside, or for the whole model: every file as the
  -- repository sent it, and their checksums. Without an error the model is there as a whole, and with
  -- one what was there before is, or is aside where the way back failed too; the staging folder is gone
  -- in either case. The staging folder has another name than the model and what is put aside.
  pub install_folder-Safe :
      (files : List Text) (staging : Text)
      → d0 staging ≡ none
      → staging ≢ m.name
      → staging ≢ old
      → w.make_staging ≡ inl staging
      → repository_files w.windows (w.listing m.repo) ≡ inl files
      → Safe files staging (install_folder w m first_place)
  unfolding install_folder
  install_folder-Safe files staging fresh apart apart_old made_staging asked =
      made-Safe files staging fresh apart apart_old w.make_directory made_staging asked
