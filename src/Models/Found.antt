-- ===== src/Models/Found.antt =====
-- What a scan finds while a model is installed, and after.
use mathlib.Core.Path.{subst}
use local_dictation.Prelude.{
  Bool, true, false, List, [], ◌∷◌, ◌++◌, Option, none, some, if◌then◌else◌, inl, inr, ◌≡◌, ◌≢◌,
  sym, ap, ◌∙◌, arith, All, All-map,
}
use local_dictation.Text.{Text, codes, beq}
use local_dictation.Settings.Backend.{weights, normalise}
use local_dictation.Update.Assets.{Among}
use local_dictation.Models.Catalogue.{Model, is_file, weights_of}
use local_dictation.Models.Scan.{stat, stat_file, stat_folder, stat_weights}
use local_dictation.Models.Install.{World, Trouble, aside, install_folder}
use local_dictation.Models.Install.Names.{repository_files}
use local_dictation.Models.Install.Folder.{Disk, Place}
use local_dictation.Models.Whole.{
  Complete, Sound, Ends, first_place, sums_name, install_folder-Safe,
}

-- What a scan finds in a run: a model that is there while the run lasts is there as a whole, and after
-- a run without an error it is there.
abbrev pub Finds : World → Model → List Text → Place × Option Trouble → Type 0
Finds w m files (p, e) =
    All (λ d. (stat m d).installed ≡ true → Complete w m files d) (p.now ∷ p.past)
    × (e ≡ none → (stat m p.now).installed ≡ true)

weights_differ : (m : Model) → is_file m ≡ false → weights_of m ≢ sums_name
unfolding weights
weights_differ m f e =
    let given : weights_of m ≡ weights m.backend =
      ap (λ (b : Bool). if b then m.name else weights m.backend) f in
    differ (beq (normalise m.backend) _) (beq (normalise m.backend) _) (sym given ∙ e)
  where
    differ :
        (intel apple : Bool)
        → (if intel
            then codes "openvino_encoder_model.xml"
            else if apple
            then codes "weights.safetensors"
            else codes "model.bin")
          ≡ sums_name
        → ⊥
    differ true _ h = ground (arith, h)
    differ false true h = ground (arith, h)
    differ false false h = ground (arith, h)

All-Among : (P : Text → Type 0) (xs : List Text) (x : Text) → Among x xs → All P xs → P x
All-Among P xs x (before, after, e) h = inside before (subst (All P) e h)
  where
    inside : (before : List Text) → All P (before ++ x ∷ after) → P x
    inside [] (px, h) = px
    inside (y ∷ ys) (py, h) = inside ys h

module _ (w : World) (m : Model) (d0 : Disk) (folder_model : is_file m ≡ false) where
  stat-stat_folder : (d : Disk) → stat m d ≡ stat_folder m (d m.name)
  unfolding stat
  stat-stat_folder d =
      ap (λ (b : Bool). if b then stat_file m (d m.name) else stat_folder m (d m.name)) folder_model

  stat-installed : (d : Disk) → (stat m d).installed ≡ (stat_folder m (d m.name)).installed
  stat-installed d = ap (λ s. s.installed) (stat-stat_folder d)

  Sound-found :
      (files : List Text) (d : Disk)
      → (stat m d0).installed ≡ false
      → Sound w m d0 files d
      → (stat m d).installed ≡ true
      → Complete w m files d
  Sound-found files d before (inl same) h = absurd (
      differ (stat m d).installed h (
        stat-installed d
        ∙ ap (λ e. (stat_folder m e).installed) same
        ∙ sym (stat-installed d0)
        ∙ before))
    where
      differ : (b : Bool) → b ≡ true → b ≡ false → ⊥
      differ b x y = ground (arith, sym x ∙ y)
  Sound-found files d before (inr (inl (gone, _))) h =
      absurd (ground (arith, sym h ∙ stat-installed d ∙ ap (λ e. (stat_folder m e).installed) gone))
  Sound-found files d before (inr (inr whole)) h = whole

  Complete-installed :
      (files : List Text) (d : Disk)
      → Among (weights_of m) files
      → Complete w m files d
      → (stat m d).installed ≡ true
  Complete-installed files d listed c =
      let (body, fetched, holds, noted) =
        All-Among _ files (weights_of m) listed c.got (weights_differ m folder_model) in
      stat-installed d
      ∙ ap (λ e. (stat_folder m e).installed) c.is
      ∙ ap (λ e. (stat_weights m c.entries e).installed) holds

  Finds-Ends :
      (files : List Text) (r : Place × Option Trouble)
      → (stat m d0).installed ≡ false
      → Among (weights_of m) files
      → Ends w m d0 files r
      → Finds w m files r
  Finds-Ends files (p, none) before listed (sound, c) = (
    All-map (Sound w m d0 files) _ (λ d s. Sound-found files d before s) (p.now ∷ p.past) sound,
    λ e. Complete-installed files p.now listed c,
  )
  Finds-Ends files (p, some e) before listed (sound, r) = (
    All-map (Sound w m d0 files) _ (λ d s. Sound-found files d before s) (p.now ∷ p.past) sound,
    λ k. absurd (ground (arith, k)),
  )

-- While a model that a scan did not find is installed, whenever the process is killed, a scan that
-- finds it finds it whole; and it finds it after an install without an error, where the repository
-- lists the weights. The model is a folder, and the staging folder is new and has another name than the
-- model and what is put aside.
pub install_folder-Finds :
    (w : World) (m : Model) (d0 : Disk) (files : List Text) (staging : Text)
    → is_file m ≡ false
    → (stat m d0).installed ≡ false
    → Among (weights_of m) files
    → d0 staging ≡ none
    → staging ≢ m.name
    → staging ≢ aside w m.name
    → w.make_staging ≡ inl staging
    → repository_files w.windows (w.listing m.repo) ≡ inl files
    → Finds w m files (install_folder w m (first_place w m d0))
install_folder-Finds w m d0 files staging is_folder before listed fresh apart apart_old made asked =
    Finds-Ends w m d0 is_folder files _ before listed
      (install_folder-Safe w m d0 files staging fresh apart apart_old made asked).0
