-- ===== src/Tests/Models.antt =====
-- A repository of two files, installed into an empty directory.
use local_dictation.Prelude.{◌*◌, false, List, [], ◌∷◌, none, some, ◌≡◌, refl, inl, arith}
use local_dictation.Text.{Text, codes, beq, is_empty, has_prefix, contains}
use local_dictation.Settings.Backend.{backend_cpu, weights, normalise}
use local_dictation.Models.Catalogue.{Model, draft, from_repo, mib}
use local_dictation.Models.Scan.{stat}
use local_dictation.Models.Install.{World, reply, install_folder}
use local_dictation.Models.Install.Names.{
  listing, repository_files, kept, skipped, sort_texts, insert_text, lt_text,
}
use local_dictation.Models.Install.Folder.{Disk}
use local_dictation.Models.Whole.{Safe, first_place, install_folder-Safe}
use local_dictation.Models.Found.{Finds, install_folder-Finds}

abbrev whisper_base : Model
whisper_base =
    from_repo (codes "base") (codes "Systran/faster-whisper-base") backend_cpu draft [] (140 * mib)

abbrev world : World
world = record {
  windows = false;
  endpoint = codes "https://huggingface.co";
  make_directory = none;
  listing =
      λ repo. listing 200 (some (codes "model.bin" ∷ codes "../escape" ∷ codes "config.json" ∷ []));
  make_staging = inl (codes ".base.partial-1");
  cancelled = λ i. false;
  fetch = λ url. reply 200 (1 ∷ 2 ∷ 3 ∷ []) false;
  create = λ name. none;
  sync = λ name. none;
  write_sums = none;
  move_aside = none;
  move_in = none;
  move_back = none;
  hash = λ bytes. codes "ab";
  utf8 = λ t. t;
}

abbrev empty : Disk
empty name = none

abbrev files : List Text
files = codes "config.json" ∷ codes "model.bin" ∷ []

file_list : repository_files false (world.listing whisper_base.repo) ≡ inl files
unfolding repository_files kept skipped sort_texts insert_text lt_text is_empty has_prefix contains
    beq
file_list = refl

install_folder-Safe_example :
    Safe world whisper_base empty files
      (codes ".base.partial-1")
      (install_folder world whisper_base (first_place world whisper_base empty))
install_folder-Safe_example =
    install_folder-Safe world whisper_base empty files (codes ".base.partial-1") refl
      (λ e. ground (arith, e)) (λ e. ground (arith, e)) refl file_list

absent : (stat whisper_base empty).installed ≡ false
unfolding stat
absent = refl

install_folder-Finds_example :
    Finds world whisper_base files
      (install_folder world whisper_base (first_place world whisper_base empty))
unfolding weights beq normalise is_empty
install_folder-Finds_example =
    install_folder-Finds world whisper_base empty files (codes ".base.partial-1") refl absent
      (codes "config.json" ∷ [], [], refl) refl (λ e. ground (arith, e)) (λ e. ground (arith, e))
      refl file_list
