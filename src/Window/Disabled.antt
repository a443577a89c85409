-- ===== src/Window/Disabled.antt =====
-- `disabledPlatform` of client/internal/ui/app.go, in the place of an adapter that could not be made. It
-- keeps the promises of `Platform`, so that what is proved of the composer holds over it too.
use local_dictation.Prelude.{[], ◌++◌, append-nil, none, some, ◌≡◌, refl, sym, ap, ◌∙◌}
use local_dictation.Text.{Text, codes}
use local_dictation.Input.Platform.{Platform, PlatformLaws, Fault}

-- `disabledPlatform`
abbrev pub disabled_platform : {W : Type 0} → Fault → Platform W
disabled_platform reason = record {
  name = codes "unavailable";
  begin_composition = λ w. (w, some reason);
  set_marked_text = λ t w. (w, some reason);
  commit_text = λ t w. (w, some reason);
  end_composition = λ w. (w, none);
  cancel_composition = λ w. (w, none);
  close = λ w. (w, none);
}

-- The document of the adapter is what stood there at first, and nothing provisional ever stands in it.
abbrev pub Unwritten : Text → Text → Text → Type 0
Unwritten w s m = (w ≡ s) × (m ≡ [])

same : (w s : Text) → w ≡ s → (t : Text) × (n : Text) × Unwritten w (s ++ t) n
same w s e = ([], [], (e ∙ sym (append-nil s), refl))

settled_same : (w s m : Text) → Unwritten w s m → Unwritten w (s ++ m) []
settled_same w s m (e, f) = (e ∙ sym (append-nil s) ∙ ap (λ n. s ++ n) (sym f), refl)

pub disabled-PlatformLaws : (reason : Fault) → PlatformLaws (disabled_platform {W = Text} reason)
disabled-PlatformLaws reason = record {
  Shows = Unwritten;
  begin_lem = λ w s m h. same w s h.0;
  set_marked_lem = λ t w s m h. same w s h.0;
  commit_lem = λ t w s m ne h. same w s h.0;
  end_lem = settled_same;
  cancel_lem = λ w s m h. (h.0, refl);
  close_lem = λ w s m h. same w s h.0;
}
