-- ===== src/Window/Main/Choice.antt =====
-- What the main tab shows after a choice of the language.
use mathlib.Core.Path.{subst}
use local_dictation.Prelude.{
  Bool, true, false, List, [], Option, none, some, if◌then◌else◌, ◌≡◌, ◌≢◌, ◌⊎◌, inl, inr, refl, ap,
  ◌∙◌, sym, arith, Bool-cases,
}
use local_dictation.Text.{Text, codes, beq}
use local_dictation.Protocol.{Language, korean, english}
use local_dictation.Session.Phase.{Phase, accepts_settings_changes}
use local_dictation.Settings.Config.{Config, hotkey_text}
use local_dictation.Settings.Validate.{Problem, validate}
use local_dictation.Dial.{update_dialer}
use local_dictation.Window.Apply.{App, ApplyError, not_saved, apply_settings, validated, activated}
use local_dictation.Window.Main.{
  MainTab, language_label, language_from_label, language_applied, on_language_changed,
}

-- The two languages, one in force and one chosen.
abbrev pub Other : Language → Language → Type 0
Other from to = ((from ≡ korean) × (to ≡ english)) ⊎ ((from ≡ english) × (to ≡ korean))

label_read : (from to : Language) → Other from to → language_from_label (language_label to) ≡ to
unfolding language_label language_from_label beq
label_read from to (inl (f, t)) =
    subst (λ x. language_from_label (language_label x) ≡ x) (sym t) refl
label_read from to (inr (f, t)) =
    subst (λ x. language_from_label (language_label x) ≡ x) (sym t) refl

korean_label : language_label korean ≡ codes "Korean"
unfolding language_label beq
korean_label = refl

english_label : language_label english ≡ codes "English"
unfolding language_label beq
english_label = refl

labels_differ : (from to : Language) → Other from to → language_label to ≢ language_label from
labels_differ from to (inl (f, t)) h =
    ground (
      arith,
      sym english_label ∙ ap language_label (sym t) ∙ h ∙ ap language_label f ∙ korean_label,
    )
labels_differ from to (inr (f, t)) h =
    ground (
      arith,
      sym korean_label ∙ ap language_label (sym t) ∙ h ∙ ap language_label f ∙ english_label,
    )

activated-settings : (p c : Config) (a : App) → (activated p c a).settings ≡ a.settings
activated-settings p c a = elim (Bool-cases (beq (hotkey_text c.hotkey) (hotkey_text p.hotkey))) [
  | inl e ↦ ground (arith, e)
  | inr e ↦ ground (arith, e)
]

if_true {ℓ} : {A : Type ℓ} (b : Bool) (x y : A) → b ≡ true → (if b then x else y) ≡ x
if_true true x y h = refl
if_true false x y h = absurd (ground (arith, h))

module _ (text_of : ApplyError → Text) (goos : Text) (phase : Phase) (a : App) (m : MainTab)
    (to : Language) (other : Other a.settings.language to)
    (ready : accepts_settings_changes phase ≡ true)
    (valid : validate goos (record a.settings { language = to }) ≡ []) where
  abbrev after_choice : Option Text → Option Text → App × MainTab × Option ApplyError
  after_choice save_err stop_err =
      on_language_changed text_of goos save_err stop_err phase (language_label to) (a, m)

  choice_is_applied :
      (save_err stop_err : Option Text)
      → after_choice save_err stop_err
        ≡ language_applied text_of
            (validated (record a.settings { language = to }) [] save_err stop_err a)
            (record m { language = language_label to })
  unfolding on_language_changed apply_settings
  choice_is_applied save_err stop_err =
      let chosen = record m { language = language_label to } in
      let with : Language → App × MainTab × Option ApplyError = λ l.
        language_applied text_of
          (apply_settings goos (record a.settings { language = l }) save_err stop_err a) chosen in
      if_true (accepts_settings_changes phase) _ _ ready
      ∙ ap with (label_read a.settings.language to other)
      ∙ ap
          (λ (ps : List Problem).
            language_applied text_of
              (validated (record a.settings { language = to }) ps save_err stop_err a) chosen)
          valid

  abbrev Applied : App × MainTab × Option ApplyError → Type 0
  Applied (b, n, err) =
      (err ≡ none) × (b.settings.language ≡ to) × (n.language ≡ language_label b.settings.language)

  abbrev Unsaved : Text → App × MainTab × Option ApplyError → Type 0
  Unsaved e (b, n, err) =
      (err ≡ some (not_saved e))
      × (b.settings ≡ a.settings)
      × (n.language ≢ language_label b.settings.language)

  -- Choosing the other language between two sessions shows and applies it; but where the settings cannot
  -- be saved, the radio group shows the other language while the one in force is unchanged.
  pub unsaved_choice_is_shown :
      (e : Text)
      → (let (b, n, err) = after_choice none none in
          (err ≡ none)
          × (b.settings.language ≡ to)
          × (n.language ≡ language_label b.settings.language))
        × (let (b, n, err) = after_choice (some e) none in
            (err ≡ some (not_saved e))
            × (b.settings ≡ a.settings)
            × (n.language ≢ language_label b.settings.language))
  unsaved_choice_is_shown e =
      let c : Config = record a.settings { language = to } in
      let stored = record a { file = c; settings = c; dialer = update_dialer c a.dialer } in
      (
        subst Applied (sym (choice_is_applied none none))
            (refl, ap (λ (s : Config). s.language) (activated-settings a.settings c stored), refl),
        subst (Unsaved e) (sym (choice_is_applied (some e) none))
            (refl, refl, labels_differ a.settings.language to other),
      )
