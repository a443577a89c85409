-- ===== src/Settings/Validity.antt =====
-- What the settings are that `Validate` lets pass.
pub mod Conditions
pub mod Reports
pub mod Modes
use local_dictation.Prelude.{
  ◌*◌, ◌^◌, Bool, true, false, not, ◌&&◌, ◌||◌, List, [], ◌∷◌, ◌++◌, if◌then◌else◌, ◌≡◌, ◌≢◌, ◌⊎◌,
  ◌↔◌, refl, ap, ◌∙◌, inl, inr, arith, Bool-cases, All,
}
use local_dictation.Prelude.Int.{ℤ, pos, ◌≤ℤ◌, eq_of_parts}
use local_dictation.Text.{Text, codes, is_empty, beq, has_prefix, trim_space, trim_prefix}
use local_dictation.Text.Laws.{beq_iff, is_empty_iff, has_prefix-append, append-trim_prefix}
use local_dictation.Protocol.{korean, english, is_language}
use local_dictation.Settings.Backend.{is_backend, supported_on}
use local_dictation.Settings.Gain.{Gain, is_zero, below_half, above_eight, twice}
use local_dictation.Settings.Config.{
  Config, Remote, Local, Updates, mode_local, mode_remote, is_mode, eqb_ℤ,
}
use local_dictation.Settings.Validate.{
  Problem, report, gather, port_problems, remote_problems, local_problems, differ, validate,
}
use local_dictation.Settings.Validity.Conditions.{UsableGain, https, Usable}
use local_dictation.Settings.Validity.Reports.{
  report-nil, report_nothing, not_empty, is_filled, gather-nil, gather_nils,
}
use local_dictation.Settings.Validity.Modes.{mode-Usable, usable_mode}

gain-Usable :
    (g : Gain) → (not (is_zero g) && (below_half g || above_eight g)) ≡ false → UsableGain g
unfolding is_zero below_half above_eight
gain-Usable g h = elim (Bool-cases (is_zero g)) [
  | inl z ↦ inl (eq_of_parts g.mantissa (pos 0) (ground (arith, z)))
  | inr nz ↦ inr (ground (arith, h, nz), ground (arith, h, nz))
]

usable_gain :
    (g : Gain) → UsableGain g → (not (is_zero g) && (below_half g || above_eight g)) ≡ false
unfolding is_zero below_half above_eight
usable_gain g (inl z) = ground (arith, z)
usable_gain g (inr (low, high)) = ground (arith, low, high)

updates-Usable :
    (url key : Text)
    → (not (is_empty url) && not (has_prefix url https)) ≡ false
    → (not (is_empty url) && is_empty key) ≡ false
    → (url ≡ []) ⊎ (((rest : Text) × (url ≡ https ++ rest)) × (key ≢ []))
updates-Usable url key h k = elim (Bool-cases (is_empty url)) [
  | inl e ↦ inl ((is_empty_iff url).0 e)
  | inr ne ↦ inr (
    (trim_prefix url https, append-trim_prefix url https (ground (arith, h, ne))),
    not_empty key (ground (arith, k, ne)),
  )
]

usable_updates :
    (url key : Text)
    → (url ≡ []) ⊎ (((rest : Text) × (url ≡ https ++ rest)) × (key ≢ []))
    → ((not (is_empty url) && not (has_prefix url https)) ≡ false)
      × ((not (is_empty url) && is_empty key) ≡ false)
usable_updates url key (inl e) =
    let empty = (is_empty_iff url).1 e in (ground (arith, empty), ground (arith, empty))
usable_updates url key (inr ((rest, e), k)) =
    let starts : has_prefix url https ≡ true =
      ap (λ s. has_prefix s https) e ∙ has_prefix-append https rest in
    (ground (arith, starts), ground (arith, is_filled key k))

language-Usable : (l : Text) → is_language l ≡ true → (l ≡ korean) ⊎ (l ≡ english)
unfolding is_language
language-Usable l h = elim (Bool-cases (beq l korean)) [
  | inl k ↦ inl ((beq_iff l korean).0 k)
  | inr k ↦ inr ((beq_iff l english).0 (ground (arith, h, k)))
]

usable_language : (l : Text) → (l ≡ korean) ⊎ (l ≡ english) → is_language l ≡ true
unfolding is_language beq
usable_language l (inl e) = rw e refl
usable_language l (inr e) = rw e refl

-- `Validate` reports nothing exactly for settings that can be used: the mode and the language
-- are known and the shortcut has some key; in remote mode there is a host, both ports are given, in range and different, and
-- a client certificate comes with its key; in local mode there is a model, the ports are free or in range
-- and do not collide, threads and minimum speech are in range, and the backend runs on this system; the
-- gain is unset or between a half and eight; and a manifest URL is https and has a key.
pub validate_iff : (goos : Text) (c : Config) → (validate goos c ≡ []) ↔ Usable goos c
unfolding validate
validate_iff goos c = (
  λ e.
      let (mode, (language, (key, (part, (gain, (scheme, (signed, _))))))) = gather-nil _ e in
      record {
        mode = mode-Usable goos c.mode c.remote c.local (ground (arith, report-nil _ _ mode)) part;
        language = language-Usable c.language (ground (arith, report-nil _ _ language));
        key = not_empty _ (report-nil _ _ key);
        gain = gain-Usable _ (report-nil _ _ gain);
        updates = updates-Usable _ _ (report-nil _ _ scheme) (report-nil _ _ signed);
      },
  λ u.
      let (known, part) = usable_mode goos c.mode c.remote c.local u.mode in
      let (scheme, signed) = usable_updates _ _ u.updates in
      gather_nils _ (
        report_nothing _ (ground (arith, known)),
        (
          report_nothing _ (ground (arith, usable_language _ u.language)),
          (
            report_nothing _ (is_filled _ u.key),
            (
              part,
              (
                report_nothing _ (usable_gain _ u.gain),
                (report_nothing _ scheme, (report_nothing _ signed, tt)),
              ),
            ),
          ),
        ),
      ),
)
