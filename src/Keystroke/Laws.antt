-- ===== src/Keystroke/Laws.antt =====
-- The emulated composition keeps the laws of the interface `Platform`.
use local_dictation.Prelude.{
  ℕ, ◌-◌, false, [], ◌∷◌, ◌++◌, Option, none, some, ◌==◌, ltb, length, drop, ◌≡◌, refl, arith,
  append-nil, append_assoc, Bool-cases, inl, inr, ◌≢◌, length-append, ap, sym, ◌∙◌,
}
use local_dictation.Text.{Text, beq, is_empty}
use local_dictation.Text.Laws.{beq_iff, is_empty_iff}
use local_dictation.Input.Platform.{PlatformLaws, Call, Fault, Ends}
use local_dictation.Keystroke.{
  Typer, TyperLaws, Keystroke, common_prefix, continue, on_typer, erase, retype, clear, forget,
  begin_composition, set_marked_text, commit_text, end_composition, cancel_composition, close,
  keystroke_platform,
}

abbrev behind : Text → Text → Text
behind s t = drop (length s) t

append-common_prefix_left : (a b : Text) → common_prefix a b ++ behind (common_prefix a b) a ≡ a
unfolding common_prefix
append-common_prefix_left [] b = refl
append-common_prefix_left (c ∷ a) [] = refl
append-common_prefix_left (c ∷ a) (d ∷ b) = ground (arith, append-common_prefix_left a b)

append-common_prefix_right : (a b : Text) → common_prefix a b ++ behind (common_prefix a b) b ≡ b
unfolding common_prefix
append-common_prefix_right [] b = refl
append-common_prefix_right (c ∷ a) [] = refl
append-common_prefix_right (c ∷ a) (d ∷ b) = ground (arith, append-common_prefix_right a b)

length-zero : (m : Text) → length m ≡ 0 → m ≡ []
length-zero [] h = refl
length-zero (c ∷ m) h = absurd (omega arith)

module _ {W : Type 0} {t : Typer W} (laws : TyperLaws t) where
  open laws use {document, type_lem, backspace_lem, close_lem}

  -- The document ends in the settled text and then the provisional text that the composer remembers.
  pub record Shows (k : Keystroke W) (s m : Text) : Type 0 where
    pub shown : document k.world ≡ s ++ m
    pub remembered : k.marked ≡ m

  -- After some characters are taken off the end, or the call has failed.
  erase-Ends :
      (k : Keystroke W) (s m : Text) (n : ℕ)
      → document k.world ≡ s ++ m
      → length m ≡ n
      → Ends
          (λ v. (document v.world ≡ s) × (v.marked ≡ k.marked))
          (λ v. (document v.world ≡ s ++ m) × (v.marked ≡ k.marked))
          (erase t n k)
  erase-Ends k s m n h e =
      ground (arith, backspace_lem n k.world s m h e, length-zero m, append-nil s)

  pub begin-Ends :
      (k : Keystroke W) (s m : Text)
      → Shows k s m
      → Ends
          (λ v. Shows v (s ++ m) [])
          (λ v. (u : Text) × (n : Text) × Shows v (s ++ u) n)
          (begin_composition t k)
  unfolding begin_composition
  begin-Ends k s m h = record { shown = ground (arith, append-nil (s ++ m)); remembered = refl }

  pub end-Ends :
      (k : Keystroke W) (s m : Text)
      → Shows k s m
      → Ends
          (λ v. Shows v (s ++ m) [])
          (λ v. (u : Text) × (n : Text) × Shows v (s ++ u) n)
          (end_composition t k)
  unfolding end_composition
  end-Ends k s m h = record { shown = ground (arith, append-nil (s ++ m)); remembered = refl }

  retype-Ends :
      (k : Keystroke W) (s shared text : Text)
      → document k.world ≡ s ++ shared
      → shared ++ behind shared text ≡ text
      → Ends (λ v. Shows v s text) (λ v. Shows v s shared) (retype t shared text k)
  retype-Ends k s shared text h e = ground (
    arith,
    type_lem (behind shared text) k.world,
    is_empty_iff (behind shared text),
    append_assoc s shared (behind shared text),
    append-nil shared,
  )

  abbrev pub Unsettled : Text → Keystroke W → Type 0
  Unsettled s v = (u : Text) × (n : Text) × Shows v (s ++ u) n

  Shows-Unsettled : (v : Keystroke W) (s m : Text) → Shows v s m → Unsettled s v
  Shows-Unsettled v s m h =
      ([], m, record { shown = ground (arith, append-nil s); remembered = h.remembered })

  -- What a method leaves where its first step has left `P`, or has failed and left the text unsettled.
  continue-Ends :
      (P G : Keystroke W → Type 0) (s : Text) (m : Call (Keystroke W))
      → ((v : Keystroke W) → P v → Ends G (Unsettled s) (m v))
      → (r : Keystroke W × Option Fault) → Ends P (Unsettled s) r
      → Ends G (Unsettled s) (continue m r)
  continue-Ends P G s m next (v, none) h = next v h
  continue-Ends P G s m next (v, some e) h = h

  weaken :
      (G B B' : Keystroke W → Type 0)
      → ((v : Keystroke W) → B v → B' v)
      → (r : Keystroke W × Option Fault) → Ends G B r
      → Ends G B' r
  weaken G B B' bad (v, none) h = h
  weaken G B B' bad (v, some e) h = bad v h

  -- `erase` of a tail of the provisional text.
  abbrev Erased : Text → Keystroke W → Keystroke W → Type 0
  Erased s k v = (document v.world ≡ s) × (v.marked ≡ k.marked)

  erase-Erased :
      (k : Keystroke W) (s m shared tail : Text) (n : ℕ)
      → Shows k s m
      → shared ++ tail ≡ m
      → length tail ≡ n
      → Ends (Erased (s ++ shared) k) (Unsettled s) (erase t n k)
  erase-Erased k s m shared tail n h e len =
      weaken (Erased (s ++ shared) k)
        (λ v. (document v.world ≡ (s ++ shared) ++ tail) × (v.marked ≡ k.marked)) (Unsettled s)
        (λ v (doc, same). Shows-Unsettled v s m (record {
          shown = doc ∙ append_assoc s shared tail ∙ ap (◌++◌ s) e;
          remembered = same ∙ h.remembered;
        }))
        _
        (erase-Ends k (s ++ shared) tail n
          (h.shown ∙ ap (◌++◌ s) (sym e) ∙ sym (append_assoc s shared tail)) len)

  length-behind :
      (shared tail m : Text) → shared ++ tail ≡ m → length tail ≡ length m - length shared
  length-behind shared tail m e = omega (arith, ap length e, length-append shared tail)

  -- Behind any settled text, and with any provisional text `m` shown and remembered, `SetMarkedText`
  -- that succeeds leaves the settled text followed by exactly the new text, shown and remembered; when
  -- it fails, the document still begins with the settled text.
  pub set_marked-Ends :
      (text : Text) (k : Keystroke W) (s m : Text)
      → Shows k s m
      → Ends (λ v. Shows v s text) (Unsettled s) (set_marked_text t text k)
  unfolding set_marked_text
  set_marked-Ends text k s m h = elim (Bool-cases (beq text k.marked)) [
    | inl same ↦ rw same (record {
      shown = ground (arith, beq_iff text k.marked, h.shown, h.remembered);
      remembered = ground (arith, beq_iff text k.marked);
    })
    | inr differ ↦ rw differ (
        let shared = common_prefix k.marked text in
        let tail = behind shared k.marked in
        let split = append-common_prefix_left k.marked text in
        continue-Ends (Erased (s ++ shared) k) (λ v. Shows v s text) s (retype t shared text)
          (λ v p.
            weaken (λ u. Shows u s text) (λ u. Shows u s shared) (Unsettled s)
              (λ u. Shows-Unsettled u s shared) _
              (retype-Ends v s shared text p.0 (append-common_prefix_right k.marked text)))
          _
          (erase-Erased k s m shared tail (length k.marked - length shared) h (split ∙ h.remembered)
            (length-behind shared tail k.marked split)))
  ]

  backspace-Unsettled :
      (k : Keystroke W) (s m : Text)
      → document k.world ≡ s ++ m
      → k.marked ≡ m
      → Ends (Erased s k) (Unsettled s) (on_typer t (t.backspace (length k.marked)) k)
  backspace-Unsettled k s m h e =
      weaken (Erased s k) (λ v. (document v.world ≡ s ++ m) × (v.marked ≡ m)) (Unsettled s)
        (λ v p. Shows-Unsettled v s m (record { shown = p.0; remembered = p.1 })) _
        (ground (arith, backspace_lem (length k.marked) k.world s m h (ap length (sym e))))

  clear-Ends :
      (k : Keystroke W) (s m : Text)
      → Shows k s m
      → Ends (λ v. Shows v s []) (Unsettled s) (clear t k)
  clear-Ends k s m h = elim (Bool-cases (ltb 0 (length k.marked))) [
    | inl more ↦ rw more (
        continue-Ends (Erased s k) (λ v. Shows v s []) s (forget t)
          (λ v p. record { shown = p.0 ∙ sym (append-nil s); remembered = refl }) _
          (backspace-Unsettled k s m h.shown h.remembered))
    | inr empty ↦ rw empty (record {
      shown = h.shown ∙ ap (◌++◌ s) (sym h.remembered ∙ length-zero k.marked (ground arith));
      remembered = length-zero k.marked (ground arith);
    })
  ]

  type-Ends :
      (text : Text) (v : Keystroke W) (s : Text) (P : Text → Type 0)
      → P []
      → Shows v s []
      → Ends
          (λ u. (n : Text) × Shows u (s ++ text) n × P n)
          (Unsettled s)
          (on_typer t (t.type_text text) v)
  type-Ends text v s P p h = go (t.type_text text v.world) (type_lem text v.world)
    where
      go :
          (r : W × Option Fault)
          → Ends (λ w. document w ≡ document v.world ++ text) (λ w. document w ≡ document v.world) r
          → Ends
              (λ u. (n : Text) × Shows u (s ++ text) n × P n)
              (Unsettled s)
              (record v { world = r.0 }, r.1)
      go (w, none) e = (
        [],
        record {
          shown = ground (arith, append-nil s, append-nil (s ++ text), h.shown);
          remembered = h.remembered;
        },
        p,
      )
      go (w, some x) e =
          Shows-Unsettled _ s [] (record { shown = e ∙ h.shown; remembered = h.remembered })

  pub commit-Ends :
      (text : Text) (k : Keystroke W) (s m : Text)
      → text ≢ []
      → Shows k s m
      → Ends
          (λ v. (n : Text) × Shows v (s ++ text) n × (m ≡ [] → n ≡ []))
          (Unsettled s)
          (commit_text t text k)
  unfolding commit_text
  commit-Ends text k s m ne h = elim (Bool-cases (is_empty text)) [
    | inl e ↦ absurd (ne ((is_empty_iff text).0 e))
    | inr e ↦ rw e (
        continue-Ends (λ v. Shows v s [])
          (λ v. (n : Text) × Shows v (s ++ text) n × (m ≡ [] → n ≡ [])) s
          (on_typer t (t.type_text text))
          (λ v. type-Ends text v s (λ n. m ≡ [] → n ≡ []) (λ _. refl)) _ (clear-Ends k s m h))
  ]

  pub cancel-Ends :
      (k : Keystroke W) (s m : Text)
      → Shows k s m
      → Ends (λ v. Shows v s []) (Unsettled s) (cancel_composition t k)
  unfolding cancel_composition
  cancel-Ends k s m h = elim (Bool-cases (length k.marked == 0)) [
    | inl e ↦ rw e (record {
      shown = h.shown ∙ ap (◌++◌ s) (sym h.remembered ∙ length-zero k.marked (ground arith));
      remembered = refl;
    })
    | inr e ↦
        rw (e, h.remembered)
          (go (t.backspace (length m) k.world) (backspace_lem (length m) k.world s m h.shown refl))
  ]
    where
      go :
          (r : W × Option Fault)
          → Ends (λ w. document w ≡ s) (λ w. document w ≡ document k.world) r
          → Ends
              (λ v. Shows v s [])
              (Unsettled s)
              (record { marked = []; open_ = false; world = r.0 }, r.1)
      go (w, none) e = record { shown = e ∙ sym (append-nil s); remembered = refl }
      go (w, some x) e =
          (m, [], record { shown = e ∙ h.shown ∙ sym (append-nil (s ++ m)); remembered = refl })

  pub close-Unsettled : (k : Keystroke W) (s m : Text) → Shows k s m → Unsettled s (close t k).0
  unfolding close
  close-Unsettled k s m h = elim (Bool-cases (ltb 0 (length k.marked))) [
    | inl e ↦
        rw (e, h.remembered)
          (go (t.backspace (length m) k.world) (backspace_lem (length m) k.world s m h.shown refl))
    | inr e ↦ rw e (
        Shows-Unsettled _ s m
          (record { shown = close_lem k.world ∙ h.shown; remembered = h.remembered }))
  ]
    where
      go :
          (r : W × Option Fault)
          → Ends (λ w. document w ≡ s) (λ w. document w ≡ document k.world) r
          → Unsettled s (record { marked = []; open_ = k.open_; world = (t.close r.0).0 })
      go (w, none) e =
          ([], [], record { shown = close_lem w ∙ ground (arith, append-nil s); remembered = refl })
      go (w, some x) e = (
        m,
        [],
        record { shown = close_lem w ∙ e ∙ h.shown ∙ sym (append-nil (s ++ m)); remembered = refl },
      )

  -- The adapter that types and backspaces does to the document what the interface promises: it shows
  -- the settled text and then the provisional text through every call that succeeds, and a call that
  -- fails takes no settled text away; a failed cancellation leaves the provisional text in place.
  unfoldable pub keystroke_laws : PlatformLaws (keystroke_platform t)
  keystroke_laws = record {
    Shows = Shows;
    begin_lem = begin-Ends;
    set_marked_lem = set_marked-Ends;
    commit_lem = commit-Ends;
    end_lem = end-Ends;
    cancel_lem = cancel-Ends;
    close_lem = close-Unsettled;
  }
