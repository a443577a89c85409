-- ===== src/Update/Kept.antt =====
-- What a download leaves on the disk.
use mathlib.Core.Path.{subst}
use local_dictation.Prelude.{
  Bool, true, false, not, ◌&&◌, Option, none, some, ltb, ◌==◌, if◌then◌else◌, ◌≡◌, ◌≢◌, ◌⊎◌, refl,
  sym, ◌∙◌, inl, inr, arith, length, take, Bool-cases,
}
use local_dictation.Text.{Text, codes, beq, has_prefix}
use local_dictation.Text.Laws.{beq_iff, beq_refl}
use local_dictation.Update.Manifest.{Bytes, Artifact}
use local_dictation.Update.Download.{
  Disk, store, remove, World, Reply, no_reply, reply, Outcome, equal_fold, limit, sized, installed,
  copied, fetched, prepared, answered, download,
}

-- A download that succeeded: the target holds bytes of the stated hash and size, and no other file has
-- changed but the temporary one.
pub record Installed (w : World) (a : Artifact) (d : Disk) (temporary : Text) (r : Disk)
    (path : Text) : Type 0 where
  pub at : path ≡ w.target
  pub content : Bytes
  pub written : r w.target ≡ some content
  pub hashed : equal_fold (w.hash content) a.sha256 ≡ true
  pub size_right : sized a.size (length content) ≡ true
  pub others : (q : Text) → q ≢ w.target → q ≢ temporary → r q ≡ d q

-- A download by how it ended; a failed one has changed nothing but the temporary file.
abbrev pub Ends : World → Artifact → Disk → Text → Outcome → Type 0
Ends w a d temporary (r, inl path) = Installed w a d temporary r path
Ends w a d temporary (r, inr e) = (q : Text) → q ≢ temporary → r q ≡ d q

module _ (w : World) (a : Artifact) where
  beq_differ : (p q : Text) → p ≢ q → beq p q ≡ false
  beq_differ p q ne = elim (Bool-cases (beq p q)) [
    | inl e ↦ absurd (ne ((beq_iff p q).0 e))
    | inr e ↦ e
  ]

  remove_other : (t q : Text) (d : Disk) → q ≢ t → remove t d q ≡ d q
  remove_other t q d ne = let e = beq_differ q t ne in ground (arith, e)

  store_other : (t q : Text) (content : Bytes) (d : Disk) → q ≢ t → store t content d q ≡ d q
  store_other t q content d ne = let e = beq_differ q t ne in ground (arith, e)

  store_same : (t : Text) (content : Bytes) (d : Disk) → store t content d t ≡ some content
  store_same t content d = ground (arith, beq_refl t)

  Ends-if :
      (b : Bool) (d : Disk) (t : Text) (x y : Outcome)
      → (b ≡ true → Ends w a d t x)
      → (b ≡ false → Ends w a d t y)
      → Ends w a d t (if b then x else y)
  Ends-if true d t x y f g = f refl
  Ends-if false d t x y f g = g refl

  installed-Ends :
      (d e : Disk) (t : Text) (content : Bytes) (r : Option Text)
      → w.target ≢ t
      → equal_fold (w.hash content) a.sha256 ≡ true
      → sized a.size (length content) ≡ true
      → ((q : Text) → q ≢ t → e q ≡ d q)
      → Ends w a d t (installed w a t content e r)
  installed-Ends d e t content (some m) ne hashed fits same =
      λ q other. remove_other t q e other ∙ same q other
  installed-Ends d e t content none ne hashed fits same = record {
    at = refl;
    content = content;
    written =
        remove_other t w.target (store w.target content (remove t e)) ne
        ∙ store_same w.target content (remove t e);
    hashed = hashed;
    size_right = fits;
    others = λ q away other.
        remove_other t q (store w.target content (remove t e)) other
        ∙ store_other w.target q content (remove t e) away
        ∙ remove_other t q e other
        ∙ same q other;
  }

  copied-Ends :
      (d e : Disk) (t : Text) (content : Bytes)
      → w.target ≢ t
      → ((q : Text) → q ≢ t → e q ≡ d q)
      → Ends w a d t (copied w a t content e)
  copied-Ends d e t content ne same =
      Ends-if (not (sized a.size (length content))) d t _ _
        (λ _. λ q other. remove_other t q e other ∙ same q other)
        (λ fits.
          Ends-if (not (equal_fold (w.hash content) a.sha256)) d t _ _
            (λ _. λ q other. remove_other t q e other ∙ same q other)
            (λ hashed.
              installed-Ends d e t content w.rename ne (ground (arith, hashed))
                (ground (arith, fits)) same))

  fetched-Ends :
      (body : Bytes) (broken : Bool) (d : Disk) (t : Text) (c : Text ⊎ Text)
      → w.target ≢ t
      → (c ≡ inl t) ⊎ ((e : Text) × (c ≡ inr e))
      → Ends w a d t (fetched w a body broken d c)
  fetched-Ends body broken d t c ne (inr (e, h)) =
      subst (λ x. Ends w a d t (fetched w a body broken d x)) (sym h) (λ q other. refl)
  fetched-Ends body broken d t c ne (inl h) =
      let content = take (limit a.size) body in
      subst (λ x. Ends w a d t (fetched w a body broken d x)) (sym h)
        (Ends-if (broken && ltb (length body) (limit a.size)) d t _ _
          (λ _.
            λ q other. remove_other t q (store t content d) other ∙ store_other t q content d other)
          (λ _.
            copied-Ends d (store t content d) t content ne
              (λ q other. store_other t q content d other)))

  prepared-Ends :
      (body : Bytes) (broken : Bool) (d : Disk) (t : Text) (m : Option Text)
      → w.target ≢ t
      → (w.create_temporary ≡ inl t) ⊎ ((e : Text) × (w.create_temporary ≡ inr e))
      → Ends w a d t (prepared w a body broken d m)
  prepared-Ends body broken d t (some e) ne h = λ q other. refl
  prepared-Ends body broken d t none ne h = fetched-Ends body broken d t w.create_temporary ne h

  answered-Ends :
      (d : Disk) (t : Text) (r : Reply)
      → w.target ≢ t
      → (w.create_temporary ≡ inl t) ⊎ ((e : Text) × (w.create_temporary ≡ inr e))
      → Ends w a d t (answered w a d r)
  answered-Ends d t (no_reply e) ne h = λ q other. refl
  answered-Ends d t (reply status body broken) ne h =
      Ends-if (status == 200) d t _ _ (λ _. prepared-Ends body broken d t w.make_directory ne h)
        (λ _. λ q other. refl)

  -- A download that succeeds leaves at the target bytes whose hash is the stated one, and whose number
  -- is the stated one where one is stated; a download that fails leaves the target, and every other file
  -- but the temporary one, as it was. The temporary file has another name than the target.
  pub download-Ends :
      (d : Disk) (t : Text)
      → w.target ≢ t
      → (w.create_temporary ≡ inl t) ⊎ ((e : Text) × (w.create_temporary ≡ inr e))
      → Ends w a d t (download w a d)
  unfolding download
  download-Ends d t ne h =
      Ends-if (has_prefix a.url (codes "https://")) d t _ _
        (λ _. answered-Ends d t (w.get a.url) ne h) (λ _. λ q other. refl)
