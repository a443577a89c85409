-- ===== src/Models/Staged.antt =====
-- What fetching the files of a model does: it fills the staging folder and touches nothing else.
use mathlib.Core.Path.{subst}
use local_dictation.Prelude.{
  ℕ, suc, Bool, true, false, ◌==◌, ==_iff, List, [], ◌∷◌, Option, none, some, if◌then◌else◌, ◌⊎◌,
  inl, inr, ◌≡◌, ◌≢◌, refl, sym, ap, ◌∙◌, arith, All, All-map, Bool-cases, if_cases,
}
use local_dictation.Text.{Text, beq}
use local_dictation.Text.Laws.{beq_iff, beq_refl}
use local_dictation.Update.Manifest.{Bytes}
use local_dictation.Models.Install.{
  Reply, no_reply, reply, World, Trouble, Sums, put_sum, sum_of, synced, copied, created, answered,
  file_url, followed, fetch_files,
}
use local_dictation.Models.Install.Folder.{
  folder, Disk, Place, write, put_entry, with_file, put_file, file_in, beq_differ, put_file_other,
  put_file_same, file_in-put_entry, file_in-put_entry_other,
}

sum_of-put_sum : (name sum : Text) (sums : Sums) → sum_of name (put_sum name sum sums) ≡ sum
sum_of-put_sum name sum [] = ground (arith, beq_refl name)
sum_of-put_sum name sum ((n, s) ∷ rest) =
    ground (arith, beq_refl name, sum_of-put_sum name sum rest)

sum_of-put_sum_other :
    (q name sum : Text) (sums : Sums) → q ≢ name → sum_of q (put_sum name sum sums) ≡ sum_of q sums
sum_of-put_sum_other q name sum [] ne = ground (arith, beq_differ name q (λ e. ne (sym e)))
sum_of-put_sum_other q name sum ((n, s) ∷ rest) ne =
    chosen (beq n name) refl (sum_of-put_sum_other q name sum rest ne)
  where
    chosen :
        (b : Bool)
        → beq n name ≡ b
        → sum_of q (put_sum name sum rest) ≡ sum_of q rest
        → sum_of q (if b then (name, sum) ∷ rest else (n, s) ∷ put_sum name sum rest)
          ≡ sum_of q ((n, s) ∷ rest)
    chosen true e h = ground (
      arith,
      beq_differ name q (λ k. ne (sym k)),
      beq_differ n q (λ k. ne (sym k ∙ (beq_iff n name).0 e)),
    )
    chosen false e h = ground (arith, h)

-- The files, from the last one that was fetched.
abbrev pub onto : List Text → List Text → List Text
onto [] done = done
onto (n ∷ ns) done = onto ns (n ∷ done)

pub All-onto :
    (P : Text → Type 0) (ns done : List Text) → All P (onto ns done) → All P ns × All P done
All-onto P [] done h = (tt, h)
All-onto P (n ∷ ns) done h = let (x, (y, z)) = All-onto P ns (n ∷ done) h in ((y, x), z)

module _ (w : World) (repo : Text) where
  -- A file is the whole body that the repository answered with 200, and its checksum is noted.
  abbrev pub Got : List (Text × Bytes) → Sums → Text → Type 0
  Got files sums n =
      (body : Bytes) × (w.fetch (file_url w repo n) ≡ reply 200 body false)
      × (file_in n files ≡ some body)
      × (sum_of n sums ≡ w.hash body)

module _ (w : World) (repo staging : Text) (d0 : Disk) where
  -- Nothing but the staging folder differs from the directory at the start.
  abbrev pub Away : Disk → Type 0
  Away d = (q : Text) → q ≢ staging → d q ≡ d0 q

  abbrev pub Calm : Place → Type 0
  Calm p = Away p.now × All Away p.past

  pub record Staged (d : Disk) (done : List Text) (sums : Sums) : Type 0 where
    pub files : List (Text × Bytes)
    pub is : d staging ≡ some (folder files)
    pub got : All (Got w repo files sums) done

  abbrev rewritten : Text → Bytes → List (Text × Bytes) → List (Text × Bytes)
  rewritten name body files = put_entry name body (put_entry name [] files)

  Got-same :
      (name : Text) (body : Bytes) (files : List (Text × Bytes)) (sums : Sums)
      → w.fetch (file_url w repo name) ≡ reply 200 body false
      → Got w repo (rewritten name body files) (put_sum name (w.hash body) sums) name
  Got-same name body files sums e = (
    body,
    e,
    file_in-put_entry name body (put_entry name [] files),
    sum_of-put_sum name (w.hash body) sums,
  )

  Got-kept :
      (name : Text) (body : Bytes) (files : List (Text × Bytes)) (sums : Sums)
      → w.fetch (file_url w repo name) ≡ reply 200 body false
      → (n : Text) → Got w repo files sums n
      → Got w repo (rewritten name body files) (put_sum name (w.hash body) sums) n
  Got-kept name body files sums e n (b, fetched, holds, noted) = elim (Bool-cases (beq n name)) [
    | inl same ↦
        subst (Got w repo (rewritten name body files) (put_sum name (w.hash body) sums))
          (sym ((beq_iff n name).0 same)) (Got-same name body files sums e)
    | inr other ↦
        let ne : n ≢ name = λ k. ground (arith, other, (beq_iff n name).1 k) in
        (
          b,
          fetched,
          file_in-put_entry_other n name body (put_entry name [] files) ne
              ∙ file_in-put_entry_other n name [] files ne
              ∙ holds,
          sum_of-put_sum_other n name (w.hash body) sums ne ∙ noted,
        )
  ]

  Away-put :
      (name : Text) (content : Bytes) (d : Disk) → Away d → Away (put_file staging name content d)
  Away-put name content d h q ne = put_file_other staging name q content d ne ∙ h q ne

  Calm-put :
      (name : Text) (content : Bytes) (p : Place)
      → Calm p
      → Calm (write (put_file staging name content p.now) p)
  Calm-put name content p (h, hs) = (Away-put name content p.now h, (h, hs))

  Staged-put :
      (name : Text) (body : Bytes) (d : Disk) (done : List Text) (sums : Sums)
      → w.fetch (file_url w repo name) ≡ reply 200 body false
      → Staged d done sums
      → Staged
          (put_file staging name body (put_file staging name [] d))
          (name ∷ done)
          (put_sum name (w.hash body) sums)
  Staged-put name body d done sums e s = record {
    files = rewritten name body s.files;
    is =
        put_file_same staging name body (put_file staging name [] d)
        ∙ ap (with_file name body) (put_file_same staging name [] d ∙ ap (with_file name []) s.is);
    got = (
      Got-same name body s.files sums e,
      All-map (Got w repo s.files sums) _ (Got-kept name body s.files sums e) done s.got,
    );
  }

  -- After one file.
  abbrev Fetched : Text → List Text → Sums → Place × (Text ⊎ Trouble) → Type 0
  Fetched name done sums (q, inr e) = Calm q
  Fetched name done sums (q, inl sum) = Calm q × Staged q.now (name ∷ done) (put_sum name sum sums)

  -- After all of them.
  abbrev pub FetchedAll : List Text → Place × (Sums ⊎ Trouble) → Type 0
  FetchedAll names (q, inr e) = Calm q
  FetchedAll names (q, inl sums) = Calm q × Staged q.now names sums

  module _ (name : Text) (done : List Text) (sums : Sums) where
    synced-Fetched :
        (body : Bytes) (o : Option Text) (p : Place)
        → Calm p
        → Staged p.now (name ∷ done) (put_sum name (w.hash body) sums)
        → Fetched name done sums (synced w body o p)
    synced-Fetched body none p calm s = (calm, s)
    synced-Fetched body (some k) p calm s = calm

    copied-Fetched :
        (body : Bytes) (broken : Bool) (p : Place)
        → w.fetch (file_url w repo name) ≡ reply 200 body broken
        → Calm p
        → Staged p.now done sums
        → Fetched name done sums
            (copied w staging name body broken (write (put_file staging name [] p.now) p))
    copied-Fetched body true p e calm s =
        Calm-put name body (write (put_file staging name [] p.now) p) (Calm-put name [] p calm)
    copied-Fetched body false p e calm s =
        let emptied = write (put_file staging name [] p.now) p in
        synced-Fetched body (w.sync name) (write (put_file staging name body emptied.now) emptied)
          (Calm-put name body emptied (Calm-put name [] p calm))
          (Staged-put name body p.now done sums e s)

    created-Fetched :
        (body : Bytes) (broken : Bool) (o : Option Text) (p : Place)
        → w.fetch (file_url w repo name) ≡ reply 200 body broken
        → Calm p
        → Staged p.now done sums
        → Fetched name done sums (created w staging name body broken o p)
    created-Fetched body broken (some k) p e calm s = calm
    created-Fetched body broken none p e calm s = copied-Fetched body broken p e calm s

    answered-Fetched :
        (r : Reply) (p : Place)
        → w.fetch (file_url w repo name) ≡ r
        → Calm p
        → Staged p.now done sums
        → Fetched name done sums (answered w staging name r p)
    answered-Fetched (no_reply k) p e calm s = calm
    answered-Fetched (reply status body broken) p e calm s =
        if_cases (Fetched name done sums) (status == 200) _ _
          (λ ok.
            created-Fetched body broken (w.create name) p
              (e ∙ ap (λ c. reply c body broken) ((==_iff status 200).0 ok)) calm s)
          (λ _. calm)

  -- The loop fetches every file in full, or stops with an error; until then, and after, only the
  -- staging folder is touched.
  pub fetch_files-FetchedAll :
      (names done : List Text) (i : ℕ) (sums : Sums) (p : Place)
      → Calm p
      → Staged p.now done sums
      → FetchedAll (onto names done) (fetch_files w repo staging names i sums p)
  fetch_files-FetchedAll [] done i sums p calm s = (calm, s)
  fetch_files-FetchedAll (name ∷ names) done i sums p calm s =
      if_cases (FetchedAll (onto names (name ∷ done))) (w.cancelled i) _ _ (λ _. calm)
        (λ _.
          next (answered w staging name (w.fetch (file_url w repo name)) p)
            (answered-Fetched name done sums _ p refl calm s)
            (λ sum q c t.
              fetch_files-FetchedAll names (name ∷ done) (suc i) (put_sum name sum sums) q c t))
    where
      next :
          (a : Place × (Text ⊎ Trouble))
          → Fetched name done sums a
          → ((sum : Text) (q : Place)
              → Calm q
              → Staged q.now (name ∷ done) (put_sum name sum sums)
              → FetchedAll
                  (onto names (name ∷ done))
                  (fetch_files w repo staging names (suc i) (put_sum name sum sums) q))
          → FetchedAll (onto names (name ∷ done)) (
              followed w name
                (λ sum q. fetch_files w repo staging names (suc i) (put_sum name sum sums) q)
                a)
      next (q, inr e) h f = h
      next (q, inl sum) (c, t) f = f sum q c t
