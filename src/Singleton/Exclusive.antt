-- ===== src/Singleton/Exclusive.antt =====
-- While no copy releases its lock, one copy runs at most.
use mathlib.Core.Path.{subst}
use local_dictation.Prelude.{
  ℕ, ◌==◌, ==_iff, Bool, false, Option, none, some, if◌then◌else◌, ◌≡◌, ◌≢◌, inl, inr, refl, sym,
  ap, ◌∙◌, arith, Bool-cases,
}
use local_dictation.Singleton.{
  Copy, outside, opened, holding, removing, System, first_system, put, Event, opens, locks, unlocks,
  removes, dies, open_lock, flock, next_step, Run, finished, after,
}

differ : (q p : ℕ) → q ≢ p → (q == p) ≡ false
differ q p ne = ground (arith, ne)

pub put_same {ℓ} : {A : Type ℓ} (p : ℕ) (x : A) (f : ℕ → A) → put p x f p ≡ x
unfolding put
put_same p x f = ap (λ b. if b then x else f p) ((==_iff p p).1 refl)

pub put_other {ℓ} : {A : Type ℓ} (p q : ℕ) (x : A) (f : ℕ → A) → q ≢ p → put p x f q ≡ f q
unfolding put
put_other {A = A} p q x f ne = ap (λ (b : Bool). if◌then◌else◌ {A = A} b x (f q)) (differ q p ne)

-- Every file that a copy has opened is the one that the name stands for, a copy that runs is in the
-- kernel's table, and none is releasing.
pub record Orderly (s : System) : Type 0 where
  pub here : (p n : ℕ) → s.copies p ≡ opened n → s.path ≡ some n
  pub held : (p n : ℕ) → s.copies p ≡ holding n → (s.path ≡ some n) × (s.locked n ≡ some p)
  pub none_removing : (p : ℕ) → s.copies p ≢ removing

-- Copies end by dying only.
abbrev pub Unreleased : Event → Type 0
Unreleased e = e ≢ unlocks

first-Orderly : Orderly first_system
first-Orderly = record {
  here = λ p n h. absurd (ground (arith, h));
  held = λ p n h. absurd (ground (arith, h));
  none_removing = λ p h. ground (arith, h);
}

-- One copy gets a new place; what holds of the others and of it holds of all.
with_copy :
    (P : Copy → ℕ → Type 0) (p : ℕ) (c : Copy) (copies : ℕ → Copy)
    → P c p
    → ((q : ℕ) → q ≢ p → P (copies q) q)
    → (q : ℕ) → P (put p c copies q) q
with_copy P p c copies new old q = elim (Bool-cases (q == p)) [
  | inl e ↦
      let same : q ≡ p = (==_iff q p).0 e in
      subst (λ k. P (put p c copies k) k) (sym same)
        (subst (λ x. P x p) (sym (put_same p c copies)) new)
  | inr e ↦
      let other : q ≢ p = λ k. ground (arith, e, (==_iff q p).1 k) in
      subst (λ x. P x q) (sym (put_other p q c copies other)) (old q other)
]

-- What `Orderly` says of one copy.
abbrev Fits : Option ℕ → (ℕ → Option ℕ) → Copy → ℕ → Type 0
Fits path locked outside p = Unit
Fits path locked (opened n) p = path ≡ some n
Fits path locked (holding n) p = (path ≡ some n) × (locked n ≡ some p)
Fits path locked removing p = ⊥

Orderly-Fits : (s : System) → ((p : ℕ) → Fits s.path s.locked (s.copies p) p) → Orderly s
Orderly-Fits s f = record {
  here = λ p n h. subst (λ c. Fits s.path s.locked c p) h (f p);
  held = λ p n h. subst (λ c. Fits s.path s.locked c p) h (f p);
  none_removing = λ p h. subst (λ c. Fits s.path s.locked c p) h (f p);
}

Fits-Orderly : (s : System) → Orderly s → (p : ℕ) → Fits s.path s.locked (s.copies p) p
Fits-Orderly s o p = by_copy (s.copies p) refl
  where
    by_copy : (c : Copy) → s.copies p ≡ c → Fits s.path s.locked c p
    by_copy outside h = tt
    by_copy (opened n) h = o.here p n h
    by_copy (holding n) h = o.held p n h
    by_copy removing h = o.none_removing p h

abbrev AllFit : System → Type 0
AllFit s = (q : ℕ) → Fits s.path s.locked (s.copies q) q

abbrev Keeps : Option System → Type 0
Keeps none = Unit
Keeps (some t) = AllFit t

-- A place that fits where there is no file is that of a copy that is not running.
no_file :
    (path : ℕ) (locked : ℕ → Option ℕ) (c : Copy) (q : ℕ)
    → Fits none locked c q
    → Fits (some path) locked c q
no_file path locked outside q h = tt
no_file path locked (opened n) q h = absurd (ground (arith, h))
no_file path locked (holding n) q (h, k) = absurd (ground (arith, h))
no_file path locked removing q h = h

open_lock-AllFit :
    (p : ℕ) (path : Option ℕ) (s : System) → s.path ≡ path → AllFit s → AllFit (open_lock p path s)
open_lock-AllFit p (some n) s e f =
    with_copy (Fits s.path s.locked) p (opened n) s.copies e (λ q _. f q)
open_lock-AllFit p none s e f =
    with_copy (Fits (some s.fresh) s.locked) p (opened s.fresh) s.copies refl (λ q _.
      no_file s.fresh s.locked (s.copies q) q (subst (λ x. Fits x s.locked (s.copies q) q) e (f q)))

-- A change of the kernel's table that leaves the copy's own entry.
relocked :
    (path : Option ℕ) (locked locked' : ℕ → Option ℕ) (c : Copy) (q : ℕ)
    → ((m : ℕ) → locked m ≡ some q → locked' m ≡ some q)
    → Fits path locked c q
    → Fits path locked' c q
relocked path locked locked' outside q k h = tt
relocked path locked locked' (opened n) q k h = h
relocked path locked locked' (holding n) q k (h, l) = (h, k n l)
relocked path locked locked' removing q k h = h

flock-AllFit :
    (p n : ℕ) (l : Option ℕ) (s : System)
    → s.locked n ≡ l
    → s.path ≡ some n
    → AllFit s
    → AllFit (flock p n l s)
flock-AllFit p n (some q) s e h f =
    with_copy (Fits s.path s.locked) p outside s.copies tt (λ q _. f q)
flock-AllFit p n none s e h f =
    with_copy (Fits s.path (put n (some p) s.locked)) p (holding n) s.copies
      (h, put_same n (some p) s.locked)
      (λ q _.
        relocked s.path s.locked (put n (some p) s.locked) (s.copies q) q
          (λ m k.
            put_other n m (some p) s.locked
              (λ same. ground (arith, sym e ∙ ap s.locked (sym same) ∙ k))
            ∙ k)
          (f q))

-- A copy that runs and dies.
died-AllFit :
    (p n : ℕ) (s : System)
    → s.locked n ≡ some p
    → AllFit s
    → AllFit (record s { copies = put p outside s.copies; locked = put n none s.locked })
died-AllFit p n s e f =
    with_copy (Fits s.path (put n none s.locked)) p outside s.copies tt (λ q other.
      relocked s.path s.locked (put n none s.locked) (s.copies q) q
        (λ m k.
          put_other n m none s.locked (λ same. other (ground (arith, sym k ∙ ap s.locked same ∙ e)))
          ∙ k)
        (f q))

next-Keeps :
    (p : ℕ) (e : Event) (c : Copy) (s : System)
    → e ≢ unlocks
    → Fits s.path s.locked c p
    → AllFit s
    → Keeps (next_step p e c s)
unfolding next_step
next-Keeps p opens outside s a h f = open_lock-AllFit p s.path s refl f
next-Keeps p opens (opened n) s a h f = tt
next-Keeps p opens (holding n) s a h f = tt
next-Keeps p opens removing s a h f = tt
next-Keeps p locks outside s a h f = tt
next-Keeps p locks (opened n) s a h f = flock-AllFit p n (s.locked n) s refl h f
next-Keeps p locks (holding n) s a h f = tt
next-Keeps p locks removing s a h f = tt
next-Keeps p unlocks c s a h f = absurd (a refl)
next-Keeps p removes outside s a h f = tt
next-Keeps p removes (opened n) s a h f = tt
next-Keeps p removes (holding n) s a h f = tt
next-Keeps p removes removing s a h f = absurd h
next-Keeps p dies outside s a h f = tt
next-Keeps p dies (opened n) s a h f =
    with_copy (Fits s.path s.locked) p outside s.copies tt (λ q _. f q)
next-Keeps p dies (holding n) s a h f = died-AllFit p n s h.1 f
next-Keeps p dies removing s a h f = absurd h

Run-AllFit : (s t : System) → Run Unreleased s t → AllFit s → AllFit t
Run-AllFit s t (finished _) f = f
Run-AllFit s t (after _ u _ p e allowed h r) f =
    Run-AllFit u t r (subst Keeps h (next-Keeps p e (s.copies p) s allowed (f p) f))

-- From the first start on, and as long as every copy ends by dying and none releases its lock, two
-- copies that run are the same one, however the steps of the copies come.
pub Run-exclusive :
    (s : System) (p q m n : ℕ)
    → Run Unreleased first_system s
    → s.copies p ≡ holding m
    → s.copies q ≡ holding n
    → p ≡ q
Run-exclusive s p q m n r hp hq =
    let o =
      Orderly-Fits s (Run-AllFit first_system s r (Fits-Orderly first_system first-Orderly)) in
    let (path_m, lock_m) = o.held p m hp in
    let (path_n, lock_n) = o.held q n hq in
    let same : m ≡ n = ground (arith, sym path_m ∙ path_n) in
    ground (arith, sym lock_m ∙ ap s.locked same ∙ lock_n)
