-- ===== src/LocalServer/Current/Ensuring.antt =====
-- `Prepare` and `Ensure`.
use mathlib.Core.Path.{subst}
use local_dictation.Prelude.{
  ℕ, Bool, true, false, List, [], ◌∷◌, Option, none, some, if◌then◌else◌, ◌≡◌, ◌⊎◌, refl, ap, ◌∙◌,
  inl, inr, arith, All,
}
use local_dictation.Text.{Text, is_empty, beq}
use local_dictation.Text.Laws.{beq_iff, beq_refl}
use local_dictation.Protocol.{Language}
use local_dictation.LocalServer.Manager.{
  Server, Manager, Resolved, unresolved, resolved, resolve, prepare, find, delete, insert, Answers,
  waited, launched, looked_up, prepared, ensure,
}
use local_dictation.LocalServer.Current.Invariant.{
  IsCurrent, Tidy, Names, delete-All, delete-Tidy, Serves,
}
use local_dictation.LocalServer.Current.Updating.{same}

prepare-Tidy : (r : Resolved) (m : Manager) → Names r → Tidy m → Tidy (prepare r m).0
unfolding prepare
prepare-Tidy r m n t = chosen (is_empty m.python) refl r n
  where
    none_yet : is_empty m.python ≡ true → (m' : Manager) → m'.servers ≡ m.servers → Tidy m'
    none_yet e m' same =
        let gone = same ∙ t.found e in record { current = rw gone tt; found = λ _. gone }

    chosen :
        (b : Bool)
        → is_empty m.python ≡ b
        → (r : Resolved) → Names r
        → Tidy (if b then resolve r m else (m, none)).0
    chosen false e r n = t
    chosen true e (unresolved x) n = t
    chosen true e (resolved python dir) n =
        none_yet e (record m { python = python; server_dir = dir }) refl

find-insert :
    (l : Language) (s : Server) (servers : List (Language × Server))
    → find l (insert l s servers) ≡ some s
unfolding find
find-insert l s servers = ground (arith, beq_refl l)

waited-Tidy :
    (l : Language) (s : Server) (r : Option Text) (m : Manager)
    → is_empty m.python ≡ false
    → IsCurrent m (l, s)
    → Tidy m
    → Tidy (waited l s r m).0 × Serves l (waited l s r m)
waited-Tidy l s (some e) m p c t = (record { current = t.current; found = t.found }, tt)
waited-Tidy l s none m p c t = (
  record {
    current = (c, delete-All (IsCurrent m) l m.servers t.current);
    found = λ e. ground (arith, e, p);
  },
  (find-insert l s m.servers, c),
)

launched-Tidy :
    (l : Language) (a : Answers) (r : ℕ ⊎ Text) (m : Manager)
    → is_empty m.python ≡ false
    → Tidy m
    → Tidy (launched l a r m).0 × Serves l (launched l a r m)
launched-Tidy l a (inr e) m p t = (t, tt)
launched-Tidy l a (inl id) m p t = waited-Tidy l _ a.ready m p refl t

find-All :
    (P : Language × Server → Type 0) (l : Language) (s : Server)
    (servers : List (Language × Server))
    → All P servers
    → find l servers ≡ some s
    → P (l, s)
unfolding find
find-All P l s [] h e = absurd (ground (arith, e))
find-All P l s ((k, t) ∷ rest) (h, hs) e = chosen (beq k l) refl e (find-All P l s rest hs)
  where
    held : Option Server → Server
    held none = t
    held (some u) = u

    chosen :
        (b : Bool)
        → beq k l ≡ b
        → (if b then some t else find l rest) ≡ some s
        → (find l rest ≡ some s → P (l, s))
        → P (l, s)
    chosen false c e f = f e
    chosen true c e f =
        let same_key = (beq_iff k l).0 c in
        let same_server = ap held e in subst P (λ i. (same_key i, same_server i)) h

looked_up-Tidy :
    (l : Language) (a : Answers) (o : Option Server) (m : Manager)
    → is_empty m.python ≡ false
    → find l m.servers ≡ o
    → Tidy m
    → Tidy (looked_up l a o m).0 × Serves l (looked_up l a o m)
looked_up-Tidy l a none m p e t = launched-Tidy l a a.launch m p t
looked_up-Tidy l a (some s) m p e t = chosen (a.exited s.id)
  where
    chosen :
        (b : Bool)
        → Tidy
            (if b
              then launched l a a.launch (record m { servers = delete l m.servers })
              else (m, inl s)).0
          × Serves l (
              if b
              then launched l a a.launch (record m { servers = delete l m.servers })
              else (m, inl s))
    chosen true =
        launched-Tidy l a a.launch (record m { servers = delete l m.servers }) p (delete-Tidy l m t)
    chosen false = (t, (e, find-All (IsCurrent m) l s m.servers t.current e))

prepare-found :
    (r : Resolved) (m : Manager)
    → Names r
    → (prepare r m).1 ≡ none
    → is_empty (prepare r m).0.python ≡ false
unfolding prepare
prepare-found r m n e = chosen (is_empty m.python) refl r n e
  where
    chosen :
        (b : Bool)
        → is_empty m.python ≡ b
        → (r : Resolved) → Names r
        → (if b then resolve r m else (m, none)).1 ≡ none
        → is_empty (if b then resolve r m else (m, none)).0.python ≡ false
    chosen false e r n h = e
    chosen true e (unresolved x) n h = absurd (ground (arith, h))
    chosen true e (resolved python dir) n h = n

prepared-Tidy :
    (l : Language) (a : Answers) (r : Manager × Option Text)
    → Tidy r.0
    → (r.1 ≡ none → is_empty r.0.python ≡ false)
    → Tidy (prepared l a r).0 × Serves l (prepared l a r)
prepared-Tidy l a (m, some e) t f = (t, tt)
prepared-Tidy l a (m, none) t f = looked_up-Tidy l a (find l m.servers) m (f refl) refl t

pub ensure-Tidy :
    (l : Language) (a : Answers) (m : Manager)
    → Names a.resolution
    → Tidy m
    → Tidy (ensure l a m).0 × Serves l (ensure l a m)
unfolding ensure
ensure-Tidy l a m n t =
    prepared-Tidy l a (prepare a.resolution m) (prepare-Tidy a.resolution m n t)
      (prepare-found a.resolution m n)
