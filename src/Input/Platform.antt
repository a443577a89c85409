-- ===== src/Input/Platform.antt =====
-- The interface `Platform` of client/internal/input/composer.go, and what an adapter promises about
-- the document: how the settled and the provisional text change with each call.
use local_dictation.Prelude.{◌++◌, Option, none, some, [], ◌≡◌, ◌≢◌}
use local_dictation.Text.{Text}

-- An error that an adapter returns, by its message.
abbrev pub Fault : Type 0
Fault = Text

-- A call may change the world that the adapter writes to, whether or not it fails.
abbrev pub Call : Type 0 → Type 0
Call W = W → W × Option Fault

pub record Platform (W : Type 0) : Type 0 where
  pub name : Text
  pub begin_composition : Call W
  pub set_marked_text : Text → Call W
  pub commit_text : Text → Call W
  pub end_composition : Call W
  pub cancel_composition : Call W
  pub close : Call W

-- What holds after a call, by how it ended.
abbrev pub Ends {ℓ} : {W : Type 0} → (W → Type ℓ) → (W → Type ℓ) → W × Option Fault → Type ℓ
Ends Good Bad (w, none) = Good w
Ends Good Bad (w, some e) = Bad w

-- `Shows w settled marked`: the document ends in the settled text and then the provisional text.
-- A failed call may leave anything behind the settled text, and never takes any of it away.
pub record PlatformLaws {W : Type 0} (p : Platform W) : Type 1 where
  pub Shows : W → Text → Text → Type 0
  pub begin_lem :
      (w : W) (s m : Text)
      → Shows w s m
      → Ends
          (λ v. Shows v (s ++ m) [])
          (λ v. (t : Text) × (n : Text) × Shows v (s ++ t) n)
          (p.begin_composition w)
  pub set_marked_lem :
      (t : Text) (w : W) (s m : Text)
      → Shows w s m
      → Ends
          (λ v. Shows v s t)
          (λ v. (u : Text) × (n : Text) × Shows v (s ++ u) n)
          (p.set_marked_text t w)
  pub commit_lem :
      (t : Text) (w : W) (s m : Text)
      → t ≢ []
      → Shows w s m
      → Ends
          (λ v. (n : Text) × Shows v (s ++ t) n × (m ≡ [] → n ≡ []))
          (λ v. (u : Text) × (n : Text) × Shows v (s ++ u) n)
          (p.commit_text t w)
  pub end_lem :
      (w : W) (s m : Text)
      → Shows w s m
      → Ends
          (λ v. Shows v (s ++ m) [])
          (λ v. (t : Text) × (n : Text) × Shows v (s ++ t) n)
          (p.end_composition w)
  pub cancel_lem :
      (w : W) (s m : Text)
      → Shows w s m
      → Ends
          (λ v. Shows v s [])
          (λ v. (t : Text) × (n : Text) × Shows v (s ++ t) n)
          (p.cancel_composition w)
  pub close_lem :
      (w : W) (s m : Text) → Shows w s m → (t : Text) × (n : Text) × Shows (p.close w).0 (s ++ t) n
