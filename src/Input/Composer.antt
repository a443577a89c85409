-- ===== src/Input/Composer.antt =====
-- `Composer` of client/internal/input/composer.go: it turns transcript events into calls of the
-- platform adapter. Each method holds the mutex throughout, so a method is one step.
pub mod Safety
pub mod Steps
pub mod Utterance
pub mod Delivery
pub mod Replay
pub mod Abandon
use local_dictation.Prelude.{
  ℕ, ◌+◌, ◌%◌, ◌^◌, Bool, true, false, not, ◌&&◌, ◌||◌, [], ◌∷◌, Option, none, some, ◌==◌,
  if◌then◌else◌, length,
}
use local_dictation.Prelude.Int.{ℤ, pos, leb_ℤ}
use local_dictation.Text.{Text, codes, is_empty, beq, has_prefix, trim_prefix, trim_right}
use local_dictation.Protocol.{Transcript}
use local_dictation.Input.Platform.{Platform, Call, Fault}

abbrev pub utterance_separator : Text
utterance_separator = codes " "

-- The errors that the methods return; the platform's own is wrapped with what was attempted.
pub data Error : Type 0 where
  stable_prefix_changed : ℕ → Error
  begin_failed commit_failed mark_failed separator_failed cancel_failed end_failed : Fault → Error
  close_failed : Fault → Error

pub record Composer : Type 0 where
  pub utterance_id : Text
  pub committed : Text
  pub last_revision : ℤ
  pub composing : Bool
  pub live_preview : Bool
  pub wrote : Bool
  pub abandoned : Text
  pub stale_discarded : ℕ
  pub utterances_shown : ℕ

-- `NewComposer`
abbrev pub new_composer : Composer
new_composer = record {
  utterance_id = [];
  committed = [];
  last_revision = pos 0;
  composing = false;
  live_preview = false;
  wrote = false;
  abandoned = [];
  stale_discarded = 0;
  utterances_shown = 0;
}

-- The composer and what its platform writes to.
pub record State (W : Type 0) : Type 0 where
  pub composer : Composer
  pub world : W

-- A method changes the state also where it returns an error.
abbrev pub Method : Type 0 → Type 0
Method W = State W → State W × Option Error

-- `n++` on a 64-bit counter.
abbrev pub increment : ℕ → ℕ
increment n = (n + 1) % 2 ^ 64

-- The cutset " \t\n" of `separateLocked`.
abbrev pub is_blank : ℕ → Bool
is_blank c = c == b' ' || c == b'\t' || c == b'\n'

-- The error of a platform call, wrapped.
abbrev pub wrap : (Fault → Error) → Option Fault → Option Error
wrap f none = none
wrap f (some e) = some (f e)

module _ {W : Type 0} where
  abbrev pub continue : Method W → State W × Option Error → State W × Option Error
  continue k (s, none) = k s
  continue k (s, some e) = (s, some e)

  -- `if err := m(); err != nil { return err }`, then the rest.
  infixl 5 ◌>>◌
  abbrev pub ◌>>◌ : Method W → Method W → Method W
  ◌>>◌ m k s = continue k (m s)

  abbrev pub update : (Composer → Composer) → Method W
  update f s = (record s { composer = f s.composer }, none)

  abbrev pub call : Call W → (Fault → Error) → Method W
  call m f s = let (w, r) = m s.world in (record s { world = w }, wrap f r)

  abbrev pub skip : Method W
  skip s = (s, none)

  abbrev pub when : (Composer → Bool) → Method W → Method W
  when test m s = if test s.composer then m s else (s, none)

  -- `SetLivePreview`
  unfoldable pub set_live_preview : Bool → Method W
  set_live_preview on = update (λ c. record c { live_preview = on })

  -- `Reset`
  unfoldable pub reset : Method W
  reset = update (λ c. record c {
    utterance_id = [];
    committed = [];
    abandoned = [];
    last_revision = pos 0;
    composing = false;
    wrote = false;
  })

-- `PlatformName`; the platform may be nil.
unfoldable pub platform_name : {W : Type 0} → Option (Platform W) → Text
platform_name none = codes "none"
platform_name (some p) = p.name

module _ {W : Type 0} (p : Platform W) where
  -- `cancelCompositionLocked`
  unfoldable pub cancel_composition_locked : Method W
  cancel_composition_locked =
      when (λ c. c.composing)
        (update (λ c. record c { composing = false }) >> call p.cancel_composition cancel_failed)

  -- `endCompositionLocked`
  unfoldable pub end_composition_locked : Method W
  end_composition_locked =
      when (λ c. c.composing)
        (update (λ c. record c { composing = false }) >> call p.end_composition end_failed)

  -- `separateLocked`; the separator is not the empty string.
  unfoldable pub separate_locked : Method W
  separate_locked =
      when (λ c. c.wrote)
        (update (λ c. record c { wrote = false })
          >> when (λ c. beq (trim_right is_blank c.committed) c.committed)
              (call (p.commit_text utterance_separator) separator_failed))

  -- In `Apply`, at the first event of an utterance.
  unfoldable pub open_utterance : Transcript → Method W
  open_utterance e =
      when (λ c. not (beq e.utterance_id c.utterance_id))
        (end_composition_locked
          >> update (λ c. record c {
            utterance_id = e.utterance_id;
            committed = [];
            wrote = false;
            utterances_shown = increment c.utterances_shown;
          }))

  -- In `Apply`, when the stable text does not begin with what is committed.
  unfoldable pub refuse : Transcript → Method W
  refuse e s =
      let (s', _) = cancel_composition_locked s in
      (
        record s' {
          composer = record s'.composer {
            abandoned = e.utterance_id;
            committed = [];
            utterance_id = [];
            last_revision = e.revision;
          };
        },
        some (stable_prefix_changed (length s.composer.committed)),
      )

  -- In `Apply`, the composition is started where none is open.
  unfoldable pub begin_locked : Method W
  begin_locked =
      when (λ c. not c.composing)
        (call p.begin_composition begin_failed >> update (λ c. record c { composing = true }))

  -- In `Apply`, the newly stable text is committed.
  unfoldable pub commit_delta : Transcript → Method W
  commit_delta e s =
      let delta = trim_prefix e.stable s.composer.committed in
      if is_empty delta
      then (s, none)
      else (call (p.commit_text delta) commit_failed
            >> update (λ c. record c { committed = e.stable; wrote = true }))
          s

  -- In `Apply`, the volatile tail, which is empty when the preview is off.
  unfoldable pub mark : Transcript → Method W
  mark e s =
      (call (p.set_marked_text (if s.composer.live_preview then e.partial else [])) mark_failed
          >> update (λ c. record c { last_revision = e.revision }))
        s

  -- In `Apply`, what the last event of an utterance adds.
  unfoldable pub seal : Transcript → Method W
  seal e =
      when (λ c. e.final)
        (separate_locked
          >> end_composition_locked
          >> update (λ c. record c { utterance_id = []; committed = [] }))

  unfoldable pub render : Transcript → Method W
  render e s =
      if has_prefix e.stable s.composer.committed
      then (begin_locked >> commit_delta e >> mark e >> seal e) s
      else refuse e s

  -- `Apply`
  unfoldable pub apply : Transcript → Method W
  apply e s =
      if leb_ℤ e.revision s.composer.last_revision
      then update (λ c. record c { stale_discarded = increment c.stale_discarded }) s
      else if not (is_empty e.utterance_id) && beq e.utterance_id s.composer.abandoned
      then update
          (λ c. record c {
            stale_discarded = increment c.stale_discarded;
            last_revision = e.revision;
          })
          s
      else (open_utterance e >> render e) s

  -- `DropPartial`
  unfoldable pub drop_partial : Method W
  drop_partial =
      when (λ c. c.composing)
        (cancel_composition_locked
          >> update
              (λ c. record c { abandoned = c.utterance_id; utterance_id = []; committed = [] }))

  -- `Finish`
  unfoldable pub finish : Method W
  finish s =
      let (s', err) = (end_composition_locked >> separate_locked) s in
      (
        record s' {
          composer = record s'.composer {
            abandoned = s'.composer.utterance_id;
            utterance_id = [];
            committed = [];
          };
        },
        err,
      )

  -- `Close`
  unfoldable pub close : Method W
  close s =
      let (s', _) = when (λ c. c.composing) (call p.cancel_composition cancel_failed) s in
      call p.close close_failed (record s' { composer = record s'.composer { composing = false } })
