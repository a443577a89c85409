-- ===== src/Transport.antt =====
-- From the frames of the socket to the events of the session: `DecodeServerEvent` of
-- client/internal/protocol/events.go and `readLoop` of client/internal/transport/client.go. What
-- `encoding/json` makes of a document is an argument, and so is what `isNormalClosure` says of an error.
pub mod Frames
pub mod Tls
use local_dictation.Prelude.{
  ℕ, Bool, true, false, not, ◌&&◌, List, [], ◌∷◌, Option, none, some, if◌then◌else◌,
}
use local_dictation.Prelude.Int.{ℤ, pos}
use local_dictation.Text.{Text, codes, beq}
use local_dictation.Protocol.{
  Ready, Transcript, ServerError, Closed, ServerEvent, ready, transcript, error, closed, version,
}
use local_dictation.Settings.Config.{eqb_ℤ}

-- `envelope`
pub record Envelope : Type 0 where
  pub kind : Text
  pub protocol_version : ℤ

-- `json.Unmarshal` into each of the structs.
pub record Json : Type 0 where
  pub as_envelope : Text → Option Envelope
  pub as_ready : Text → Option Ready
  pub as_transcript : Text → Option Transcript
  pub as_error : Text → Option ServerError
  pub as_closed : Text → Option Closed

-- What decoding answers: an event, `ErrUnknownEvent`, or another error.
pub data Decoded : Type 0 where
  decoded : ServerEvent → Decoded
  unknown_event : Text → Decoded
  other_version : ℤ → Decoded
  malformed : Text → Decoded

abbrev pub wrap {ℓ} : {A : Type ℓ} → Text → (A → ServerEvent) → Option A → Decoded
wrap what f none = malformed what
wrap what f (some x) = decoded (f x)

module _ (j : Json) where
  -- The `switch` of `DecodeServerEvent`.
  abbrev pub decode_kind : Text → Text → Decoded
  decode_kind raw kind =
      if beq kind (codes "ready")
      then wrap (codes "ready") ready (j.as_ready raw)
      else if beq kind (codes "transcript")
      then wrap (codes "transcript") transcript (j.as_transcript raw)
      else if beq kind (codes "error")
      then wrap (codes "error") error (j.as_error raw)
      else if beq kind (codes "closed")
      then wrap (codes "closed") closed (j.as_closed raw)
      else unknown_event kind

  abbrev pub decode_head : Text → Option Envelope → Decoded
  decode_head raw none = malformed (codes "envelope")
  decode_head raw (some head) =
      if not (eqb_ℤ head.protocol_version (pos 0)) && not (eqb_ℤ head.protocol_version version)
      then other_version head.protocol_version
      else decode_kind raw head.kind

  -- `DecodeServerEvent`
  unfoldable pub decode_server_event : Text → Decoded
  decode_server_event raw = decode_head raw (j.as_envelope raw)

-- What a read of the socket answers: a text or a binary message, or an error and whether it is a normal
-- closure.
pub data Frame : Type 0 where
  text_message : Text → Frame
  binary_message : Frame
  closed_normally : Frame
  broken : Text → Frame

-- The error that the loop keeps.
pub data ReadError : Type 0 where
  socket : Text → ReadError
  undecodable : Decoded → ReadError

-- The events that are sent on, and the error that is kept when the loop ends. Where the frames run out
-- the loop waits.
pub record Heard : Type 0 where
  pub events : List ServerEvent
  pub ended : Bool
  pub err : Option ReadError

abbrev pub hear : ServerEvent → Heard → Heard
hear e h = record h { events = e ∷ h.events }

abbrev pub stop_with : Option ReadError → Heard
stop_with e = record { events = []; ended = true; err = e }

module _ (j : Json) where
  -- In `readLoop`, after a text message has been decoded.
  abbrev pub heard : Decoded → Heard → Heard
  heard (decoded e) rest = hear e rest
  heard (unknown_event kind) rest = rest
  heard (other_version v) rest = stop_with (some (undecodable (other_version v)))
  heard (malformed what) rest = stop_with (some (undecodable (malformed what)))

  -- `readLoop`
  unfoldable pub read_loop : List Frame → Heard
  read_loop [] = record { events = []; ended = false; err = none }
  read_loop (text_message raw ∷ frames) = heard (decode_server_event j raw) (read_loop frames)
  read_loop (binary_message ∷ frames) = read_loop frames
  read_loop (closed_normally ∷ frames) = stop_with none
  read_loop (broken e ∷ frames) = stop_with (some (socket e))
