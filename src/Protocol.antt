-- ===== src/Protocol.antt =====
-- The wire contract, client/internal/protocol/events.go: the messages, the error codes and the frame
-- sizes.
use Prim.Native.String.{String}
use local_dictation.Prelude.{ℕ, ◌*◌, ◌/◌, Bool, ◌||◌, ◌++◌, if◌then◌else◌}
use local_dictation.Prelude.Int.{ℤ, pos}
use local_dictation.Text.{Text, codes, beq}

-- `Version`
abbrev pub version : ℤ
version = pos 1

abbrev pub sample_rate : ℕ
sample_rate = 16000

abbrev pub channels : ℕ
channels = 1

abbrev pub bytes_per_sample : ℕ
bytes_per_sample = 2

abbrev pub encoding : Text
encoding = codes "pcm_s16le"

-- `Language` is a string type with two constants.
abbrev pub Language : Type 0
Language = Text

abbrev pub korean : Language
korean = codes "ko"

abbrev pub english : Language
english = codes "en"

-- `Language.Valid`
unfoldable pub is_language : Language → Bool
unfolding beq
is_language l = beq l korean || beq l english

-- `Language.String`
unfoldable pub language_name : Language → Text
unfolding beq
language_name l =
    if beq l korean then codes "Korean" else if beq l english then codes "English" else l

-- `ErrorCode`, a string type.
abbrev pub ErrorCode : Type 0
ErrorCode = Text

-- `ErrorCode.UserMessage`
unfoldable pub user_message : ErrorCode → String
unfolding beq
user_message c =
    if beq c (codes "protocol_unsupported")
    then "The server speaks a different protocol version. Update Local Dictation."
    else if beq c (codes "language_mismatch")
    then "That port serves the other language. Check the ports in Settings."
    else if beq c (codes "server_busy")
    then "The server is busy. Try again in a moment."
    else if beq c (codes "audio_format_invalid")
        || beq c (codes "audio_before_start")
        || beq c (codes "malformed_message")
    then "The server rejected this session. Please report this."
    else if beq c (codes "utterance_too_long")
    then "That was a long stretch without a pause; the sentence was completed for you."
    else if beq c (codes "inference_failed")
    then "The server could not transcribe part of that. Committed text was kept."
    else if beq c (codes "session_timeout")
    then "The session timed out waiting for audio."
    else if beq c (codes "internal_error")
    then "The server hit an internal error."
    else "The server reported an error."

pub record AudioFormat : Type 0 where
  pub encoding : Text
  pub sample_rate : ℕ
  pub channels : ℕ

-- `DefaultAudioFormat`
abbrev pub default_audio_format : AudioFormat
default_audio_format = record {
  encoding = codes "pcm_s16le";
  sample_rate = sample_rate;
  channels = channels;
}

pub record Start : Type 0 where
  pub kind : Text
  pub protocol_version : ℤ
  pub session_id : Text
  pub client_version : Text
  pub language : Language
  pub audio : AudioFormat

-- `NewStart`
abbrev pub new_start : Text → Text → Language → Start
new_start session_id client_version language = record {
  kind = codes "start";
  protocol_version = version;
  session_id = session_id;
  client_version = client_version;
  language = language;
  audio = default_audio_format;
}

pub record Ready : Type 0 where
  pub kind : Text
  pub protocol_version : ℤ
  pub session_id : Text
  pub language : Language
  pub model : Text
  pub server_version : Text

pub record Transcript : Type 0 where
  pub kind : Text
  pub protocol_version : ℤ
  pub utterance_id : Text
  pub revision : ℤ
  pub stable : Text
  pub partial : Text
  pub final : Bool

-- `Transcript.Text`
unfoldable pub hypothesis : Transcript → Text
hypothesis t = t.stable ++ t.partial

pub record ServerError : Type 0 where
  pub kind : Text
  pub protocol_version : ℤ
  pub code : ErrorCode
  pub message : Text
  pub fatal : Bool

pub record Closed : Type 0 where
  pub kind : Text
  pub protocol_version : ℤ
  pub reason : Text

-- `ServerEvent`: exactly one of the four fields of the struct is set.
pub data ServerEvent : Type 0 where
  ready : Ready → ServerEvent
  transcript : Transcript → ServerEvent
  error : ServerError → ServerEvent
  closed : Closed → ServerEvent

-- `FrameBytes`
unfoldable pub frame_bytes : ℕ → ℕ
frame_bytes ms = sample_rate * bytes_per_sample * channels * ms / 1000
