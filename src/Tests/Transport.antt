-- ===== src/Tests/Transport.antt =====
-- Frames under a toy decoding.
use local_dictation.Prelude.{false, [], ◌∷◌, none, some, ◌≡◌, refl}
use local_dictation.Prelude.Int.{pos}
use local_dictation.Text.{codes, beq}
use local_dictation.Protocol.{Transcript}
use local_dictation.Transport.{
  Json, text_message, closed_normally, decode_server_event, unknown_event, read_loop,
}
use local_dictation.Transport.Frames.{foreign_frames_ignored}

abbrev spoken : Transcript
spoken = record {
  kind = codes "transcript";
  protocol_version = pos 1;
  utterance_id = codes "u1";
  revision = pos 1;
  stable = codes "hello";
  partial = [];
  final = false;
}

-- The document is the kind of the event.
abbrev json : Json
json = record {
  as_envelope = λ raw. some (record { kind = raw; protocol_version = pos 1 });
  as_ready = λ raw. none;
  as_transcript = λ raw. some spoken;
  as_error = λ raw. none;
  as_closed = λ raw. none;
}

unknown_here : decode_server_event json (codes "mood") ≡ unknown_event (codes "mood")
unfolding decode_server_event beq
unknown_here = refl

foreign_frames_ignored_example :
    read_loop json
      (text_message (codes "transcript") ∷ text_message (codes "mood") ∷ closed_normally ∷ [])
    ≡ read_loop json (text_message (codes "transcript") ∷ closed_normally ∷ [])
foreign_frames_ignored_example =
    foreign_frames_ignored json (text_message (codes "transcript") ∷ []) (closed_normally ∷ [])
      (text_message (codes "mood")) (codes "mood", unknown_here)
