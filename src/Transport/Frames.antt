-- ===== src/Transport/Frames.antt =====
-- What one frame among others changes.
use local_dictation.Prelude.{List, [], ◌∷◌, ◌++◌, ◌≡◌, refl, ap}
use local_dictation.Text.{Text}
use local_dictation.Transport.{
  Json, unknown_event, decode_server_event, Frame, text_message, binary_message, closed_normally,
  broken, heard, read_loop,
}

module _ (j : Json) where
  -- A binary message, or an event that this version does not know.
  abbrev pub IsForeign : Frame → Type 0
  IsForeign (text_message raw) = (kind : Text) × (decode_server_event j raw ≡ unknown_event kind)
  IsForeign binary_message = Unit
  IsForeign closed_normally = ⊥
  IsForeign (broken e) = ⊥

  foreign-here :
      (f : Frame) (frames : List Frame)
      → IsForeign f
      → read_loop j (f ∷ frames) ≡ read_loop j frames
  unfolding read_loop
  foreign-here (text_message raw) frames (kind, e) = ap (λ d. heard j d (read_loop j frames)) e
  foreign-here binary_message frames h = refl
  foreign-here closed_normally frames h = absurd h
  foreign-here (broken e) frames h = absurd h

  same_front :
      (before : List Frame) (xs ys : List Frame)
      → read_loop j xs ≡ read_loop j ys
      → read_loop j (before ++ xs) ≡ read_loop j (before ++ ys)
  unfolding read_loop
  same_front [] xs ys h = h
  same_front (text_message raw ∷ before) xs ys h =
      ap (heard j (decode_server_event j raw)) (same_front before xs ys h)
  same_front (binary_message ∷ before) xs ys h = same_front before xs ys h
  same_front (closed_normally ∷ before) xs ys h = refl
  same_front (broken e ∷ before) xs ys h = refl

  -- The loop hears the same with and without a binary message, or an event of a kind that this version
  -- does not know, anywhere among the frames.
  pub foreign_frames_ignored :
      (before after : List Frame) (f : Frame)
      → IsForeign f
      → read_loop j (before ++ f ∷ after) ≡ read_loop j (before ++ after)
  foreign_frames_ignored before after f h =
      same_front before (f ∷ after) after (foreign-here f after h)
