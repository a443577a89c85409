-- ===== src/Tests/Waiting.antt =====
-- A server that writes lines and is ready in the third round.
use local_dictation.Prelude.{ℕ, zero, suc, List, [], ◌∷◌, none, some, ◌≡◌, refl, arith, ◌<◌, ◌≢◌}
use local_dictation.Text.{Text, codes, beq}
use local_dictation.Protocol.{korean}
use local_dictation.LocalServer.Log.{write_all, last_of, recent_log_lines}
use local_dictation.LocalServer.Log.Lines.{Written, tail_of_writes}
use local_dictation.LocalServer.Waiting.{
  wrong_server, Round, reply, no_reply, tick, deadline, probe, probe_ready, ready, wait_ready,
  Returns, wait_ready-Returns, ready_is_waited_for,
}

tail_of_writes_example :
    (all : List Text) × Written (codes "loading\n\nwarm\n" ∷ codes "ready\n" ∷ []) all
    × (write_all (codes "loading\n\nwarm\n" ∷ codes "ready\n" ∷ []) []
        ≡ last_of recent_log_lines all)
tail_of_writes_example = tail_of_writes (codes "loading\n\nwarm\n" ∷ codes "ready\n" ∷ [])

abbrev rounds : ℕ → Round
rounds zero = record { answer = no_reply (codes "connection refused"); signal = tick }
rounds (suc zero) = record { answer = reply 503 none; signal = tick }
rounds (suc (suc n)) = record {
  answer = reply 200 (some (codes "ready", codes "ko"));
  signal = deadline;
}

wait_ready-Returns_example : Returns korean rounds 2
wait_ready-Returns_example = wait_ready-Returns korean rounds 2 (λ e. ground (arith, e))

is_ready : probe korean (rounds 2).answer ≡ probe_ready
unfolding probe beq
is_ready = refl

ticking : (k : ℕ) → k < 2 → (rounds k).signal ≡ tick
ticking zero h = refl
ticking (suc zero) h = refl
ticking (suc (suc k)) h = absurd (omega (arith, h))

right : (k : ℕ) (served : Text) → k < 2 → probe korean (rounds k).answer ≢ wrong_server served
unfolding probe
right zero served h e = ground (arith, e)
right (suc zero) served h e = ground (arith, e)
right (suc (suc k)) served h e = absurd (omega (arith, h))

ready_is_waited_for_example : wait_ready korean rounds 9 0 ≡ some ready
ready_is_waited_for_example =
    ready_is_waited_for korean rounds 2 is_ready ticking right 9 (omega arith)
