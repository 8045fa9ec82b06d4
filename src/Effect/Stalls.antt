-- ===== src/Effect/Stalls.antt =====
-- Runs in which Finish of a stream may never be answered: gRPC answers it when the server ends the stream.
use etcdv3client.Prelude.{ℕ, ◌≡◌, refl, Bool, false, if◌then◌else◌}
use etcdv3client.Effect.{Call, Prog, ret, call, out_of_fuel, finish}
use etcdv3client.Effect.Logic.{Model}
use etcdv3client.Effect.Run.{Environment, Outcome, returned, starved, blocked, run, Returns}

module _ (m : Model) (e : Environment m) (stalls : ℕ → m.State → e.W → Bool) where
  -- Finish of the stream may stall, any other call is answered.
  abbrev pub is_stalled : Call → m.State → e.W → Bool
  is_stalled (finish stream) s w = stalls stream s w
  is_stalled _ s w = false

  unfoldable pub run_stalling : {A : Type 0} → Prog A → m.State → e.W → Outcome A m.State
  run_stalling (ret a) s w = returned a s
  run_stalling (call c k) s w =
      let rest =
        run_stalling (k (e.answer c s w)) (m.observe c (e.answer c s w) s) (e.advance c s w) in
      if is_stalled c s w then blocked else rest
  run_stalling out_of_fuel s w = starved

  -- The server ends every stream that Finish is called of.
  abbrev pub EndsStreams : Type 0
  EndsStreams = (stream : ℕ) (s : m.State) (w : e.W) → stalls stream s w ≡ false

  is_stalled-EndsStreams :
      EndsStreams → (c : Call) (s : m.State) (w : e.W) → is_stalled c s w ≡ false
  is_stalled-EndsStreams ends (finish stream) s w = ends stream s w
  is_stalled-EndsStreams ends _ s w = refl

  -- Then a run returns that returns where Finish is always answered.
  pub Returns-stalling :
      {A : Type 0} (Q : A → m.State → Type 0)
      → EndsStreams
      → (p : Prog A) (s : m.State) (w : e.W) → Returns Q (run m e p s w)
      → Returns Q (run_stalling p s w)
  unfolding run run_stalling
  Returns-stalling Q ends (ret a) s w h = h
  Returns-stalling Q ends (call c k) s w h = rw (is_stalled-EndsStreams ends c s w) (
      Returns-stalling Q ends (k (e.answer c s w)) (m.observe c (e.answer c s w) s)
        (e.advance c s w) h)
  Returns-stalling Q ends out_of_fuel s w h = h
