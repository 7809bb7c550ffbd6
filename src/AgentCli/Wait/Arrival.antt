-- ===== src/AgentCli/Wait/Arrival.antt =====
-- What holds after a polling loop.
use lp_0008_logos_agent_modu.Base.{
  ℕ, zero, suc, ◌+◌, ◌-◌, Bool, true, false, ltb, Bool-cases, inl, inr, Text,
}
use lp_0008_logos_agent_modu.AgentCli.World.{World, Outcome, done, failed, panicked, exhausted, Act}
use lp_0008_logos_agent_modu.AgentCli.World.Goes.{Arrives}
use lp_0008_logos_agent_modu.AgentCli.Wait.Poll.{poll_until, after_probe}

-- A probe keeps a property until it gives a good answer.
module _ (E P Q : World → Type 0) where
  abbrev pub Probed : Outcome Bool × World → Type 0
  Probed (done true, w) = Q w
  Probed (done false, w) = P w
  Probed (failed e, w) = E w
  Probed (panicked, w) = E w
  Probed (exhausted, w) = E w

module _ (E P Q : World → Type 0) (timeout : ℕ) (message : Text) (start : ℕ)
    (weaker : (w : World) → P w → E w)
    (asleep : (w : World) → P w → P (record w { now_ms = w.now_ms + 500 })) where
  after_probe-Arrives :
      (r : Outcome Bool × World) (next : Act (Unit {0}))
      → Probed E P Q r
      → ((w : World) → P w → Arrives E Q (next w))
      → Arrives E Q (after_probe r next)
  unfolding after_probe
  after_probe-Arrives (done true, w) next h k = h
  after_probe-Arrives (done false, w) next h k = k _ (asleep w h)
  after_probe-Arrives (failed e, w) next h k = h
  after_probe-Arrives (panicked, w) next h k = h
  after_probe-Arrives (exhausted, w) next h k = h

  pub poll_until-Arrives :
      (probe : Act Bool)
      → ((w : World) → P w → Probed E P Q (probe w))
      → (f : ℕ) (w : World) → P w
      → Arrives E Q (poll_until probe timeout message start f w)
  unfolding poll_until
  poll_until-Arrives probe h zero w p = weaker w p
  poll_until-Arrives probe h (suc f) w p = elim (Bool-cases (ltb timeout (w.now_ms - start))) [
    | inl late ↦ rw late (weaker w p)
    | inr early ↦ rw early (after_probe-Arrives (probe w) _ (h w p) (poll_until-Arrives probe h f))
  ]
