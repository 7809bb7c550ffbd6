-- ===== src/AgentCli/Wait/Poll.antt =====
-- The loop that both waits share: ask, and sleep for 500 ms between two questions.
use lp_0008_logos_agent_modu.Base.{
  ℕ, zero, suc, ◌+◌, ◌-◌, ◌*◌, ◌/◌, ◌≤◌, ◌<◌, ◌≡◌, refl, ap, ◌∙◌, ◌⊎◌, inl, inr, Bool, true, false,
  [], ◌∷◌, arith, ltb, if◌then◌else◌, ltb→lt, Bool-cases, Text,
}
use lp_0008_logos_agent_modu.AgentCli.World.Frame.{NoEarlier, Within, IsFrame}
use lp_0008_logos_agent_modu.AgentCli.World.{
  Host, World, Outcome, done, failed, panicked, exhausted, Act, bail, ◌>>◌, sleep,
}

abbrev pub poll_interval_ms : ℕ
poll_interval_ms = 500

-- A loop of `timeout` milliseconds makes no more rounds than this.
abbrev pub fuel_for : ℕ → ℕ
fuel_for timeout = suc (suc (timeout / poll_interval_ms))

-- After a round: `next` is the rest of the loop.
unfoldable pub after_probe : Outcome Bool × World → Act (Unit {0}) → Outcome (Unit {0}) × World
after_probe (done true, w) next = (done tt, w)
after_probe (done false, w) next = (sleep poll_interval_ms >> next) w
after_probe (failed e, w) next = (failed e, w)
after_probe (panicked, w) next = (panicked, w)
after_probe (exhausted, w) next = (exhausted, w)

module _ (probe : Act Bool) (timeout : ℕ) (message : Text) (start : ℕ) where
  unfoldable pub poll_until : ℕ → Act (Unit {0})
  unfolding after_probe
  poll_until zero w = (exhausted, w)
  poll_until (suc f) w =
      let round = after_probe (probe w) (λ w'. poll_until f w') in
      if ltb timeout (w.now_ms - start) then bail message w else round

-- A probe that always gives an answer.
abbrev pub Answers : Act Bool → Type 0
Answers probe = (w : World) → (b : Bool) × ((probe w).0 ≡ done b)

module _ (P : World → Type 0) (timeout : ℕ) (message : Text) (start : ℕ) where
  -- Either the last probe succeeded, or the time is over.
  abbrev pub Ended : Outcome (Unit {0}) × World → Type 0
  Ended r =
      ((r.0 ≡ done tt) × P r.1) ⊎ ((r.0 ≡ failed (message ∷ [])) × (timeout < r.1.now_ms - start))

  after_probe-Ended :
      (r : Outcome Bool × World) (next : Act (Unit {0})) (b : Bool)
      → r.0 ≡ done b
      → (b ≡ true → P r.1)
      → Ended (next (record r.1 { now_ms = r.1.now_ms + 500 }))
      → Ended (after_probe r next)
  unfolding after_probe
  after_probe-Ended (done true, w) next b h p e = inl (refl, p (cc))
  after_probe-Ended (done false, w) next b h p e = e
  after_probe-Ended (failed e', w) next b h p e = absurd (cc)
  after_probe-Ended (panicked, w) next b h p e = absurd (cc)
  after_probe-Ended (exhausted, w) next b h p e = absurd (cc)

  pub poll_until-Ended :
      (probe : Act Bool)
      → Within NoEarlier probe
      → Answers probe
      → ((w : World) → (probe w).0 ≡ done true → P (probe w).1)
      → (f : ℕ) (w : World) → start ≤ w.now_ms
      → 0 < f
      → timeout + 500 < (w.now_ms - start) + 500 * f
      → Ended (poll_until probe timeout message start f w)
  unfolding poll_until
  poll_until-Ended probe adv answers ready zero w h p k = absurd (omega arith)
  poll_until-Ended probe adv answers ready (suc f) w h p k =
      elim (Bool-cases (ltb timeout (w.now_ms - start))) [
        | inl late ↦ rw late (inr (refl, ltb→lt _ _ late))
        | inr early ↦
            let grown = adv.holds w in
            let in_time : w.now_ms - start ≤ timeout = ground arith in
            let (b, answer) = answers w in
            let rest =
              poll_until-Ended probe adv answers ready f
                (record (probe w).1 { now_ms = (probe w).1.now_ms + 500 }) (omega arith)
                (omega arith) (omega arith) in
            rw early
              (after_probe-Ended (probe w) _ b answer (λ e. ready w (answer ∙ ap done e)) rest)
      ]

module _ {host : Host} {R : World → World → Type 0} (fr : IsFrame host R) where
  after_probe-Within :
      (u : World) (r : Outcome Bool × World) (next : Act (Unit {0}))
      → R u r.1
      → ((w : World) → R w (next w).1)
      → R u (after_probe r next).1
  unfolding after_probe
  after_probe-Within u (done true, w) next h k = h
  after_probe-Within u (done false, w) next h k =
      fr.chain u w _ h (fr.chain w _ _ (fr.sleeps 500 w) (k _))
  after_probe-Within u (failed e, w) next h k = h
  after_probe-Within u (panicked, w) next h k = h
  after_probe-Within u (exhausted, w) next h k = h

  loop-Within :
      {probe : Act Bool}
      → Within R probe
      → (timeout : ℕ) (message : Text) (start f : ℕ) (w : World)
      → R w (poll_until probe timeout message start f w).1
  unfolding poll_until
  loop-Within h timeout message start zero w = fr.keep w
  loop-Within {probe} h timeout message start (suc f) w =
      elim (Bool-cases (ltb timeout (w.now_ms - start))) [
        | inl late ↦ rw late (fr.keep w)
        | inr early ↦
            rw early
              (after_probe-Within w (probe w) _ (h.holds w) (loop-Within h timeout message start f))
      ]

  pub poll_until-Within :
      {probe : Act Bool} (timeout : ℕ) (message : Text) (f : ℕ)
      → Within R probe
      → Within R (λ w. poll_until probe timeout message w.now_ms f w)
  poll_until-Within timeout message f h = record {
    holds = λ w. loop-Within h timeout message w.now_ms f w;
  }
