-- ===== src/AgentCli/Wait/Liveness.antt =====
-- The two waits succeed once the daemon answers.
use lp_0008_logos_agent_modu.Base.{
  ℕ, sym, append-nil, append_assoc, ◌++◌, zero, suc, ◌+◌, ◌-◌, ◌*◌, ◌≤◌, ◌<◌, ◌≡◌, refl, ap, ◌∙◌,
  inl, inr, Bool, true, false, List, [], ◌∷◌, arith, ltb, Bool-cases, Text, lit,
}
use lp_0008_logos_agent_modu.AgentCli.World.{
  CommandLine, Host, World, Outcome, done, failed, panicked, exhausted, Act,
}
use lp_0008_logos_agent_modu.AgentCli.Wait.{
  says_running, probe_capability, wait_for_capability, wait_for_daemon,
}
use lp_0008_logos_agent_modu.AgentCli.Wait.Guarantees.{accepted, meta_status_call, probe_daemon_lem}
use lp_0008_logos_agent_modu.AgentCli.Wait.Poll.{fuel_for, poll_until, after_probe}

-- One round less of the time that is left.
in_time :
    (timeout start d k i now later : ℕ)
    → k ≡ suc i
    → later ≤ now + d + 500
    → (now - start) + k * (d + 500) ≤ timeout
    → (later - start) + i * (d + 500) ≤ timeout
in_time timeout start d k i now later e h t =
    let one_more : k * (d + 500) ≡ d + 500 + i * (d + 500) = rw e (omega arith) in omega arith

-- `J m w` says that `m` rounds were made and what holds of the world then.
module _ (probe : Act Bool) (timeout : ℕ) (message : Text) (start d n : ℕ) (J : ℕ → World → Type 0)
    (round : (m : ℕ) (w : World)
      → J m w
      → (b : Bool) × ((probe w).0 ≡ done b)
        × ((probe w).1.now_ms ≤ w.now_ms + d)
        × J (suc m) (probe w).1)
    (asleep : (m : ℕ) (w : World) → J m w → J m (record w { now_ms = w.now_ms + 500 }))
    (ready : (m : ℕ) (w : World) → J m w → n ≤ m → (probe w).0 ≡ done true) where
  after_probe-done :
      (k m : ℕ) (w : World) (r : Outcome Bool × World) (next : Act (Unit {0}))
      → (b : Bool) × (r.0 ≡ done b) × (r.1.now_ms ≤ w.now_ms + d) × J (suc m) r.1
      → (k ≡ 0 → r.0 ≡ done true)
      → ((i : ℕ) (v : World)
          → k ≡ suc i
          → J (suc m) v
          → v.now_ms ≤ w.now_ms + d + 500
          → (next v).0 ≡ done tt)
      → (after_probe r next).0 ≡ done tt
  unfolding after_probe
  after_probe-done k m w (done true, v) next h last more = refl
  after_probe-done zero m w (done false, v) next h last more =
      let again : done false ≡ done true = last refl in absurd (cc)
  after_probe-done (suc k) m w (done false, v) next (b, e, t, j) last more =
      more k (record v { now_ms = v.now_ms + 500 }) refl (asleep (suc m) v j) (omega arith)
  after_probe-done k m w (failed e', v) next (b, e, t, j) last more = absurd (cc)
  after_probe-done k m w (panicked, v) next (b, e, t, j) last more = absurd (cc)
  after_probe-done k m w (exhausted, v) next (b, e, t, j) last more = absurd (cc)

  pub poll_until-done :
      (k f m : ℕ) (w : World)
      → J m w
      → n ≤ m + k
      → k < f
      → (w.now_ms - start) + k * (d + 500) ≤ timeout
      → (poll_until probe timeout message start f w).0 ≡ done tt
  unfolding poll_until
  poll_until-done k zero m w j h l t = absurd (omega arith)
  poll_until-done k (suc f) m w j h l t = elim (Bool-cases (ltb timeout (w.now_ms - start))) [
    | inl late ↦ absurd (ground arith)
    | inr early ↦ rw early (
        after_probe-done k m w (probe w) _ (round m w j) (λ z. ready m w j (omega arith))
          (λ i v e j' s.
            poll_until-done i f (suc m) v j' (omega arith) (omega arith)
              (in_time timeout start d k i w.now_ms v.now_ms e s t)))
  ]

-- The timeouts leave fuel for all rounds.
enough_fuel : (timeout k d : ℕ) → k * (d + 500) ≤ timeout → k < fuel_for timeout
enough_fuel timeout k d h = let all : k * (d + 500) ≡ k * d + k * 500 = omega arith in omega arith

module _ (host : Host) (logoscore : Text) where
  abbrev pub status_command : CommandLine
  status_command = logoscore ∷ lit "status" ∷ []

  -- `m` times `status`.
  unfoldable pub polls : ℕ → List CommandLine
  polls zero = []
  polls (suc m) = polls m ++ (status_command ∷ [])

  -- If `status` prints `"running"` after it was asked `n` times, and so many rounds fit into the 30
  -- seconds, then `wait_for_capability` succeeds.
  pub wait_for_capability_ready :
      (n d : ℕ) (w : World)
      → ((m : ℕ) → host.duration_ms (w.ran ++ polls m) status_command ≤ d)
      → ((m : ℕ) → n ≤ m → says_running (host.run (w.ran ++ polls m) status_command) ≡ true)
      → n * (d + 500) ≤ 30_000
      → (wait_for_capability host logoscore w).0 ≡ done tt
  unfolding wait_for_capability probe_capability polls
  wait_for_capability_ready n d w quick up t =
      poll_until-done (probe_capability host logoscore) 30_000 _ w.now_ms d n
        (λ m v. v.ran ≡ w.ran ++ polls m)
        (λ m v j. (
          says_running (host.run v.ran status_command),
          refl,
          rw j (omega (arith, quick m)),
          rw j (append_assoc w.ran (polls m) _),
        ))
        (λ m v j. j) (λ m v j h. rw j (ap done (up m h))) n _ 0 w (sym (append-nil w.ran))
        (omega arith) (enough_fuel 30_000 n d t) (omega arith)

  after_good :
      (r : Outcome Bool × World) (next : Act (Unit {0}))
      → r.0 ≡ done true
      → (after_probe r next).0 ≡ done tt
  unfolding after_probe
  after_good (done true, v) next h = refl
  after_good (done false, v) next h = absurd (cc)
  after_good (failed e, v) next h = absurd (cc)
  after_good (panicked, v) next h = absurd (cc)
  after_good (exhausted, v) next h = absurd (cc)

  -- If `meta_status` is answered well at once, `wait_for_daemon` succeeds.
  pub wait_for_daemon_ready :
      (w : World)
      → accepted (host.run w.ran (meta_status_call host logoscore)) ≡ true
      → (wait_for_daemon host logoscore w).0 ≡ done tt
  unfolding wait_for_daemon poll_until
  wait_for_daemon_ready w good =
      let early : ltb 60_000 (w.now_ms - w.now_ms) ≡ false = ground arith in
      rw early (after_good _ _ ((probe_daemon_lem host logoscore w).0 ∙ ap done good))
