-- ===== src/AgentCli/World/Frame.antt =====
-- Relations between the worlds before and after an action that all plain steps respect.
use lp_0008_logos_agent_modu.Base.{
  ℕ, List, [], ◌∷◌, lit, ◌≤◌, ◌≡◌, refl, ◌∙◌, Bool, true, false, Option, none, some, arith,
  if◌then◌else◌, Result, ok, err, Text,
}
use lp_0008_logos_agent_modu.AgentCli.World.{
  CommandLine, Host, World, Line, Outcome, done, failed, panicked, exhausted, Act, pure, bail,
  continue, ◌>>=◌, ◌>>◌, with_context, or_panic, print, sleep, output, spawn,
}

-- The commands that the tool runs to their end.
pub data IsPlain (bin : Text) : CommandLine → Type 0 where
  asks_status : IsPlain bin (bin ∷ lit "status" ∷ [])
  loads_module : (name : Text) → IsPlain bin (bin ∷ lit "load-module" ∷ name ∷ [])
  calls :
      (name method : Text) (args : List Text)
      → IsPlain bin (bin ∷ lit "call" ∷ name ∷ method ∷ args)

-- Starting a child, waiting for it and leaking it are no plain steps.
pub record IsFrame (host : Host) (R : World → World → Type 0) : Type 0 where
  pub keep : (w : World) → R w w
  pub chain : (u v w : World) → R u v → R v w → R u w
  pub prints : (line : Line) (w : World) → R w (print line w).1
  pub runs :
      {bin : Text} {cmd : CommandLine} → IsPlain bin cmd → (w : World) → R w (output host cmd w).1
  pub sleeps : (ms : ℕ) (w : World) → R w (sleep ms w).1

-- The clock does not run backwards.
abbrev pub NoEarlier : World → World → Type 0
NoEarlier w v = w.now_ms ≤ v.now_ms

-- No child is started, none is waited for, and none is leaked.
abbrev pub SameChildren : World → World → Type 0
SameChildren w v = (v.spawned ≡ w.spawned) × (v.waited ≡ w.waited) × (v.forgotten ≡ w.forgotten)

module _ (host : Host) where
  pub NoEarlier-IsFrame : IsFrame host NoEarlier
  NoEarlier-IsFrame = record {
    keep = λ w. omega arith;
    chain = λ u v w h k. omega arith;
    prints = λ line w. omega arith;
    runs = λ p w. omega arith;
    sleeps = λ ms w. omega arith;
  }

  pub SameChildren-IsFrame : IsFrame host SameChildren
  SameChildren-IsFrame = record {
    keep = λ w. (refl, refl, refl);
    chain = λ u v w h k. (k.0 ∙ h.0, k.1 ∙ h.1, k.2 ∙ h.2);
    prints = λ line w. (refl, refl, refl);
    runs = λ p w. (refl, refl, refl);
    sleeps = λ ms w. (refl, refl, refl);
  }

-- An action that relates the worlds before and after it.
pub record Within (R : World → World → Type 0) {A : Type 0} (m : Act A) : Type 0 where
  pub holds : (w : World) → R w (m w).1

module _ {host : Host} {R : World → World → Type 0} (fr : IsFrame host R) where
  continue-Within :
      {A B : Type 0} (u : World) (r : Outcome A × World) (f : A → Act B)
      → R u r.1
      → ((a : A) → Within R (f a))
      → R u (continue r f).1
  continue-Within u (done a, w) f h k = fr.chain u w _ h ((k a).holds w)
  continue-Within u (failed e, w) f h k = h
  continue-Within u (panicked, w) f h k = h
  continue-Within u (exhausted, w) f h k = h

  pub bind-Within :
      {A B : Type 0} {m : Act A} {f : A → Act B}
      → Within R m
      → ((a : A) → Within R (f a))
      → Within R (m >>= f)
  bind-Within {m} {f} h k = record { holds = λ w. continue-Within w (m w) f (h.holds w) k }

  pub then-Within :
      {B : Type 0} (m : Act (Unit {0})) (k : Act B) → Within R m → Within R k → Within R (m >> k)
  then-Within m k h l = bind-Within h (λ _. l)

  pub pure-Within : {A : Type 0} (a : A) → Within R (pure a)
  pure-Within a = record { holds = fr.keep }

  pub bail-Within : (A : Type 0) (message : Text) → Within R (bail {A = A} message)
  bail-Within A message = record { holds = fr.keep }

  pub print-Within : (line : Line) → Within R (print line)
  print-Within line = record { holds = fr.prints line }

  pub output-Within :
      {bin : Text} {cmd : CommandLine} → IsPlain bin cmd → Within R (output host cmd)
  output-Within p = record { holds = fr.runs p }

  pub spawn-Within :
      (cmd : CommandLine) → ((w : World) → R w (spawn host cmd w).1) → Within R (spawn host cmd)
  spawn-Within cmd h = record { holds = h }

  pub with_context-Within :
      {A : Type 0} (r : Result A Text) (message : Text) → Within R (with_context r message)
  with_context-Within (ok a) message = record { holds = fr.keep }
  with_context-Within (err e) message = record { holds = fr.keep }

  pub or_panic-Within : {A : Type 0} (o : Option A) → Within R (or_panic o)
  or_panic-Within none = record { holds = fr.keep }
  or_panic-Within (some a) = record { holds = fr.keep }

  pub if-Within :
      {A : Type 0} (b : Bool) {m n : Act A}
      → Within R m
      → Within R n
      → Within R (if b then m else n)
  if-Within true h k = h
  if-Within false h k = k

-- An action that does not run out of fuel.
abbrev pub Returns : {A : Type 0} → Outcome A × World → Type 0
Returns (exhausted, w) = ⊥
Returns (done a, w) = Unit
Returns (failed e, w) = Unit
Returns (panicked, w) = Unit

pub record Total {A : Type 0} (m : Act A) : Type 0 where
  pub ends : (w : World) → Returns (m w)

continue-Returns :
    {A B : Type 0} (r : Outcome A × World) (f : A → Act B)
    → Returns r
    → ((a : A) → Total (f a))
    → Returns (continue r f)
continue-Returns (done a, w) f h k = (k a).ends w
continue-Returns (failed e, w) f h k = h
continue-Returns (panicked, w) f h k = h
continue-Returns (exhausted, w) f h k = h

pub bind-Total :
    {A B : Type 0} {m : Act A} {f : A → Act B} → Total m → ((a : A) → Total (f a)) → Total (m >>= f)
bind-Total {m} {f} h k = record { ends = λ w. continue-Returns (m w) f (h.ends w) k }

pub then-Total : {B : Type 0} (m : Act (Unit {0})) (k : Act B) → Total m → Total k → Total (m >> k)
then-Total m k h l = bind-Total h (λ _. l)

pub pure-Total : {A : Type 0} (a : A) → Total (pure a)
pure-Total a = record { ends = λ w. tt }

pub bail-Total : (A : Type 0) (message : Text) → Total (bail {A = A} message)
bail-Total A message = record { ends = λ w. tt }

pub print-Total : (line : Line) → Total (print line)
print-Total line = record { ends = λ w. tt }

pub output-Total : (host : Host) (cmd : CommandLine) → Total (output host cmd)
output-Total host cmd = record { ends = λ w. tt }

pub spawn-Total : (host : Host) (cmd : CommandLine) → Total (spawn host cmd)
spawn-Total host cmd = record { ends = λ w. tt }

pub with_context-Total :
    {A : Type 0} (r : Result A Text) (message : Text) → Total (with_context r message)
with_context-Total (ok a) message = record { ends = λ w. tt }
with_context-Total (err e) message = record { ends = λ w. tt }

pub or_panic-Total : {A : Type 0} (o : Option A) → Total (or_panic o)
or_panic-Total none = record { ends = λ w. tt }
or_panic-Total (some a) = record { ends = λ w. tt }

pub if-Total :
    {A : Type 0} (b : Bool) {m n : Act A} → Total m → Total n → Total (if b then m else n)
if-Total true h k = h
if-Total false h k = k
