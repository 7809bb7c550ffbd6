-- ===== src/AgentCli/Modules/Order.antt =====
-- In which order the modules are loaded, and that each is tried.
use mathlib.Core.Path.{subst}
use lp_0008_logos_agent_modu.Base.{
  ◌≡◌, refl, sym, ap, ◌∙◌, inl, inr, Bool, true, false, not, List, [], ◌∷◌, ◌++◌, map, append-nil,
  append_assoc, arith, Bool-cases, keep_if, All, All-mono, ok, Text, lit, eq_text,
}
use lp_0008_logos_agent_modu.AgentCli.World.Frame.{IsPlain, loads_module}
use lp_0008_logos_agent_modu.AgentCli.World.{
  Output, DirEntry, CommandLine, Host, World, Outcome, done, failed, panicked, exhausted, Act,
  continue,
}
use lp_0008_logos_agent_modu.AgentCli.Modules.{
  load_key, insert_by_key, sort_by_key, report_load, load_module, load_each, load_all_modules,
  directory_names,
}

abbrev is_agent : Text → Bool
is_agent name = eq_text name (lit "agent_module")

-- The other modules in the order of the listing, then the agent module.
abbrev pub agent_last : List Text → List Text
agent_last names = keep_if (λ n. not (is_agent n)) names ++ keep_if is_agent names

insert_first :
    (name : Text) (ns : List Text) → load_key name ≡ 0 → insert_by_key name ns ≡ name ∷ ns
unfolding insert_by_key
insert_first name [] h = refl
insert_first name (n ∷ ns) h = ground arith

insert_agent :
    (name : Text) (others agents : List Text)
    → is_agent name ≡ true
    → All (λ n. is_agent n ≡ false) others
    → All (λ n. is_agent n ≡ true) agents
    → insert_by_key name (others ++ agents) ≡ others ++ name ∷ agents
unfolding insert_by_key
insert_agent name [] [] h ho ha = refl
insert_agent name [] (a ∷ rest) h ho (ka, ha) = rw (h, ka)
insert_agent name (n ∷ ns) agents h (kn, ho) ha =
    rw (h, kn) (ap (λ t. n ∷ t) (insert_agent name ns agents h ho ha))

keep_if-All : (p : Text → Bool) (names : List Text) → All (λ n. p n ≡ true) (keep_if p names)
keep_if-All p [] = tt
keep_if-All p (n ∷ ns) = elim (Bool-cases (p n)) [
  | inl e ↦ rw (e, All) (e, keep_if-All p ns)
  | inr e ↦ rw (e, All) (keep_if-All p ns)
]

keep_if-others :
    (names : List Text) → All (λ n. is_agent n ≡ false) (keep_if (λ n. not (is_agent n)) names)
keep_if-others names =
    All-mono _ _ (λ n h. ground arith) _ (keep_if-All (λ n. not (is_agent n)) names)

-- The stable sort gives the order that is meant.
pub sort_by_key-agent_last : (names : List Text) → sort_by_key names ≡ agent_last names
unfolding sort_by_key
sort_by_key-agent_last [] = refl
sort_by_key-agent_last (n ∷ ns) = rw (sort_by_key-agent_last ns) (elim (Bool-cases (is_agent n)) [
  | inl e ↦
      insert_agent n (keep_if (λ k. not (is_agent k)) ns) (keep_if is_agent ns) e
        (keep_if-others ns) (keep_if-All is_agent ns)
      ∙ rw e
  | inr e ↦ insert_first n (agent_last ns) (rw e) ∙ rw e
])

-- The commands that load modules.
abbrev pub load_commands : Text → List Text → List CommandLine
load_commands logoscore names = map (λ n. logoscore ∷ lit "load-module" ∷ n ∷ []) names

module _ (host : Host) (logoscore : Text) where
  pub load_module-ran :
      (name : Text) (w : World)
      → (load_module host logoscore name w).1.ran
        ≡ w.ran ++ ((logoscore ∷ lit "load-module" ∷ name ∷ []) ∷ [])
  unfolding load_module report_load
  load_module-ran name w = ground arith

  report_load-done : (name : Text) (o : Output) (w : World) → (report_load name o w).0 ≡ done tt
  unfolding report_load
  report_load-done name o w = ground arith

  after_load :
      (names : List Text) (r : Outcome (Unit {0}) × World) {w' : World}
      → continue r (λ _. load_each host logoscore names) ≡ (done tt, w')
      → load_each host logoscore names r.1 ≡ (done tt, w')
  after_load names (done tt, w) h = h
  after_load names (failed e, w) h = absurd (cc)
  after_load names (panicked, w) h = absurd (cc)
  after_load names (exhausted, w) h = absurd (cc)

  load_each-ran :
      (names : List Text) (w : World) {w' : World}
      → load_each host logoscore names w ≡ (done tt, w')
      → w'.ran ≡ w.ran ++ load_commands logoscore names
  unfolding load_each
  load_each-ran [] w {w'} h = rw append-nil (cc)
  load_each-ran (n ∷ ns) w {w'} h =
      load_each-ran ns (load_module host logoscore n w).1
        (after_load ns (load_module host logoscore n w) h)
      ∙ rw load_module-ran (append_assoc w.ran _ _)

pub continue_done :
    {A : Type 0} (r : Outcome (Unit {0}) × World) (f : Unit {0} → Act A)
    → r.0 ≡ done tt
    → continue r f ≡ f tt r.1
continue_done (r, w) f h = subst (λ o. continue (o, w) f ≡ f tt w) (sym h) refl

-- The commands of `logoscore` can be run, whatever they answer.
abbrev pub Runnable : Host → Text → Type 0
Runnable host logoscore =
    (before : List CommandLine) (cmd : CommandLine)
    → IsPlain logoscore cmd
    → (o : Output) × (host.run before cmd ≡ ok o)

module _ (host : Host) (logoscore : Text) (runnable : Runnable host logoscore) where
  load_module-done : (name : Text) (w : World) → (load_module host logoscore name w).0 ≡ done tt
  unfolding load_module
  load_module-done name w =
      let (o, e) = runnable w.ran _ (loads_module name) in
      rw e (report_load-done host logoscore name o _)

  load_each-done : (names : List Text) (w : World) → (load_each host logoscore names w).0 ≡ done tt
  unfolding load_each
  load_each-done [] w = refl
  load_each-done (n ∷ ns) w =
      rw (continue_done (load_module host logoscore n w) _ (load_module-done n w))
        (load_each-done ns _)

  -- If commands can be run and the directory can be listed, `load_all_modules` succeeds, whatever
  -- the exit codes are. It runs one `load-module` for each module directory, in the order of the
  -- listing, but for `agent_module`, which comes last.
  pub load_all_modules_lem :
      (dir : Text) (w : World) {entries : List DirEntry}
      → host.read_dir dir ≡ ok entries
      → ((load_all_modules host logoscore dir w).0 ≡ done tt)
        × ((load_all_modules host logoscore dir w).1.ran
            ≡ w.ran ++ load_commands logoscore (agent_last (directory_names entries)))
  unfolding load_all_modules
  load_all_modules_lem dir w {entries} h =
      let names = agent_last (directory_names entries) in
      let finished = load_each-done names w in
      rw (h, sort_by_key-agent_last)
        (
          finished,
          load_each-ran host logoscore names w
              (λ i. (finished i, (load_each host logoscore names w).1)),
        )
