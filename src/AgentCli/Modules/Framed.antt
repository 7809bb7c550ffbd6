-- ===== src/AgentCli/Modules/Framed.antt =====
-- `load_all_modules` makes plain steps only, and comes to an end.
use lp_0008_logos_agent_modu.Base.{not, List, [], ◌∷◌, ◌++◌, Text, lit}
use lp_0008_logos_agent_modu.AgentCli.World.{Output, Host, World}
use lp_0008_logos_agent_modu.AgentCli.World.Frame.{
  loads_module, IsFrame, Within, bind-Within, pure-Within, print-Within, output-Within,
  with_context-Within, if-Within, Total, bind-Total, pure-Total, print-Total, output-Total,
  with_context-Total, if-Total,
}
use lp_0008_logos_agent_modu.AgentCli.Modules.{
  report_load, load_module, load_each, load_all_modules, sort_by_key, directory_names,
}

module _ {host : Host} {R : World → World → Type 0} (fr : IsFrame host R) (logoscore : Text) where
  report_load-Within : (name : Text) (o : Output) → Within R (report_load name o)
  unfolding report_load
  report_load-Within name o = if-Within fr (not o.success) (print-Within fr _) (print-Within fr _)

  load_module-Within : (name : Text) → Within R (load_module host logoscore name)
  unfolding load_module
  load_module-Within name = bind-Within fr (print-Within fr _) λ _.
      bind-Within fr (output-Within fr {bin = logoscore} (loads_module name)) λ answer.
        bind-Within fr
          (with_context-Within fr answer (lit "failed to run logoscore load-module " ++ name))
          λ o. report_load-Within name o

  load_each-Within : (names : List Text) → Within R (load_each host logoscore names)
  unfolding load_each
  load_each-Within [] = pure-Within fr tt
  load_each-Within (name ∷ names) =
      bind-Within fr (load_module-Within name) (λ _. load_each-Within names)

  pub load_all_modules-Within : (dir : Text) → Within R (load_all_modules host logoscore dir)
  unfolding load_all_modules
  load_all_modules-Within dir =
      bind-Within fr
        (with_context-Within fr (host.read_dir dir) (lit "cannot read modules_dir: " ++ dir))
        (λ entries. load_each-Within (sort_by_key (directory_names entries)))

module _ (host : Host) (logoscore : Text) where
  report_load-Total : (name : Text) (o : Output) → Total (report_load name o)
  unfolding report_load
  report_load-Total name o = if-Total (not o.success) (print-Total _) (print-Total _)

  load_module-Total : (name : Text) → Total (load_module host logoscore name)
  unfolding load_module
  load_module-Total name = bind-Total (print-Total _) λ _.
      bind-Total (output-Total host (logoscore ∷ lit "load-module" ∷ name ∷ [])) λ answer.
        bind-Total (with_context-Total answer (lit "failed to run logoscore load-module " ++ name))
          λ o. report_load-Total name o

  load_each-Total : (names : List Text) → Total (load_each host logoscore names)
  unfolding load_each
  load_each-Total [] = pure-Total tt
  load_each-Total (name ∷ names) = bind-Total (load_module-Total name) (λ _. load_each-Total names)

  pub load_all_modules-Total : (dir : Text) → Total (load_all_modules host logoscore dir)
  unfolding load_all_modules
  load_all_modules-Total dir =
      bind-Total (with_context-Total (host.read_dir dir) (lit "cannot read modules_dir: " ++ dir))
        (λ entries. load_each-Total (sort_by_key (directory_names entries)))
