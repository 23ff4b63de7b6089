-- ===== src/Agent/Reload.antt =====
-- What a reload of the configuration leaves of the agent.
use replicator.Base.{
  true, Option, none, some, ◌≡◌, refl, ap, ◌∙◌, inl, inr, Option-cases, Result-cases, Bool-cases,
  ok, arith,
}
use mathlib.Core.Option.{some-injective}
use mathlib.Core.Path.{subst}
use replicator.Leader.{Sessions}
use replicator.Config.{Config, Handles}
use replicator.Config.Parse.{Hcl, Outcome, crashed, failing, returned}
use replicator.Config.Load.{Files, AgentFlags, parse_flags}
use replicator.Command.{Clients}
use replicator.Notify.{Services}
use replicator.Server.{Server, Sockets, new_server, shutdown}
use replicator.Agent.{
  Outside, Signal, hangup, Agent, panicking, serving, start_servers, initialize_agent, reload,
  after_shutdown, handle_signal,
}

serving-inj : {H : Handles} {W : Type 0} (a b : Agent H W) → serving a ≡ serving b → a ≡ b
serving-inj a b h = cc

module _ {H : Handles} {W : Type 0} (sessions : Sessions W) (sockets : Sockets H W) where
  -- A stopped server cannot be shut down again.
  shutdown_twice :
      (s : Server H W) (w : W) → s.stopped ≡ true → (shutdown sessions sockets s w).1 ≡ none
  unfolding shutdown
  shutdown_twice s w e = ground (arith, e)

  shutdown_stopped :
      (s s' : Server H W) (w : W) → (shutdown sessions sockets s w).1 ≡ some s' → s'.stopped ≡ true
  unfolding shutdown
  shutdown_stopped s s' w h = ground (arith, h)

  new_server_config :
      (config : Config H W) (w : W) (s : Server H W)
      → (new_server sessions sockets config w).1 ≡ ok s
      → s.config ≡ config
  unfolding new_server
  new_server_config config w s h = ground (arith, h)

module _ {H : Handles} {W : Type 0} (hcl : Hcl H W) (clients : Clients H) (services : Services W)
    (outside : Outside H W) (sessions : Sessions W) (sockets : Sockets H W)
    (flags : Option AgentFlags) where
  start_servers_config :
      (conf : Config H W) (w : W) (s : Server H W)
      → (start_servers hcl clients services outside sessions sockets flags conf w).1 ≡ some s
      → s.config ≡ conf
  unfolding start_servers
  start_servers_config conf w s h = elim (Result-cases (new_server sessions sockets conf w).1) [
    | inl e ↦ absurd (ground (arith, h))
    | inr (server, e) ↦
        elim (Bool-cases (outside.new_http_server conf (new_server sessions sockets conf w).0).1) [
          | inl failure ↦ absurd (ground (arith, h))
          | inr fine ↦
              subst (λ (s : Server H W). s.config ≡ conf)
                (some-injective server s (rw (e, fine, start_servers) at h))
                (new_server_config sessions sockets conf w server e)
        ]
  ]

  -- The agent after a reload: the variable is what it was, and the new server has the old
  -- configuration.
  abbrev IsReloaded : Agent H W → Agent H W → Type 0
  IsReloaded a b = (b.conf ≡ a.conf) × (b.variable ≡ a.variable) × (b.field.config ≡ a.conf)

  reload-IsReloaded :
      (fs : Files) (a b : Agent H W) (w : W)
      → (reload hcl clients services outside sessions sockets flags fs a w).1 ≡ serving b
      → IsReloaded a b
  unfolding reload
  reload-IsReloaded fs a b w h = go (parse_flags hcl fs flags) refl
    where
      started :
          (config : Config H W)
          → parse_flags hcl fs flags ≡ returned config
          → (ready : Config H W)
          → (initialize_agent outside services clients config w).1 ≡ returned ready
          → IsReloaded a b
      started config e ready k =
          let w1 = (initialize_agent outside services clients config w).0 in
          let s = start_servers hcl clients services outside sessions sockets flags a.conf w1 in
          elim (Option-cases s.1) [
            | inl j ↦ absurd (ground (arith, h))
            | inr (server, j) ↦
                let same : (record a { field = server }) ≡ b =
                  serving-inj _ _ (rw (e, k, j, reload) at h) in
                subst (IsReloaded a) same (refl, refl, start_servers_config a.conf w1 server j)
          ]

      initialized :
          (config : Config H W)
          → parse_flags hcl fs flags ≡ returned config
          → (ready : Outcome (Config H W))
          → (initialize_agent outside services clients config w).1 ≡ ready
          → IsReloaded a b
      initialized config e crashed k = absurd (ground (arith, h))
      initialized config e failing k = absurd (ground (arith, h))
      initialized config e (returned ready) k = started config e ready k

      go : (o : Outcome (Config H W)) → parse_flags hcl fs flags ≡ o → IsReloaded a b
      go crashed e = absurd (ground (arith, h))
      go failing e = absurd (ground (arith, h))
      go (returned config) e =
          initialized config e (initialize_agent outside services clients config w).1 refl

  -- A reload that succeeds starts a server with the configuration that the agent was started with,
  -- whatever the files say now, and the next signal, whichever it is, makes the agent panic.
  pub handle_signal_twice :
      (fs : Files) (a b : Agent H W) (w : W)
      → (handle_signal hcl clients services outside sessions sockets flags (hangup fs) a w).1
        ≡ serving b
      → (b.field.config ≡ a.conf)
        × ((signal : Signal) (w' : W)
            → (handle_signal hcl clients services outside sessions sockets flags signal b w').1
              ≡ panicking)
  unfolding handle_signal after_shutdown
  handle_signal_twice fs a b w h =
      let down = shutdown sessions sockets a.variable w in
      elim (Option-cases down.1) [
        | inl e ↦ absurd (ground (arith, h))
        | inr (server, e) ↦
            let closed : Agent H W = record a { variable = server } in
            let (_, same, config) =
              reload-IsReloaded fs closed b (outside.shutdown_http down.0)
                (rw (e, handle_signal) at h) in
            let stopped =
              ap (λ (s : Server H W). s.stopped) same
              ∙ shutdown_stopped sessions sockets a.variable server w e in
            (
              config,
              λ signal w'.
                  rw (shutdown_twice sessions sockets b.variable w' stopped, handle_signal) refl,
            )
      ]
