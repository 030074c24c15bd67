-- ===== src/Server/Start.antt =====
-- src/main.rs: what holds when the server has started.
use laas_api.Base.{
  ℕ, Never, ◌≡◌, refl, some, ok, >>=-eq-ok, unwrap-ok, unwrap, arith, ap, ◌∙◌, subst,
}
use laas_api.Api.RateLimit.{new}
use laas_api.Chain.{get_chain_tip}
use laas_api.Database.{Database}
use laas_api.Database.Migrations.{
  Store, IsRun, run_migrations, run_migration-IsRun, prepare_migrations_table,
}
use laas_api.Database.Transactions.{Surroundings}
use laas_api.Ln.{Lnd}
use laas_api.Ln.Connection.{Tls, Lightning, IsTrusted, create_node, create_node-ok}
use laas_api.Ln.Connection
use laas_api.Server.{
  Config, Machine, Running, start_server, into_api_limits, seeded, withdrawals_from, deposits_from,
  finished, ln_config,
}
use laas_api.Invoice.Worker

module _ (tls : Tls) (lnd : Lnd) (machine : Machine) (env : ℕ → ℕ → Surroundings) (node : lnd.State)
    (config : Config) (running : Running) where
  -- The steps of the start: the database was found, its migration has run and the development data are in; the node is trusted
  -- by the certificate in the file; the workers go on from the chain tips of the database as it is at
  -- their start; the open invoices were completed; and the routes share the limits of the configuration.
  pub record IsStarted : Type 0 where
    pub store : Store Database
    pub migrated : Store Database
    pub db : Database
    pub connected : machine.connect config.database_url ≡ some store
    pub ran : run_migrations {E = Never} machine.execute machine.migration store ≡ ok migrated
    pub is_migrated : IsRun machine.migration migrated
    pub is_seeded : seeded tls lnd machine migrated.schema ≡ ok db
    pub made : Connection.new tls (ln_config config.lnd) ≡ ok running.state.lightning
    pub endpoint : config.lnd.url ≡ running.state.lightning.endpoint
    pub certificate : tls.read config.lnd.cert_path ≡ some running.state.lightning.cert
    pub trusted : IsTrusted tls running.state.lightning
    pub withdrawals : get_chain_tip config.lnd.first_block db ≡ ok running.withdrawals_tip
    pub deposits :
        get_chain_tip config.lnd.first_block (machine.after_withdrawals db)
        ≡ ok running.deposits_tip
    pub completed :
        finished tls lnd machine
          (Worker.start_worker lnd env node (machine.after_deposits (machine.after_withdrawals db)))
        ≡ ok running.state.db
    pub cash_limits : running.state.cash_limits ≡ into_api_limits config.limits
    pub rate_limit : running.state.rate_limit ≡ new config.rate_limit.limit

  lightning_cert :
      (l : Lightning)
      → Connection.new tls (ln_config config.lnd) ≡ ok l
      → tls.read config.lnd.cert_path ≡ some l.cert
  unfolding Connection.new
  lightning_cert l h =
      let (macaroon, read_macaroon, h₁) =
        >>=-eq-ok (unwrap (tls.read config.lnd.macaroon_path)) _ h in
      let (cert, read_cert, h₂) = >>=-eq-ok (unwrap (tls.read config.lnd.cert_path)) _ h₁ in
      let same : cert ≡ l.cert = ground arith in
      unwrap-ok (tls.read config.lnd.cert_path) cert read_cert ∙ ap some same

  lightning_endpoint :
      (l : Lightning)
      → Connection.new tls (ln_config config.lnd) ≡ ok l
      → config.lnd.url ≡ l.endpoint
  unfolding Connection.new
  lightning_endpoint l h =
      let (macaroon, read_macaroon, h₁) =
        >>=-eq-ok (unwrap (tls.read config.lnd.macaroon_path)) _ h in
      let (cert, read_cert, h₂) = >>=-eq-ok (unwrap (tls.read config.lnd.cert_path)) _ h₁ in
      ground arith

  run_migrations-IsRun :
      (store migrated : Store Database)
      → run_migrations {E = Never} machine.execute machine.migration store ≡ ok migrated
      → IsRun machine.migration migrated
  unfolding run_migrations
  run_migrations-IsRun store migrated h =
      run_migration-IsRun machine.execute machine.migration (prepare_migrations_table store)
        migrated _ refl h

  withdrawals_from-ok :
      (l : Lightning) (db : Database) (tip : ℕ)
      → withdrawals_from tls lnd machine config.lnd.first_block l db ≡ ok tip
      → get_chain_tip config.lnd.first_block db ≡ ok tip
  withdrawals_from-ok l db tip h =
      let (sender, sends, h₁) = >>=-eq-ok (create_node tls l) _ h in
      let (found, at, h₂) = >>=-eq-ok (get_chain_tip config.lnd.first_block db) _ h₁ in
      let (listener, listens, h₃) = >>=-eq-ok (create_node tls l) _ h₂ in at ∙ h₃

  deposits_from-ok :
      (l : Lightning) (db : Database) (tip : ℕ)
      → deposits_from tls lnd machine config.lnd.first_block l db ≡ ok tip
      → get_chain_tip config.lnd.first_block db ≡ ok tip
  deposits_from-ok l db tip h =
      let (found, at, h₁) = >>=-eq-ok (get_chain_tip config.lnd.first_block db) _ h in
      let (listener, listens, h₂) = >>=-eq-ok (create_node tls l) _ h₁ in at ∙ h₂

  pub start_server-IsStarted : start_server tls lnd machine env node config ≡ ok running → IsStarted
  unfolding start_server
  start_server-IsStarted h =
      let (store, connected, h₁) = >>=-eq-ok (unwrap (machine.connect config.database_url)) _ h in
      let (l, made, h₂) = >>=-eq-ok (Connection.new tls (ln_config config.lnd)) _ h₁ in
      let (migrated, ran, h₃) =
        >>=-eq-ok (run_migrations machine.execute machine.migration store) _ h₂ in
      let (db, seeds, h₄) = >>=-eq-ok (seeded tls lnd machine migrated.schema) _ h₃ in
      let (w, w_from, h₅) =
        >>=-eq-ok (withdrawals_from tls lnd machine config.lnd.first_block l db) _ h₄ in
      let (d, d_from, h₆) =
        >>=-eq-ok
          (deposits_from tls lnd machine config.lnd.first_block l (machine.after_withdrawals db)) _
          h₅ in
      let (listener, called, h₇) = >>=-eq-ok (create_node tls l) _ h₆ in
      let (db', completes, h₈) =
        >>=-eq-ok
          (finished tls lnd machine (
            Worker.start_worker lnd env node
              (machine.after_deposits (machine.after_withdrawals db))))
          _ h₇ in
      let lightning : l ≡ running.state.lightning = ground arith in
      let w_same : w ≡ running.withdrawals_tip = ground arith in
      let d_same : d ≡ running.deposits_tip = ground arith in
      let db_same : db' ≡ running.state.db = ground arith in
      record {
        store = store;
        migrated = migrated;
        db = db;
        connected = unwrap-ok (machine.connect config.database_url) store connected;
        ran = ran;
        is_migrated = run_migrations-IsRun store migrated ran;
        is_seeded = seeds;
        made = made ∙ ap ok lightning;
        endpoint = lightning_endpoint l made ∙ ap (λ x. x.endpoint) lightning;
        certificate = lightning_cert l made ∙ ap (λ x. some x.cert) lightning;
        trusted = subst (IsTrusted tls) lightning ((create_node-ok tls l listener).0 called).0;
        withdrawals = withdrawals_from-ok l db w w_from ∙ ap ok w_same;
        deposits = deposits_from-ok l (machine.after_withdrawals db) d d_from ∙ ap ok d_same;
        completed = completes ∙ ap ok db_same;
        cash_limits = ground arith;
        rate_limit = ground arith;
      }

  -- The steps of the start are all that it takes.
  IsStarted-start_server : IsStarted → start_server tls lnd machine env node config ≡ ok running
  unfolding start_server
  IsStarted-start_server r =
      let l = running.state.lightning in
      let connects : create_node tls l
          ≡ ok (record { macaroon = l.macaroon; first_block = l.first_block }) =
        (create_node-ok tls l _).1 (r.trusted, refl) in
      rw
        (
          r.connected,
          r.made,
          r.ran,
          r.is_seeded,
          connects,
          r.withdrawals,
          r.deposits,
          r.completed,
          ← r.cash_limits,
          ← r.rate_limit,
        )
        refl
