-- ===== src/Server/Ready.antt =====
-- src/main.rs: the state in which the server has started, in terms of the configuration, the files and
-- the database.
use laas_api.Base.{ℕ, ◌≡◌, none, some, [], ◌∷◌, List}
use laas_api.Int.{ℤ, IsI64, scale}
use laas_api.Chain.Tips.{IsTip}
use laas_api.CashLimits.{CashLimits}
use laas_api.Database.{Database, Uuid}
use laas_api.Database.Migrations.{Store, IsRun}
use laas_api.Database.Transactions.{Surroundings}
use laas_api.Ln.{Lnd}
use laas_api.Ln.Connection.{Tls}
use laas_api.Server.{Config, LimitsConfig, Machine, Running}

-- Limits in millisatoshis that are three amounts in satoshis.
pub record AreLimits (limits : CashLimits) (min max daily : ℤ) : Type 0 where
  pub min_limit : limits.min ≡ scale 1000 min
  pub max_limit : limits.max ≡ scale 1000 max
  pub daily_limit : limits.daily ≡ scale 1000 daily

-- The limits fit into `i64` in millisatoshis.
pub record AreInRange (c : LimitsConfig) : Type 0 where
  pub payment_min : IsI64 (scale 1000 c.payment_min_sats)
  pub payment_max : IsI64 (scale 1000 c.payment_max_sats)
  pub payment_daily : IsI64 (scale 1000 c.payment_daily_sats)
  pub invoice_min : IsI64 (scale 1000 c.invoice_min_sats)
  pub invoice_max : IsI64 (scale 1000 c.invoice_max_sats)
  pub invoice_daily : IsI64 (scale 1000 c.invoice_daily_sats)

module _ (tls : Tls) (lnd : Lnd) (machine : Machine) (env : ℕ → ℕ → Surroundings) (node : lnd.State)
    (config : Config) (running : Running) where
  -- The file of the certificate has one certificate, and the endpoint presents that one alone; the
  -- migration has run on a store; the workers go on from the highest block of the outputs, in the store
  -- as it is when each starts, or from the configured first block; the routes have the configured
  -- limits; and no request has been counted.
  pub record IsReady : Type 0 where
    pub file : List ℕ
    pub cert : tls.Certificate
    pub store : Store Database
    pub db : Database
    pub reads : tls.read config.lnd.cert_path ≡ some file
    pub single : tls.certs file ≡ some (cert ∷ [])
    pub presented : tls.presents config.lnd.url ≡ some (cert ∷ [])
    pub migrated : IsRun machine.migration store
    pub withdrawals : IsTip config.lnd.first_block db running.withdrawals_tip
    pub deposits : IsTip config.lnd.first_block (machine.after_withdrawals db) running.deposits_tip
    pub payments :
        AreLimits running.state.cash_limits.payment_limits config.limits.payment_min_sats
          config.limits.payment_max_sats config.limits.payment_daily_sats
    pub invoices :
        AreLimits running.state.cash_limits.invoice_limits config.limits.invoice_min_sats
          config.limits.invoice_max_sats config.limits.invoice_daily_sats
    pub limit : running.state.rate_limit.limit ≡ config.rate_limit.limit
    pub uncounted : (u : Uuid) → running.state.rate_limit.counter u ≡ none
    pub waiting : running.state.rate_limit.pending ≡ []
