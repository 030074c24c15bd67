-- ===== src/Ln.antt =====
-- app/src/ln/mod.rs and the types of app/src/ln/node.rs. The node (LND), its gRPC client and the BOLT11
-- parser are the parameters `Lnd`; the methods of `Node` are in `Ln/`.
pub mod Payments
pub mod Transactions
pub mod Search
pub mod Invoices
pub mod Connection
use laas_api.Base.{ℕ, Bool, Option, List, String, Outcome}
use laas_api.Int.{ℤ}
use laas_api.Btc.{Address, TxId, TxOut, MilliSats, Sats}

-- `InvoiceError`, with the text of the parser's error.
pub data InvoiceError : Type 0 where
  invoice_error : String → InvoiceError

abbrev pub RawInvoice : Type 0
RawInvoice = String

-- A hop of a route hint of a parsed invoice.
pub record RouteHintHop : Type 0 where
  pub src_node_id : String
  pub short_channel_id : ℕ
  pub base_msat : ℕ
  pub proportional_millionths : ℕ
  pub cltv_expiry_delta : ℕ

-- What the program reads of a `lightning_invoice::Invoice`: the key is the one given, or else the one
-- recovered from the signature.
pub record ParsedInvoice : Type 0 where
  pub amount_milli_satoshis : Option ℕ
  pub payee_pub_key : String
  pub route_hints : List (List RouteHintHop)
  pub min_final_cltv_expiry : ℕ

-- `lnrpc.Payment.PaymentStatus`
pub data PaymentStatus : Type 0 where
  unknown in_flight succeeded failed : PaymentStatus

-- `lnrpc.PaymentFailureReason`
pub data PaymentFailureReason : Type 0 where
  failure_reason_none failure_reason_timeout failure_reason_no_route failure_reason_error
        failure_reason_incorrect_payment_details failure_reason_insufficient_balance :
      PaymentFailureReason

-- What the program reads of a `lnrpc.Payment`: each HTLC with the total fees of its route, if it has one.
pub record LnPayment : Type 0 where
  pub status : PaymentStatus
  pub failure_reason : PaymentFailureReason
  pub htlcs : List (Option ℤ)

pub data PaymentError : Type 0 where
  unknown invoice_expired invoice_already_paid timed_out no_route_found : PaymentError
  invalid_payment_details : LnPayment → PaymentError
  insufficient_liquidity : PaymentError

pub record SettledInvoice : Type 0 where
  pub amount : MilliSats
  pub settle_index : ℕ
  pub raw : RawInvoice

pub data InvoiceStatus : Type 0 where
  pending : InvoiceStatus
  settled : SettledInvoice → InvoiceStatus

pub record TransactionsQuery : Type 0 where
  pub start_height : ℕ
  pub num_blocks : ℕ

-- `lnrpc.HopHint`
pub record HopHint : Type 0 where
  pub node_id : String
  pub chan_id : ℕ
  pub fee_base_msat : ℕ
  pub fee_proportional_millionths : ℕ
  pub cltv_expiry_delta : ℕ

-- The fields of a `routerrpc.SendPaymentRequest` that the program sets; the others have their defaults.
pub record SendPaymentRequest : Type 0 where
  pub payment_request : String
  pub dest : String
  pub amt_msat : ℤ
  pub fee_limit_msat : ℤ
  pub route_hints : List (List HopHint)
  pub final_cltv_delta : ℕ
  pub payment_hash : List ℕ
  pub timeout_seconds : ℕ
  pub no_inflight_updates : Bool
  pub allow_self_payment : Bool

-- The answer to `send_payment_v2`: a gRPC error with its message in lower case, or the first message of
-- the stream; the stream may end with none, or break.
pub data SendPaymentResponse : Type 0 where
  refused : String → SendPaymentResponse
  broken : SendPaymentResponse
  message : Option LnPayment → SendPaymentResponse

-- `lnrpc.Transaction` and its outputs, as far as the program reads them. An output to no address has
-- none.
pub record OutputDetail : Type 0 where
  pub address : Option Address
  pub output_index : ℤ
  pub amount : ℤ

pub record Transaction : Type 0 where
  pub tx_hash : TxId
  pub block_height : ℕ
  pub label : String
  pub output_details : List OutputDetail

-- `lnrpc.Invoice`, as far as the program reads it.
pub record LndInvoice : Type 0 where
  pub settle_date : ℤ
  pub amt_paid_msat : MilliSats
  pub payment_request : String
  pub settle_index : ℕ

-- What the stream of `subscribe_invoices` gives when it is asked for a message.
pub data InvoiceUpdate : Type 0 where
  received : LndInvoice → InvoiceUpdate
  ended aborted : InvoiceUpdate

-- The node and the libraries that are called. A call changes the state of the node; `none` is an error
-- of the call, on which the program panics.
pub record Lnd : Type 1 where
  pub State : Type 0
  pub parse : RawInvoice → Outcome InvoiceError ParsedInvoice
  pub contains : String → String → Bool
  pub send_payment : SendPaymentRequest → State → SendPaymentResponse × State
  pub estimate_fee : Address → Sats → State → Option Sats × State
  pub new_address : State → Option Address × State
  pub get_transactions : ℤ → ℤ → State → Option (List Transaction)
  pub send_coins : Address → Sats → String → State → Option TxId × State
  pub add_invoice : MilliSats → String → ℤ → State → Option RawInvoice × State
  pub payment_hash : RawInvoice → List ℕ
  pub lookup_invoice : List ℕ → State → Option LndInvoice × State
