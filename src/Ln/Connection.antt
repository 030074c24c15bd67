-- ===== src/Ln/Connection.antt =====
-- app/src/ln/mod.rs: `Lightning`; app/src/ln/node.rs: the connection to the node, the verifier of its
-- certificate and the requests.
use laas_api.Base.{
  ℕ, Bool, true, not, Option, some, List, [], ◌∷◌, length, String, Outcome, ok, err, panic, ◌>>=◌,
  unwrap, if◌then◌else◌, ◌≡◌, ◌↔◌, refl, arith, Bool-cases, inl, inr, ap, ◌∙◌, >>=-eq-ok, unwrap-ok,
  Never,
}
use laas_api.Ln.Payments.{default_timeout_secs}

-- The crates `rustls` and `hex`, the files, and the endpoint: the certificates that it presents when it
-- is called, if it answers.
pub record Tls : Type 1 where
  pub Certificate : Type 0
  pub eqb : Certificate → Certificate → Bool
  pub eqb_iff : (a b : Certificate) → (eqb a b ≡ true) ↔ (a ≡ b)
  pub certs : List ℕ → Option (List Certificate)
  pub read : String → Option (List ℕ)
  pub encode : List ℕ → String
  pub presents : String → Option (List Certificate)

-- The errors of the verifier, `TLSError::General` with their texts.
pub data TlsError : Type 0 where
  not_ours : TlsError
  wrong_number : ℕ → TlsError

pub record Config : Type 0 where
  pub endpoint : String
  pub macaroon_path : String
  pub cert_path : String
  pub first_block : ℕ

pub record Lightning : Type 0 where
  pub endpoint : String
  pub cert : List ℕ
  pub macaroon : String
  pub first_block : ℕ

-- `Node`, but its two clients, which are the channel.
pub record Node : Type 0 where
  pub macaroon : String
  pub first_block : ℕ

-- `tonic::Request`, with the metadata and the timeout in seconds.
pub record Request (T : Type 0) : Type 0 where
  pub message : T
  pub macaroon : String
  pub timeout : ℕ

-- `Node::req_timeout`; hexadecimal digits are valid metadata.
unfoldable pub req_timeout : {T : Type 0} → Node → T → ℕ → Request T
req_timeout node message timeout = record {
  message = message;
  macaroon = node.macaroon;
  timeout = timeout;
}

-- `Node::req`
unfoldable pub req : {T : Type 0} → Node → T → Request T
unfolding req_timeout
req node message = req_timeout node message default_timeout_secs

module _ (tls : Tls) where
  open tls use {Certificate, eqb, eqb_iff, certs, read, encode, presents}

  -- `LndCertVerifier::new`, the certificate that it holds.
  abbrev pub only_cert : List Certificate → Outcome Never Certificate
  only_cert [] = panic
  only_cert (cert ∷ []) = ok cert
  only_cert (cert ∷ other ∷ certs) = panic

  unfoldable pub new_verifier : List ℕ → Outcome Never Certificate
  new_verifier file = do found ← unwrap (certs file); only_cert found

  -- `verify_server_cert`
  unfoldable pub verify_server_cert : Certificate → List Certificate → Outcome TlsError Unit
  verify_server_cert cert [] = err (wrong_number 0)
  verify_server_cert cert (presented ∷ []) =
      if eqb presented cert
      then ok tt
      else if not (eqb presented cert)
      then err not_ours
      else err (wrong_number 1)
  verify_server_cert cert (a ∷ b ∷ rest) = err (wrong_number (length (a ∷ b ∷ rest)))

  -- `Lightning::new`
  unfoldable pub new : Config → Outcome Never Lightning
  new config = do
    macaroon ← unwrap (read config.macaroon_path)
    cert ← unwrap (read config.cert_path)
    ok (record {
      endpoint = config.endpoint;
      cert = cert;
      macaroon = encode macaroon;
      first_block = config.first_block;
    })

  -- `unwrap` on the connection: the handshake fails where the verifier refuses.
  abbrev pub handshake : Outcome TlsError Unit → Outcome Never Unit
  handshake (ok u) = ok u
  handshake (err e) = panic
  handshake panic = panic

  -- `Node::connect`
  unfoldable pub connect : String → String → List ℕ → ℕ → Outcome Never Node
  unfolding new_verifier verify_server_cert
  connect endpoint macaroon cert first_block = do
    ours ← new_verifier cert
    presented ← unwrap (presents endpoint)
    u ← handshake (verify_server_cert ours presented)
    ok (record { macaroon = macaroon; first_block = first_block })

  -- `Lightning::create_node`
  unfoldable pub create_node : Lightning → Outcome Never Node
  unfolding connect
  create_node l = connect l.endpoint l.macaroon l.cert l.first_block

  -- The certificate of the file and that of the endpoint are the same, and each is the only one.
  abbrev pub IsTrusted : Lightning → Type 0
  IsTrusted l =
      (cert : Certificate) × (certs l.cert ≡ some (cert ∷ []))
      × (presents l.endpoint ≡ some (cert ∷ []))

  verify-ok :
      (cert : Certificate) (presented : List Certificate)
      → verify_server_cert cert presented ≡ ok tt
      → presented ≡ cert ∷ []
  unfolding verify_server_cert
  verify-ok cert [] h = absurd (ground arith)
  verify-ok cert (c ∷ []) h = elim (Bool-cases (eqb c cert)) [
    | inl same ↦ ap (λ x. x ∷ []) ((eqb_iff c cert).0 same)
    | inr other ↦ absurd (ground arith)
  ]
  verify-ok cert (a ∷ b ∷ rest) h = absurd (ground arith)

  verify_self : (cert : Certificate) → verify_server_cert cert (cert ∷ []) ≡ ok tt
  unfolding verify_server_cert
  verify_self cert = rw (eqb_iff cert cert).1 refl

  only_cert-ok :
      (found : List Certificate) (cert : Certificate)
      → only_cert found ≡ ok cert
      → found ≡ cert ∷ []
  only_cert-ok [] cert h = absurd (ground arith)
  only_cert-ok (c ∷ []) cert h = ground arith
  only_cert-ok (a ∷ b ∷ rest) cert h = absurd (ground arith)

  handshake-ok : (r : Outcome TlsError Unit) (u : Unit {0}) → handshake r ≡ ok u → r ≡ ok tt
  handshake-ok (ok v) u h = refl
  handshake-ok (err e) u h = absurd (ground arith)
  handshake-ok panic u h = absurd (ground arith)

  -- A connection comes about exactly if the file has one certificate and the endpoint presents that one
  -- alone; the node then sends the macaroon of the file.
  pub create_node-ok :
      (l : Lightning) (node : Node)
      → (create_node l ≡ ok node)
        ↔ (IsTrusted l × (node ≡ record { macaroon = l.macaroon; first_block = l.first_block }))
  unfolding create_node connect new_verifier
  create_node-ok l node = (
    λ h.
        let (ours, made, h₁) = >>=-eq-ok (new_verifier l.cert) _ h in
        let (found, read_certs, one) = >>=-eq-ok (unwrap (certs l.cert)) _ made in
        let (presented, called, h₂) = >>=-eq-ok (unwrap (presents l.endpoint)) _ h₁ in
        let (u, shaken, done) = >>=-eq-ok (handshake (verify_server_cert ours presented)) _ h₂ in
        let same =
          verify-ok ours presented (handshake-ok (verify_server_cert ours presented) u shaken) in
        (
          (
            ours,
            unwrap-ok (certs l.cert) found read_certs ∙ ap some (only_cert-ok found ours one),
            unwrap-ok (presents l.endpoint) presented called ∙ ap some same,
          ),
          ground arith,
        ),
    λ ((cert, file, endpoint), same).
        rw (same, file, endpoint, verify_self cert, create_node, connect) refl,
  )
