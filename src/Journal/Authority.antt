-- ===== src/Journal/Authority.antt =====
-- crates/pact-journal/src/ca.rs: the signing of certificates. rcgen, which makes keys and certificates
-- and reads signing requests, is the record Rcgen; the identifier and the clock are arguments.
use Prim.Native.String.{◌++◌}
use pact.Base.{ℕ, ◌+◌, String, List, [], ◌∷◌}
use pact.Types.{DateTime, seconds}

-- A result of rcgen, or the text of its error.
pub data Made : Type 0 where
  made : String → Made
  failed : String → Made

pub record Rcgen : Type 0 where
  -- a certificate for a new key with a common name
  pub generate : String → Made
  -- one for the key of a signing request, with the name added to the request's
  pub sign_request : List ℕ → String → Made
  pub to_rfc3339 : DateTime → String

pub record CaKeyManager : Type 0 where
  pub ca_pem : String
  pub cert_lifetime_seconds : ℕ

pub record SignedCertResult : Type 0 where
  pub cert_pem : String
  pub ca_chain_pem : String
  pub cert_serial : String
  pub cert_expires_at : String

pub data Signing : Type 0 where
  signed : SignedCertResult → Signing
  signing_failed : String → Signing

abbrev pub common_name : String → String → String
common_name node_id domain_id = "pact-service-agent/" ++ node_id ++ "@" ++ domain_id

unfoldable pub issue : Rcgen → CaKeyManager → String → DateTime → Made → Signing
issue rcgen ca serial now (Made.failed text) = Signing.signing_failed text
issue rcgen ca serial now (Made.made pem) = Signing.signed (record {
  cert_pem = pem;
  ca_chain_pem = ca.ca_pem;
  cert_serial = serial;
  cert_expires_at = rcgen.to_rfc3339 (now + seconds ca.cert_lifetime_seconds);
})

unfoldable pub sign_csr :
    Rcgen → CaKeyManager → String → DateTime → List ℕ → String → String → Signing
sign_csr rcgen ca serial now [] node_id domain_id =
    issue rcgen ca serial now (rcgen.generate (common_name node_id domain_id))
sign_csr rcgen ca serial now (b ∷ csr) node_id domain_id =
    issue rcgen ca serial now (rcgen.sign_request (b ∷ csr) (common_name node_id domain_id))
