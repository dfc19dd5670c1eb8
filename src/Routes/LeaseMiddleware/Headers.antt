-- ===== src/Routes/LeaseMiddleware/Headers.antt =====
-- The four headers of a lease, as `parseAuthHeaders` reads them.
use cloister.Prelude.{ℕ, String, ◌&&◌, Option, none, some, List, ltb, if◌then◌else◌}
use cloister.Prelude.Keys.{◌==◌, string_eq}
use cloister.Prelude.Results.{Result, ok, err, ◌>>=◌}
use cloister.Prelude.Chars.{
  Parsed, nan, minus, plus, infinite_from, parse_int, cut_at, trim, b64decode,
}

-- `req.headers.get` of each name, `none` for `null`.
pub record AuthHeaders : Type 0 where
  pub authorization : Option String
  pub x_signet_sig : Option String
  pub x_signet_ts : Option String
  pub x_signet_nonce : Option String

pub record ParsedAuthHeaders : Type 0 where
  pub cert_der : List ℕ
  pub sig : List ℕ
  pub ts : ℕ
  pub nonce : List ℕ

pub data AuthHeaderError : Type 0 where
  missing_authorization missing_signature missing_timestamp missing_nonce : AuthHeaderError
  wrong_scheme : (scheme : String) → AuthHeaderError
  bad_base64 : (field : String) → AuthHeaderError

abbrev pub kind : AuthHeaderError → String
kind missing_authorization = "missing_authorization"
kind missing_signature = "missing_signature"
kind missing_timestamp = "missing_timestamp"
kind missing_nonce = "missing_nonce"
kind (wrong_scheme scheme) = "wrong_scheme"
kind (bad_base64 field) = "bad_base64"

-- `if (!value) return error`
abbrev pub present : Option String → AuthHeaderError → Result AuthHeaderError String
present none e = err e
present (some value) e = if value == "" then err e else ok value

-- The certificate's part of `Signet <base64>`.
abbrev pub signet_part : String → Result AuthHeaderError String
signet_part authz = elim (cut_at b' ' authz) [
  | none ↦ err (wrong_scheme authz)
  | some (scheme, rest) ↦ if scheme == "Signet" then ok (trim rest) else err (wrong_scheme scheme)
]

-- A positive finite number.
abbrev pub timestamp : Parsed → Result AuthHeaderError ℕ
timestamp nan = err missing_timestamp
timestamp (minus n) = err missing_timestamp
timestamp (plus n) = if ltb 0 n && ltb n infinite_from then ok n else err missing_timestamp

module _ (atob : String → Option (List ℕ)) where
  abbrev pub decoded : String → String → Result AuthHeaderError (List ℕ)
  decoded field s = elim (b64decode atob s) [
    | none ↦ err (bad_base64 field)
    | some bytes ↦ ok bytes
  ]

  unfoldable pub parse_auth_headers : AuthHeaders → Result AuthHeaderError ParsedAuthHeaders
  parse_auth_headers req = do
    authz ← present req.authorization missing_authorization
    cert_b64 ← signet_part authz
    cert_der ← decoded "Authorization" cert_b64
    sig_b64 ← present req.x_signet_sig missing_signature
    sig ← decoded "X-Signet-Sig" sig_b64
    ts_raw ← present req.x_signet_ts missing_timestamp
    ts ← timestamp (parse_int ts_raw)
    nonce_b64 ← present req.x_signet_nonce missing_nonce
    nonce ← decoded "X-Signet-Nonce" nonce_b64
    ok (record { cert_der = cert_der; sig = sig; ts = ts; nonce = nonce })
