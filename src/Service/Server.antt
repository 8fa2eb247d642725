-- ===== src/Service/Server.antt =====
-- src/argusd_server.cc and src/argusd_auth.cc: what `main` starts, from its flags.
use argusd.Base.{
  ℕ, ◌≡◌, ◌≢◌, ◌⊎◌, ℤ, pos, Bool, true, false, ◌||◌, Option, none, some, List, [], ◌∷◌, ◌++◌, Text,
  text, if◌then◌else◌,
}
use argusd.Service.Subject.{decimal}

abbrev pub port : ℕ
port = 50051

-- The flags of the command line.
pub record Flags : Type 0 where
  pub tls : Bool
  pub tlscafile : Text
  pub tlscertfile : Text
  pub tlskeyfile : Text

-- `grpc::SslServerCredentialsOptions`, as far as it is set: the private key, the certificate chain,
-- the certificates that clients are verified with, and whether a client must present one.
pub record SslOptions : Type 0 where
  pub private_key : Text
  pub cert_chain : Text
  pub pem_root_certs : Text
  pub require_and_verify_client : Bool

pub data Credentials : Type 0 where
  insecure : Credentials
  ssl : SslOptions → Credentials

pub data ServiceName : Type 0 where
  argusd_svc health_svc : ServiceName

-- What `BuildAndStart` gets.
pub record Server : Type 0 where
  pub address : Text
  pub credentials : Credentials
  pub services : List ServiceName

-- `.empty()`
abbrev pub is_empty : Text → Bool
is_empty [] = true
is_empty (c ∷ s) = false

-- `readfile` gives the text of a file, which is empty for a file that cannot be opened.
unfoldable pub options_of : (Text → Text) → Flags → SslOptions
options_of readfile flags = record {
  private_key = readfile flags.tlskeyfile;
  cert_chain = readfile flags.tlscertfile;
  pem_root_certs = if is_empty flags.tlscafile then [] else readfile flags.tlscafile;
  require_and_verify_client = true;
}

-- The credentials from the flags; none where `main` returns 1.
unfoldable pub credentials_of : (Text → Text) → Flags → Option Credentials
unfolding options_of
credentials_of readfile flags =
    if flags.tls
    then (if is_empty flags.tlscertfile || is_empty flags.tlskeyfile
        then none
        else some (ssl (options_of readfile flags)))
    else some insecure

-- The server that `main` builds.
unfoldable pub build_server : Credentials → Server
build_server credentials = record {
  address = text "0.0.0.0:" ++ decimal (pos port);
  credentials = credentials;
  services = argusd_svc ∷ health_svc ∷ [];
}

-- The exit code, and the server that ran, if any. `starts` is whether `BuildAndStart` gives a server:
-- where it gives nullptr, `server->Wait()` is a fault (`none`).
unfoldable pub run_with : (Server → Bool) → Option Credentials → Option (ℤ × Option Server)
unfolding build_server
run_with starts none = some (pos 1, none)
run_with starts (some credentials) =
    let server = build_server credentials in
    if starts server then some (pos 0, some server) else none

-- `main`
unfoldable pub main : (Text → Text) → (Server → Bool) → Flags → Option (ℤ × Option Server)
unfolding credentials_of run_with
main readfile starts flags = run_with starts (credentials_of readfile flags)

-- `ArgusdAuthMetadataProcessor::Process` answers OK whatever the metadata.
pub data AuthStatus : Type 0 where
  ok : AuthStatus

unfoldable pub process : List (Text × Text) → AuthStatus
process [] = ok
process (meta ∷ auth_metadata) = process auth_metadata

-- `main` runs the server, or reaches `server->Wait()` without one.
pub data Ran (readfile : Text → Text) (starts : Server → Bool) (flags : Flags) (server : Server)
    : Type 0 where
  served :
      starts server ≡ true
      → main readfile starts flags ≡ some (pos 0, some server)
      → Ran readfile starts flags server
  faults :
      starts server ≡ false → main readfile starts flags ≡ none → Ran readfile starts flags server

-- What becomes of the flags: no server, one with TLS for clients that present a certificate, or one
-- without TLS.
pub data Outcome (readfile : Text → Text) (starts : Server → Bool) (flags : Flags) : Type 0 where
  refused :
      flags.tls ≡ true
      → (flags.tlscertfile ≡ []) ⊎ (flags.tlskeyfile ≡ [])
      → main readfile starts flags ≡ some (pos 1, none)
      → Outcome readfile starts flags
  secured :
      flags.tls ≡ true
      → flags.tlscertfile ≢ []
      → flags.tlskeyfile ≢ []
      → (options : SslOptions) → Ran readfile starts flags (build_server (ssl options))
      → options.private_key ≡ readfile flags.tlskeyfile
      → options.cert_chain ≡ readfile flags.tlscertfile
      → options.require_and_verify_client ≡ true
      → Outcome readfile starts flags
  unsecured :
      flags.tls ≡ false
      → Ran readfile starts flags (build_server insecure)
      → Outcome readfile starts flags
