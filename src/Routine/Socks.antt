-- ===== src/Routine/Socks.antt =====
-- routine.go: the SOCKS5 routine, up to the server of the package go-socks5.
use model_lib.Base.{ℕ, ◌*◌, Option, List, [], ◌∷◌, ◌==◌, if◌then◌else◌, Bytes, length, ◌≡◌, Error}
use model_lib.Config.Types.{Socks5Config}

-- socks5.NoAuthAuthenticator and socks5.UserPassAuthenticator with one pair of credentials
pub data Authenticator : Type 0 where
  no_auth : Authenticator
  user_pass : Bytes → Bytes → Authenticator

-- The options of the server. Its dials and its resolver are those of the tunnel.
pub record Socks5Server : Type 0 where
  pub auth_methods : List Authenticator
  pub buffer_size : ℕ
  pub bind_address : Bytes

pub auth_methods : Socks5Config → List Authenticator
auth_methods config =
    if length config.username == 0
    then no_auth ∷ []
    else user_pass config.username config.password ∷ []

pub new_socks5_server : Socks5Config → Socks5Server
unfolding auth_methods
new_socks5_server config = record {
  auth_methods = auth_methods config;
  buffer_size = 256 * 1024;
  bind_address = config.bind_address;
}

-- ListenAndServe only returns with an error, which ends the program.
pub spawn_socks5 : Socks5Config → Option Error → Socks5Server × Option Error
unfolding new_socks5_server
spawn_socks5 config serve_error = (new_socks5_server config, serve_error)

-- A proxy without a user name is open, also where the configuration has a password.
open_without_username :
    (config : Socks5Config)
    → config.username ≡ []
    → (new_socks5_server config).auth_methods ≡ no_auth ∷ []
unfolding new_socks5_server auth_methods
open_without_username config e = rw e
