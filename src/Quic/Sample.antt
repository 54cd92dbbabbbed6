-- ===== src/Quic/Sample.antt =====
-- A small server of internal/quicx/server.go, a network and a CONNECT to "h:80" with a good token.
use chimera_core.Prelude.{ℕ, ◌%◌, ◌++◌, true, List, [], ◌∷◌, none, some, length, replicate}
use chimera_core.Prelude.Base64.{encode64}
use chimera_core.Auth.Replay.Order.{cache_of}
use chimera_core.Auth.Token.{
  Authenticator, raw_token, auth_scheme, auth_version, put_uint64, put_field,
}
use chimera_core.Limiter.{Limiter}
use chimera_core.Quic.Admission.{Server, HttpRequest, connect_method}
use chimera_core.Quic.Handler.{accepted, Network, Effect, respond, opened, closed, relay}

abbrev pub toy_hmac : List ℕ → List ℕ → List ℕ
toy_hmac key input = replicate 32 (length input % 256)

abbrev pub secret : List ℕ
secret = replicate 32 1

-- "h:80".
abbrev pub authority : List ℕ
authority = 104 ∷ 58 ∷ 56 ∷ 48 ∷ []

abbrev pub input_bytes : List ℕ
input_bytes =
    auth_version
    ∷ (put_uint64 7
        ++ (replicate 16 9
            ++ (put_field connect_method ++ (put_field authority ++ put_field (115 ∷ [])))))

abbrev pub request : HttpRequest
request = record {
  method = connect_method;
  host = authority;
  remote_addr = 49 ∷ [];
  authorization =
      auth_scheme
      ++ (32 ∷ encode64 (raw_token toy_hmac (secret ∷ []) 7 (replicate 16 9) input_bytes));
  connect_protocol = [];
  can_stream = true;
}

abbrev pub limiter : Limiter
limiter = record {
  max_concurrent = 2;
  in_use = 0;
  burst = 20;
  window = 60000000000;
  max_tracked = 9;
  ips = [];
}

abbrev pub auth : Authenticator
auth = record { keys = secret ∷ []; max_skew = 2000000000; replay = cache_of 4 5000000000 [] }

abbrev pub server : Server
server = record {
  auth = auth;
  decoy = record {
    target = 104 ∷ [];
    snapshot = record { status = 404; header = []; body = 1 ∷ [] };
  };
  limiter = limiter;
  udp_slots = some (record { size = 1; used = 0 });
  udp_max_packet = 1200;
  server_name = 115 ∷ [];
}

abbrev pub served : Server
served = record server {
  auth = record auth {
    replay = cache_of 4 5000000000 (record { key = replicate 16 9; expires_at = 14000000000 } ∷ []);
  };
}

-- Every name stands for 8.8.8.8, written "9".
abbrev pub network : Network
network = record {
  parse_ip = λ s. none;
  ip_string = λ ip. 57 ∷ [];
  lookup = λ s. some (some (8 ∷ 8 ∷ 8 ∷ 8 ∷ []) ∷ []);
  dial = λ s. true;
  resolve_udp_addr = λ s. none;
  listen_packet = true;
}

-- "9:80".
abbrev pub target : List ℕ
target = 57 ∷ 58 ∷ 56 ∷ 48 ∷ []

abbrev pub effects : List Effect
effects = opened target ∷ respond accepted ∷ relay target ∷ closed target ∷ []
