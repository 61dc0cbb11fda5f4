-- ===== src/Http/Tests.antt =====
-- Runs of http.go.
use model_lib.Base.{none, [], ◌∷◌, ◌≡◌, ◌↔◌, refl, equal, codes, ok}
use model_lib.Strings.{trim_prefix, split_once}
use model_lib.Net.{join_host_port}
use model_lib.Encoding.{decode_base64}
use model_lib.Http.{
  HttpServer, new_server, Request, valid, authenticate, dial_address, dial, write_established,
  copy_both, Answers, serve,
}
use model_lib.Config.Types.{HttpConfig}
use model_lib.Http.Auth.{Authorised, authenticate_iff}

abbrev config : HttpConfig
config = record {
  bind_address = codes "127.0.0.1:8080";
  username = codes "ab";
  password = codes "c:d";
  cert_file = [];
  key_file = [];
}

abbrev server : HttpServer
unfolding new_server
server = new_server config

abbrev request : Request
request = record {
  method = codes "CONNECT";
  host = codes "example.org";
  proto = codes "HTTP/1.1";
  proxy_authorization = codes "Basic YWI6Yzpk";
}

abbrev answers : Answers
answers = record { request = ok request; dial_error = none; write_error = none }

authenticate_example : ((authenticate server request).1 ≡ none) ↔ Authorised server request
authenticate_example = authenticate_iff server request

serve-run :
    serve server answers ≡ dial (codes "example.org:443") ∷ write_established ∷ copy_both ∷ []
unfolding serve authenticate server decode_base64 trim_prefix split_once valid equal dial_address
    join_host_port
serve-run = refl
