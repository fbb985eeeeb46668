-- ===== src/Auth/Examples.antt =====
-- The theorems on logins and sessions at one server.
mod Codec
use Codec.{
  marshal_user, unmarshal_user, marshal_flow, unmarshal_flow, unmarshal_user-marshal_user,
  unmarshal_flow-marshal_flow, put_text_bytes, user_untagged, user_bytes, flow_bytes,
}
use sandcastle.Prelude.{
  ℕ, ◌<◌, ◌≤◌, ◌≡◌, ◌≢◌, ◌⊎◌, inl, inr, refl, Option, none, some, List, [], ◌∷◌, Str, codes, str_eq,
  Bool, true, false, not, arith, ◌&&◌,
}
use sandcastle.Prelude.Int.{pos, negsuc}
use sandcastle.Http.{HttpRequest, Response, found, or_empty}
use sandcastle.Go.Strings.{cut_prefix}
use sandcastle.Auth.Config.{Config, User, no_user, test_user, no_flow, Url, Me, Outside}
use sandcastle.Auth.Cookies.{session_cookie, flow_cookie, random}
use sandcastle.Auth.Session.{CodesBack, issue, user, user_of, is_empty}
use sandcastle.Auth.Authentic.{HasToken, HasSession, user_authentic}
use sandcastle.Auth.Gate.{Passes, require, require-Passes}
use sandcastle.Auth.Login.{
  local_path, next_of, new_flow, flow_signed, flow_ttl, me, from_reply, user_from, with_roles,
  is_admin_role, logged_out, user-logged_out,
}
use sandcastle.Auth.Returns.{Returns, callback-login}
use sandcastle.Auth.Login.{callback}

abbrev bob_me : Me
bob_me = record { id = codes "u2"; username = codes "bob"; roles = codes "member" ∷ [] }

abbrev outside : Outside
outside = record {
  hmac = λ key s. key;
  marshal_user = marshal_user;
  unmarshal_user = unmarshal_user;
  marshal_flow = marshal_flow;
  unmarshal_flow = unmarshal_flow;
  parse_url = λ s. some (record { scheme = []; host = []; path = s });
  auth_code_url = λ c state verifier. state;
  exchange = λ c code verifier. some code;
  fetch = λ url header. some (200, some bob_me);
}

outside-CodesBack : CodesBack outside
outside-CodesBack = record {
  user-back = unmarshal_user-marshal_user;
  user_untagged = user_untagged;
  user_bytes = user_bytes;
  flow-back = unmarshal_flow-marshal_flow;
  flow_bytes = flow_bytes;
}

abbrev config : Config
config = record {
  coder_url = codes "http://coder";
  coder_internal_url = codes "http://coder.svc/";
  client_id = codes "id";
  client_secret = codes "secret";
  callback_url = codes "http://admin/callback";
  key = 7 ∷ [];
  test_token = codes "t0";
}

abbrev bob : User
bob = record no_user { id = codes "u2"; name = codes "bob" }

-- A request that brings one cookie value, and its query.
abbrev bringing : Str → (Str → Option Str) → HttpRequest
bringing value query = record {
  method = codes "GET";
  path = [];
  uri = codes "/";
  authorization = [];
  cookie = λ name. some value;
  form = λ name. [];
  query = query;
}

abbrev bytes : List ℕ
bytes = 1 ∷ 2 ∷ 3 ∷ []

abbrev with_session : HttpRequest
with_session = bringing (issue outside config 100 bytes bob).1.value (λ name. none)

abbrev hook : HttpRequest
hook = record (bringing [] (λ name. none)) { authorization = codes "Bearer t0" }

hook-user : user outside config 200 hook ≡ some test_user
unfolding user user_of cut_prefix codes is_empty str_eq
hook-user = refl

user_authentic_example :
    HasToken config hook test_user ⊎ HasSession outside config 200 hook test_user
user_authentic_example = user_authentic outside config 200 hook test_user hook-user

abbrev to_queue : HttpRequest
to_queue = bringing [] (λ name. some (codes "/queue"))

abbrev returning : HttpRequest
returning =
    bringing
      (flow_signed outside config (new_flow outside 100 bytes (codes "v") to_queue)
        (pos flow_ttl)).value
      (λ name. some (random bytes))

bob_known : me outside config (random bytes) ≡ some bob
unfolding me from_reply user_from with_roles is_admin_role is_empty codes str_eq
bob_known = refl

callback-login_example :
    (callback {P = Unit {0}} outside config 150 bytes returning
      ≡ found
          (flow_signed outside config no_flow (negsuc 0)
            ∷ (issue outside config 150 bytes bob).1
            ∷ [])
          (next_of outside to_queue))
    × Returns outside (or_empty (to_queue.query (codes "next"))) (next_of outside to_queue)
unfolding or_empty
callback-login_example =
    callback-login outside config 100 150 bytes bytes (codes "v") (random bytes) bob to_queue
      returning outside-CodesBack refl refl (omega arith) refl bob_known
