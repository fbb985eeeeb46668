-- ===== src/Auth/Config.antt =====
-- The types of admin/internal/auth/auth.go, and what it calls outside the repository.
use sandcastle.Prelude.{
  ℕ, Option, none, some, List, [], Str, codes, ltb, length, Bool, true, false, if◌then◌else◌,
}
use sandcastle.Prelude.Int.{ℤ, pos}

pub record Config : Type 0 where
  pub coder_url : Str
  pub coder_internal_url : Str
  pub client_id : Str
  pub client_secret : Str
  pub callback_url : Str
  pub key : List ℕ
  pub test_token : Str

-- `exp` counts seconds.
pub record User : Type 0 where
  pub id : Str
  pub name : Str
  pub admin : Bool
  pub csrf : Str
  pub exp : ℤ
  pub bearer : Bool

-- User{}
abbrev pub no_user : User
no_user = record { id = []; name = []; admin = false; csrf = []; exp = pos 0; bearer = false }

-- testUser
unfoldable pub test_user : User
test_user = record {
  id = codes "test-hook";
  name = codes "test-hook";
  admin = true;
  csrf = [];
  exp = pos 0;
  bearer = true;
}

pub record Flow : Type 0 where
  pub state : Str
  pub verifier : Str
  pub next : Str
  pub exp : ℤ

-- flow{}
abbrev pub no_flow : Flow
no_flow = record { state = []; verifier = []; next = []; exp = pos 0 }

-- What net/url finds in a text: `url.URL` less what the program does not read.
pub record Url : Type 0 where
  pub scheme : Str
  pub host : Str
  pub path : Str

-- The body of Coder's users/me, its roles by name.
pub record Me : Type 0 where
  pub id : Str
  pub username : Str
  pub roles : List Str

-- HMAC-SHA256 under a key; encoding/json on a user and on a flow, decoding into a fresh variable;
-- `url.Parse`; the authorization URL of golang.org/x/oauth2 for a state and a verifier, and its
-- exchange of a code and a verifier for a token; a GET with an Authorization header: nothing where
-- it fails, else the status and the decoded body.
pub record Outside : Type 0 where
  pub hmac : List ℕ → Str → List ℕ
  pub marshal_user : User → List ℕ
  pub unmarshal_user : List ℕ → Option User
  pub marshal_flow : Flow → List ℕ
  pub unmarshal_flow : List ℕ → Option Flow
  pub parse_url : Str → Option Url
  pub auth_code_url : Config → Str → Str → Str
  pub exchange : Config → Str → Str → Option Str
  pub fetch : Str → Str → Option (ℕ × Option Me)

-- New: none where the key is too short.
unfoldable pub new_auth : Config → Option Config
new_auth c = if ltb (length c.key) 32 then none else some c
