-- ===== src/Http.antt =====
-- What the handlers of admin/internal/auth and admin/internal/web read of an `http.Request` and
-- write to an `http.ResponseWriter`.
use sandcastle.Prelude.{Option, none, some, List, [], Str}
use sandcastle.Prelude.Int.{ℤ}

-- An `http.Cookie`, without the attributes that every cookie of the program shares.
pub record Cookie : Type 0 where
  pub name : Str
  pub value : Str
  pub max_age : ℤ

-- The path as its segments. `authorization` is empty without the header, `cookie` finds the first
-- cookie of a name, `form` is FormValue, and `query` finds the first value of a parameter.
pub record HttpRequest : Type 0 where
  pub method : Str
  pub path : List Str
  pub uri : Str
  pub authorization : Str
  pub cookie : Str → Option Str
  pub form : Str → Str
  pub query : Str → Option Str

-- 303, 302, 200 with a page or with the text "ok", and the errors 400, 401, 403, 404, 405, 409, 500
-- and 502. Only `found` and `bad_gateway` answers set cookies, and they list them.
pub data Response (P : Type 0) : Type 0 where
  see_other : Str → Response P
  found : List Cookie → Str → Response P
  page : P → Response P
  healthy bad_request unauthorized forbidden missing bad_method conflicted internal : Response P
  bad_gateway : List Cookie → Response P

-- url.Values.Get
unfoldable pub or_empty : Option Str → Str
or_empty none = []
or_empty (some v) = v
