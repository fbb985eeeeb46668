-- ===== src/Auth/Cookies.antt =====
-- `setSigned`, `getSigned`, `mac`, `b64` and `random` of admin/internal/auth/auth.go.
use sandcastle.Prelude.{
  ℕ, ◌≡◌, refl, ap, ◌∙◌, Option, none, some, List, ◌∷◌, ◌++◌, Str, codes, str_eq, All, str_eq_refl,
  str_eq→eq, Bool-cases, inl, inr, if◌then◌else◌,
}
use sandcastle.Prelude.Int.{ℤ}
use sandcastle.Go.Durations.{whole_seconds}
use sandcastle.Http.{Cookie, HttpRequest}
use sandcastle.Go.Base64.{encode, decode}
use sandcastle.Go.Base64.RoundTrip.{IsByte, decode-encode, encode-no_dot}
use sandcastle.Go.Strings.{cut, cut-append}
use sandcastle.Auth.Config.{Config, Outside}

abbrev pub session_cookie : Str
session_cookie = codes "sc_session"

abbrev pub flow_cookie : Str
flow_cookie = codes "sc_oauth"

unfoldable pub b64 : List ℕ → Str
b64 s = encode s

-- b64(a.mac(name+"|"+payload))
unfoldable pub signature : Outside → Config → Str → Str → Str
unfolding b64
signature o c name payload = b64 (o.hmac c.key (name ++ b'|' ∷ payload))

-- The value of a cookie for a marshalled value.
unfoldable pub sign : Outside → Config → Str → List ℕ → Str
unfolding b64
sign o c name payload = b64 payload ++ b'.' ∷ signature o c name (b64 payload)

unfoldable pub set_signed : Outside → Config → Str → List ℕ → ℤ → Cookie
unfolding sign whole_seconds
set_signed o c name payload ttl = record {
  name = name;
  value = sign o c name payload;
  max_age = whole_seconds ttl;
}

-- The payload and the signature of a cookie's value, and the payload's bytes where they agree.
unfoldable pub verified : Outside → Config → Str → Option (Str × Str) → Option (List ℕ)
unfolding signature
verified o c name none = none
verified o c name (some (payload, sig)) =
    if str_eq sig (signature o c name payload) then decode payload else none

unfoldable pub opened : Outside → Config → Str → Option Str → Option (List ℕ)
unfolding verified
opened o c name none = none
opened o c name (some value) = verified o c name (cut b'.' value)

unfoldable pub decoded {ℓ} : {A : Type ℓ} → (List ℕ → Option A) → Option (List ℕ) → Option A
decoded unmarshal none = none
decoded unmarshal (some raw) = unmarshal raw

-- getSigned, into a fresh variable.
unfoldable pub get_signed {ℓ} :
    {A : Type ℓ} → Outside → Config → HttpRequest → Str → (List ℕ → Option A) → Option A
unfolding decoded opened
get_signed o c r name unmarshal = decoded unmarshal (opened o c name (r.cookie name))

-- random, of 32 random bytes.
unfoldable pub random : List ℕ → Str
unfolding b64
random bytes = b64 bytes

-- A cookie that was signed is opened under its own name.
pub opened-sign :
    (o : Outside) (c : Config) (name : Str) (payload : List ℕ)
    → All IsByte payload
    → opened o c name (some (sign o c name payload)) ≡ some payload
unfolding opened verified sign b64
opened-sign o c name payload h =
    rw
      (cut-append b'.' (encode payload) (signature o c name (encode payload))
        (encode-no_dot payload h))
      (checked)
  where
    checked :
        verified o c name (some (encode payload, signature o c name (encode payload)))
        ≡ some payload
    checked = rw (str_eq_refl (signature o c name (encode payload))) (decode-encode payload h)

-- A cookie that is opened has the signature of its name and payload.
pub opened_signed :
    (o : Outside) (c : Config) (name : Str) (value : Str) (raw : List ℕ)
    → opened o c name (some value) ≡ some raw
    → (payload : Str) × (cut b'.' value ≡ some (payload, signature o c name payload))
      × (decode payload ≡ some raw)
unfolding opened verified
opened_signed o c name value raw h = go (cut b'.' value) refl h
  where
    go :
        (p : Option (Str × Str))
        → cut b'.' value ≡ p
        → verified o c name p ≡ some raw
        → (payload : Str) × (cut b'.' value ≡ some (payload, signature o c name payload))
          × (decode payload ≡ some raw)
    go none e k = absurd (cc)
    go (some (payload, sig)) e k = elim (Bool-cases (str_eq sig (signature o c name payload))) [
      | inl q ↦ (
        payload,
        e ∙ ap (λ t. some (payload, t)) (str_eq→eq sig (signature o c name payload) q),
        rw q at k,
      )
      | inr q ↦ absurd (let j : none ≡ some raw = rw q at k in cc)
    ]
