-- ===== src/Throttle.antt =====
-- `throttle` of admin/cmd/sandcastle-admin/main.go. Times are
-- nanoseconds of Go's monotonic clock; a key that is not in the map was last seen at the zero time,
-- long more than a second before any call.
pub mod Failures
mod Examples
use sandcastle.Prelude.{
  ◌↔◌, ◌&&◌, In-append, subst, eq→str_eq, ℕ, suc, ◌+◌, ◌≤◌, ◌<◌, ◌≡◌, ◌≢◌, refl, sym, ap, ◌∙◌, inl,
  inr, Bool, true, false, not, Option, none, some, List, [], ◌∷◌, ◌++◌, Str, str_eq, str_eq_refl,
  str_eq→eq, In, In-append_left, In-append_right, ◌⊎◌, ltb, ltb→lt, lt→ltb, keep, length,
  length-keep-le, arith, Bool-cases, Option-cases, if◌then◌else◌,
}
use sandcastle.Prelude.Assoc.{Map, get, put, get-put}

abbrev pub second : ℕ
second = 1000000000

abbrev pub minute : ℕ
minute = 60000000000

abbrev pub max_keys : ℕ
max_keys = 10000

-- t.last; nil and the empty map read alike.
abbrev pub Last : Type 0
Last = Map ℕ

-- now.Sub(t.last[key]) < time.Second
unfoldable pub is_recent : ℕ → Option ℕ → Bool
is_recent now none = false
is_recent now (some at) = ltb now (at + second)

-- for k, at := range t.last { if now.Sub(at) > time.Minute { delete(t.last, k) } }
unfoldable pub evict : ℕ → Last → Last
evict now last = keep (λ e. not (ltb (e.1 + minute) now)) last

-- if len(t.last) > 10000 { t.last = map[string]time.Time{key: now} }
unfoldable pub start_over : Str → ℕ → Last → Last
start_over key now last = if ltb max_keys (length last) then (key, now) ∷ [] else last

unfoldable pub remember : Str → ℕ → Last → Last
remember key now last =
    if ltb max_keys (length last) then start_over key now (evict now last) else last

-- allow, on the clock's reading and the map.
unfoldable pub allow : Str → ℕ → Last → Bool × Last
allow key now last =
    if is_recent now (get key last)
    then (false, last)
    else (true, remember key now (put key now last))

remember_bound : (key : Str) (now : ℕ) (last : Last) → length (remember key now last) ≤ max_keys
unfolding remember start_over
remember_bound key now last = elim (Bool-cases (ltb max_keys (length last))) [
  | inr e ↦ rw e (ground arith)
  | inl e ↦ rw e (elim (Bool-cases (ltb max_keys (length (evict now last)))) [
    | inl f ↦ rw f (omega arith)
    | inr f ↦ rw f (ground arith)
  ])
]

-- The map never grows beyond 10000 keys, so the throttle's memory is bounded.
pub allow_bound :
    (key : Str) (now : ℕ) (last : Last)
    → length last ≤ max_keys
    → length (allow key now last).1 ≤ max_keys
unfolding allow
allow_bound key now last h = elim (Bool-cases (is_recent now (get key last))) [
  | inl e ↦ rw e h
  | inr e ↦ rw e (remember_bound key now (put key now last))
]

get-evict :
    (key : Str) (now : ℕ) (last : Last)
    → get key last ≡ some now
    → get key (evict now last) ≡ some now
unfolding evict get
get-evict key now [] e = e
get-evict key now ((k, at) ∷ last) e = elim (Bool-cases (str_eq k key)) [
  | inl f ↦
      let q : some at ≡ some now = rw f at e in
      let r : at ≡ now = cc in
      let l : ltb (at + minute) now ≡ false = ground arith in rw (l, f, r) refl
  | inr f ↦ elim (Bool-cases (ltb (at + minute) now)) [
    | inl g ↦ rw g (get-evict key now last (rw f at e))
    | inr g ↦ rw (g, f) (get-evict key now last (rw f at e))
  ]
]

get-remember :
    (key : Str) (now : ℕ) (last : Last)
    → get key last ≡ some now
    → get key (remember key now last) ≡ some now
unfolding remember start_over
get-remember key now last e = elim (Bool-cases (ltb max_keys (length last))) [
  | inr f ↦ rw f e
  | inl f ↦ rw f (elim (Bool-cases (ltb max_keys (length (evict now last)))) [
    | inl g ↦ unfold get in rw (g, str_eq_refl key) refl
    | inr g ↦ rw g (get-evict key now last e)
  ])
]

get-put_same : (key : Str) (now : ℕ) (last : Last) → get key (put key now last) ≡ some now
get-put_same key now last =
    get-put key key now last
    ∙ ap (λ (b : Bool). if b then some now else get key last) (str_eq_refl key)

-- A key that was just allowed is refused for a second, and the refusal changes nothing, also where
-- the map was full and started over.
pub allow_again :
    (key : Str) (now later : ℕ) (last : Last)
    → (allow key now last).0 ≡ true
    → later < now + second
    → allow key later (allow key now last).1 ≡ (false, (allow key now last).1)
unfolding allow
allow_again key now later last h l = elim (Bool-cases (is_recent now (get key last))) [
  | inl e ↦ absurd (let k : false ≡ true = rw e at h in cc)
  | inr e ↦
      rw (e, get-remember key now (put key now last) (get-put_same key now last))
        (unfold is_recent in rw (lt→ltb later (now + second) l) refl)
]
