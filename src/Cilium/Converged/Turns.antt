-- ===== src/Cilium/Converged/Turns.antt =====
-- One turn of the first loop of `Apply` of admin/internal/cilium/cilium.go.
use sandcastle.Prelude.{
  ◌≡◌, refl, sym, ap, ◌∙◌, ◌⊎◌, inl, inr, true, Option, some, List, [], ◌∷◌, ◌++◌, Str, Bool-cases,
}
use sandcastle.Cilium.Render.{Cnp, Spec}
use sandcastle.Cilium.Apply.{
  Reply, value, not_found, failed, Object, Api, SpecEq, ApplyError, is_owned, on_reply,
  ensure_found, ensure_reply, ensure,
}
use sandcastle.Cilium.Pruned.{Laws}

-- Documented behaviour of the API's writes: one that succeeds leaves what was sent.
pub record Saves {S : Type 0} (api : Api S) (view : Str → S → Option Object) : Type 0 where
  pub create-saved :
      (d : Cnp) (s : S)
      → (api.create d s).0 ≡ value tt
      → (o : Object) × (view d.name (api.create d s).1 ≡ some o) × (o.body ≡ d)
  pub update-saved :
      (d : Cnp) (v : Str) (s : S)
      → (api.update d v s).0 ≡ value tt
      → (o : Object) × (view d.name (api.update d v s).1 ≡ some o) × (o.body ≡ d)

-- The cluster holds a managed object of the policy's name with its spec.
abbrev pub InPlace : {S : Type 0} → SpecEq → (Str → S → Option Object) → Cnp → S → Type 0
InPlace spec_eq view d s =
    (o : Object) × (view d.name s ≡ some o)
    × (is_owned o.body ≡ true)
    × (spec_eq o.body.spec d.spec ≡ true)

on_reply_nil : (e : ApplyError) (r : Reply (Unit {0})) → on_reply e r ≡ [] → r ≡ value tt
unfolding on_reply
on_reply_nil e (value u) h = refl
on_reply_nil e not_found h = absurd (cc)
on_reply_nil e failed h = absurd (cc)

pub nil_both : {A : Type 0} (xs ys : List A) → xs ++ ys ≡ [] → (xs ≡ []) × (ys ≡ [])
nil_both [] ys h = (refl, h)
nil_both (x ∷ xs) ys h = absurd (let k : x ∷ (xs ++ ys) ≡ [] = h in cc)

module _ {S : Type 0} (api : Api S) (spec_eq : SpecEq) (view : Str → S → Option Object)
    (laws : Laws api view) where
  -- After a read of `n` the state holds what it held.
  after_get : (n m : Str) (s : S) (r : Reply Object × S) → api.get n s ≡ r → view m r.1 ≡ view m s
  after_get n m s r e = ap (λ (r : Reply Object × S). view m r.1) (sym e) ∙ laws.get-view n m s

  -- A turn of the loop leaves the objects of other names alone.
  found_other :
      (d : Cnp) (cur : Object) (m : Str) (s : S)
      → (view m (ensure_found api spec_eq d cur s).1 ≡ view m s) ⊎ (m ≡ d.name)
  unfolding ensure_found
  found_other d cur m s = elim (Bool-cases (is_owned cur.body)) [
    | inr e ↦ rw e (inl refl)
    | inl e ↦ elim (Bool-cases (spec_eq cur.body.spec d.spec)) [
      | inl f ↦ rw (e, f) (inl refl)
      | inr f ↦ rw (e, f) (laws.update-view d cur.version m s)
    ]
  ]

  reply_other :
      (d : Cnp) (m : Str) (r : Reply Object × S)
      → (view m (ensure_reply api spec_eq d r).1 ≡ view m r.1) ⊎ (m ≡ d.name)
  unfolding ensure_reply
  reply_other d m (not_found, s) = elim (laws.create-view d m s) [ inl k ↦ inl k | inr q ↦ inr q.0 ]
  reply_other d m (failed, s) = inl refl
  reply_other d m (value cur, s) = found_other d cur m s

  ensure_other :
      (d : Cnp) (m : Str) (s : S) → (view m (ensure api spec_eq d s).1 ≡ view m s) ⊎ (m ≡ d.name)
  unfolding ensure
  ensure_other d m s = elim (reply_other d m (api.get d.name s)) [
    | inl k ↦ inl (k ∙ laws.get-view d.name m s)
    | inr q ↦ inr q
  ]

  -- A turn for a policy that is in place changes nothing.
  reply_idle :
      (d : Cnp) (o : Object) (s : S) (r : Reply Object × S)
      → api.get d.name s ≡ r
      → view d.name s ≡ some o
      → is_owned o.body ≡ true
      → spec_eq o.body.spec d.spec ≡ true
      → view d.name (ensure_reply api spec_eq d r).1 ≡ some o
  unfolding ensure_reply ensure_found
  reply_idle d o s (not_found, s') e v a b = elim (laws.create-view d d.name s') [
    | inl k ↦ k ∙ after_get d.name d.name s _ e ∙ v
    | inr q ↦ absurd (let k = after_get d.name d.name s _ e in let w = q.1 in cc)
  ]
  reply_idle d o s (failed, s') e v a b = after_get d.name d.name s _ e ∙ v
  reply_idle d o s (value cur, s') e v a b =
      let same : cur ≡ o =
        (let p = laws.get-value d.name s cur (ap (λ (r : Reply Object × S). r.0) e) in cc) in
      rw (same, a, b) (after_get d.name d.name s _ e ∙ v)

  pub keeps_place :
      (d e : Cnp) (s : S)
      → (e.name ≡ d.name → e ≡ d)
      → InPlace spec_eq view d s
      → InPlace spec_eq view d (ensure api spec_eq e s).1
  unfolding ensure
  keeps_place d e s one (o, v, a, b) = elim (ensure_other e d.name s) [
    | inl k ↦ (o, k ∙ v, a, b)
    | inr q ↦
        let same : e ≡ d = one (sym q) in
        rw same (o, reply_idle d o s (api.get d.name s) refl v a b, a, b)
  ]

  module _ (saves : Saves api view) (reflexive : (x : Spec) → spec_eq x x ≡ true) where
    saved :
        (d : Cnp) (s : S)
        → is_owned d ≡ true
        → ((o : Object) × (view d.name s ≡ some o) × (o.body ≡ d))
        → InPlace spec_eq view d s
    saved d s own (o, v, e) =
        (o, v, ap is_owned e ∙ own, ap (λ (c : Cnp). spec_eq c.spec d.spec) e ∙ reflexive d.spec)

    pub reply_places :
        (d : Cnp) (s : S) (r : Reply Object × S)
        → api.get d.name s ≡ r
        → is_owned d ≡ true
        → (ensure_reply api spec_eq d r).0 ≡ []
        → InPlace spec_eq view d (ensure_reply api spec_eq d r).1
    unfolding ensure_reply ensure_found
    reply_places d s (not_found, s') e own h =
        saved d _ own (saves.create-saved d s' (on_reply_nil _ _ h))
    reply_places d s (failed, s') e own h = absurd (cc)
    reply_places d s (value cur, s') e own h = elim (Bool-cases (is_owned cur.body)) [
      | inr f ↦ absurd (let k = rw f at h in cc)
      | inl f ↦ elim (Bool-cases (spec_eq cur.body.spec d.spec)) [
        | inl g ↦
            rw (f, g)
              (
                cur,
                after_get d.name d.name s _ e
                    ∙ laws.get-value d.name s cur (ap (λ (r : Reply Object × S). r.0) e),
                f,
                g,
              )
        | inr g ↦
            rw (f, g)
              (saved d _ own
                (saves.update-saved d cur.version s' (on_reply_nil _ _ (rw (f, g) at h))))
      ]
    ]
