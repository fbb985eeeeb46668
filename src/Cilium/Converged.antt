-- ===== src/Cilium/Converged.antt =====
-- What a run of `Apply` of admin/internal/cilium/cilium.go that reports no error leaves in the
-- cluster.
pub mod Turns
use sandcastle.Prelude.{
  ◌≡◌, ◌≢◌, refl, sym, ap, subst, ◌∙◌, ◌⊎◌, inl, inr, Bool, true, false, Option, none, some, List,
  [], ◌∷◌, ◌++◌, Str, str_eq, str_eq→eq, In, In-append_right, In-append_left, In-of-any, any_of-In,
  str_eq_refl, Bool-cases,
}
use sandcastle.Cilium.Render.{Cnp, Spec}
use sandcastle.Cilium.Apply.{
  Reply, value, not_found, failed, Object, Api, SpecEq, ApplyError, list_error, delete_error,
  create_error, update_error, is_owned, on_reply, ensure_found, ensure_reply, ensure, ensure_all,
  wanted, prune, prune_reply, apply,
}
use sandcastle.Cilium.Pruned.{Laws, apply-revoked}
use sandcastle.Cilium.Converged.Turns.{Saves, InPlace, nil_both, keeps_place, reply_places}

module _ {S : Type 0} (api : Api S) (spec_eq : SpecEq) (view : Str → S → Option Object)
    (laws : Laws api view) where
  module _ (saves : Saves api view) (reflexive : (x : Spec) → spec_eq x x ≡ true) where
    keeps_places :
        (d : Cnp) (desired : List Cnp) (s : S)
        → ((e : Cnp) → In e desired → e.name ≡ d.name → e ≡ d)
        → InPlace spec_eq view d s
        → InPlace spec_eq view d (ensure_all api spec_eq desired s).1
    unfolding ensure_all
    keeps_places d [] s one p = p
    keeps_places d (e ∷ desired) s one p =
        keeps_places d desired (ensure api spec_eq e s).1 (λ c m. one c (inr m))
          (keeps_place api spec_eq view laws d e s (one e (inl refl)) p)

    all_places :
        (desired : List Cnp) (s : S)
        → ((d : Cnp) → In d desired → is_owned d ≡ true)
        → ((d e : Cnp) → In d desired → In e desired → e.name ≡ d.name → e ≡ d)
        → (ensure_all api spec_eq desired s).0 ≡ []
        → (d : Cnp) → In d desired
        → InPlace spec_eq view d (ensure_all api spec_eq desired s).1
    unfolding ensure_all ensure
    all_places [] s own one h d m = absurd m
    all_places (c ∷ desired) s own one h d m =
        let (a, b) = nil_both (ensure api spec_eq c s).0 _ h in
        elim m [
          | inl q ↦
              keeps_places d desired (ensure api spec_eq c s).1 (λ e n. one d e (inl q) (inr n))
                (subst (λ x. InPlace spec_eq view x (ensure api spec_eq c s).1) (sym q)
                  (reply_places api spec_eq view laws saves reflexive c s (api.get c.name s) refl
                    (own c (inl refl)) a))
          | inr n ↦
              all_places desired (ensure api spec_eq c s).1 (λ e k. own e (inr k))
                (λ e f k l. one e f (inr k) (inr l)) b d n
        ]

  -- Pruning keeps what is wanted.
  prune-wanted :
      (desired : List Cnp) (items : List Object) (n : Str) (s : S)
      → wanted api spec_eq desired n ≡ true
      → view n (prune api spec_eq desired items s).1 ≡ view n s
  unfolding prune
  prune-wanted desired [] n s w = refl
  prune-wanted desired (i ∷ items) n s w =
      elim (Bool-cases (wanted api spec_eq desired i.body.name)) [
        | inl e ↦ rw e (prune-wanted desired items n s w)
        | inr e ↦ rw e (
            prune-wanted desired items n (api.delete i.body.name s).1 w
            ∙ elim (laws.delete-view i.body.name n s) [
              | inl k ↦ k
              | inr q ↦ absurd (
                  let k : wanted api spec_eq desired n ≡ false =
                    ap (wanted api spec_eq desired) q.0 ∙ e in
                  cc)
            ])
      ]

  wanted_of-In :
      (d : Cnp) (desired : List Cnp) → In d desired → wanted api spec_eq desired d.name ≡ true
  unfolding wanted
  wanted_of-In d desired m = any_of-In (λ c. str_eq c.name d.name) d desired m (str_eq_refl d.name)

  In-of-wanted :
      (n : Str) (desired : List Cnp)
      → wanted api spec_eq desired n ≡ true
      → (d : Cnp) × In d desired × (d.name ≡ n)
  unfolding wanted
  In-of-wanted n desired h =
      let (d, m, e) = In-of-any (λ c. str_eq c.name n) desired h in (d, m, str_eq→eq d.name n e)

  -- Where Apply reports no error, every desired policy is in place afterwards, and every managed
  -- object has the name of a desired one, provided the desired policies carry the managed-by label
  -- and no two of them share a name.
  pub apply-InPlace :
      (desired : List Cnp) (s : S)
      → Saves api view
      → ((x : Spec) → spec_eq x x ≡ true)
      → ((d : Cnp) → In d desired → is_owned d ≡ true)
      → ((d e : Cnp) → In d desired → In e desired → e.name ≡ d.name → e ≡ d)
      → (apply api spec_eq desired s).0 ≡ []
      → ((d : Cnp) → In d desired → InPlace spec_eq view d (apply api spec_eq desired s).1)
        × ((n : Str) (o : Object)
            → view n (apply api spec_eq desired s).1 ≡ some o
            → is_owned o.body ≡ true
            → (d : Cnp) × In d desired × (d.name ≡ n))
  unfolding apply prune_reply
  apply-InPlace desired s saves reflexive own one h = (
    go (ensure_all api spec_eq desired s) (all_places saves reflexive desired s own one) _ refl h,
    λ n o v f. elim (Bool-cases (wanted api spec_eq desired n)) [
      | inl w ↦ In-of-wanted n desired w
      | inr w ↦ absurd (
          let k =
            apply-revoked api spec_eq view laws n desired s o w (no_error list_error)
              (no_error (delete_error n)) v in
          cc)
    ],
  )
    where
      no_error : (e : ApplyError) → ¬ In e (apply api spec_eq desired s).0
      no_error e m = let k : In e [] = subst (λ l. In e l) h m in k

      go :
          (x : List ApplyError × S)
          → (x.0 ≡ [] → (d : Cnp) → In d desired → InPlace spec_eq view d x.1)
          → (r : Reply (List Object) × S) → api.list x.1 ≡ r
          → (prune_reply api spec_eq desired x.0 r).0 ≡ []
          → (d : Cnp) → In d desired
          → InPlace spec_eq view d (prune_reply api spec_eq desired x.0 r).1
      go (errs, s1) places (value items, s2) e h d m =
          let (a, b) = nil_both errs _ h in
          let (o, v, f, g) = places a d m in
          (
            o,
            prune-wanted desired items d.name s2 (wanted_of-In d desired m)
                ∙ ap (λ (r : Reply (List Object) × S). view d.name r.1) (sym e)
                ∙ laws.list-view d.name s1
                ∙ v,
            f,
            g,
          )
      go (errs, s1) places (not_found, s2) e h d m =
          absurd (let (a, b) = nil_both errs _ h in let k : list_error ∷ [] ≡ [] = b in cc)
      go (errs, s1) places (failed, s2) e h d m =
          absurd (let (a, b) = nil_both errs _ h in let k : list_error ∷ [] ≡ [] = b in cc)
