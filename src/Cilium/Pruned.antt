-- ===== src/Cilium/Pruned.antt =====
-- What a run of `Apply` of admin/internal/cilium/cilium.go leaves in the cluster.
use sandcastle.Prelude.{
  ◌≡◌, ◌≢◌, refl, sym, ap, subst, ◌∙◌, ◌⊎◌, inl, inr, true, false, Option, none, some, List, [],
  ◌∷◌, Str, In, In-append_left, In-append_right, Bool-cases,
}
use sandcastle.Cilium.Render.{Cnp}
use sandcastle.Cilium.Apply.{
  Reply, value, not_found, failed, Object, Api, SpecEq, ApplyError, delete_error, list_error,
  is_owned, on_delete, ensure_found, ensure_reply, ensure, ensure_all, wanted, prune, prune_reply,
  apply,
}

-- Documented behaviour of the API, with `view` for the object of a name: reads change nothing and
-- return what is there, a creation needs a free name, each write changes its own name only, a list by
-- label returns the managed objects, and a deletion that succeeds or finds nothing leaves nothing.
pub record Laws {S : Type 0} (api : Api S) (view : Str → S → Option Object) : Type 0 where
  pub get-view : (n m : Str) (s : S) → view m (api.get n s).1 ≡ view m s
  pub get-value : (n : Str) (s : S) (o : Object) → (api.get n s).0 ≡ value o → view n s ≡ some o
  pub create-view :
      (d : Cnp) (m : Str) (s : S)
      → (view m (api.create d s).1 ≡ view m s) ⊎ ((m ≡ d.name) × (view m s ≡ none))
  pub update-view :
      (d : Cnp) (v m : Str) (s : S) → (view m (api.update d v s).1 ≡ view m s) ⊎ (m ≡ d.name)
  pub list-view : (m : Str) (s : S) → view m (api.list s).1 ≡ view m s
  pub list-sound :
      (s : S) (items : List Object) (o : Object)
      → (api.list s).0 ≡ value items
      → In o items
      → (view o.body.name s ≡ some o) × (is_owned o.body ≡ true)
  pub list-complete :
      (s : S) (items : List Object) (n : Str) (o : Object)
      → (api.list s).0 ≡ value items
      → view n s ≡ some o
      → is_owned o.body ≡ true
      → In o items × (o.body.name ≡ n)
  pub delete-view :
      (n m : Str) (s : S)
      → (view m (api.delete n s).1 ≡ view m s) ⊎ ((m ≡ n) × (view m (api.delete n s).1 ≡ none))
  pub delete-gone :
      (n : Str) (s : S) → ((api.delete n s).0 ≡ failed) ⊎ (view n (api.delete n s).1 ≡ none)

module _ {S : Type 0} (api : Api S) (spec_eq : SpecEq) (view : Str → S → Option Object)
    (laws : Laws api view) where
  module _ (n : Str) (o : Object) (free : is_owned o.body ≡ false) where
    found_keeps :
        (d : Cnp) (cur : Object) (s : S)
        → view d.name s ≡ some cur
        → view n s ≡ some o
        → view n (ensure_found api spec_eq d cur s).1 ≡ some o
    unfolding ensure_found
    found_keeps d cur s c h = elim (Bool-cases (is_owned cur.body)) [
      | inr e ↦ rw e h
      | inl e ↦ rw e (elim (Bool-cases (spec_eq cur.body.spec d.spec)) [
        | inl f ↦ rw f h
        | inr f ↦ rw f (elim (laws.update-view d cur.version n s) [
          | inl k ↦ k ∙ h
          | inr q ↦ absurd (
              let same : cur ≡ o = (let p = sym c ∙ subst (λ m. view m s ≡ some o) q h in cc) in cc)
        ])
      ])
    ]

    ensure_keeps :
        (d : Cnp) (s : S) → view n s ≡ some o → view n (ensure api spec_eq d s).1 ≡ some o
    unfolding ensure ensure_reply
    ensure_keeps d s h = go (api.get d.name s) refl
      where
        go :
            (r : Reply Object × S)
            → api.get d.name s ≡ r
            → view n (ensure_reply api spec_eq d r).1 ≡ some o
        go (not_found, s') e =
            let h' : view n s' ≡ some o =
              ap (λ (r : Reply Object × S). view n r.1) (sym e) ∙ laws.get-view d.name n s ∙ h in
            elim (laws.create-view d n s') [ inl k ↦ k ∙ h' | inr (q, k) ↦ absurd (cc) ]
        go (failed, s') e =
            ap (λ (r : Reply Object × S). view n r.1) (sym e) ∙ laws.get-view d.name n s ∙ h
        go (value cur, s') e =
            found_keeps d cur s'
              (ap (λ (r : Reply Object × S). view d.name r.1) (sym e)
                ∙ laws.get-view d.name d.name s
                ∙ laws.get-value d.name s cur (ap (λ (r : Reply Object × S). r.0) e))
              (ap (λ (r : Reply Object × S). view n r.1) (sym e) ∙ laws.get-view d.name n s ∙ h)

    ensure_all_keeps :
        (desired : List Cnp) (s : S)
        → view n s ≡ some o
        → view n (ensure_all api spec_eq desired s).1 ≡ some o
    unfolding ensure_all
    ensure_all_keeps [] s h = h
    ensure_all_keeps (d ∷ desired) s h =
        ensure_all_keeps desired (ensure api spec_eq d s).1 (ensure_keeps d s h)

    prune_keeps :
        (desired : List Cnp) (items : List Object) (s : S)
        → ((i : Object) → In i items → i.body.name ≢ n)
        → view n s ≡ some o
        → view n (prune api spec_eq desired items s).1 ≡ some o
    unfolding prune
    prune_keeps desired [] s apart h = h
    prune_keeps desired (i ∷ items) s apart h =
        elim (Bool-cases (wanted api spec_eq desired i.body.name)) [
          | inl e ↦ rw e (prune_keeps desired items s (λ j m. apart j (inr m)) h)
          | inr e ↦ rw e (
              prune_keeps desired items (api.delete i.body.name s).1 (λ j m. apart j (inr m))
                (elim (laws.delete-view i.body.name n s) [
                  | inl k ↦ k ∙ h
                  | inr q ↦ absurd (apart i (inl refl) (sym q.0))
                ]))
        ]

    -- Apply never changes or deletes an object without the managed-by label, whatever calls fail.
    pub apply-unmanaged :
        (desired : List Cnp) (s : S)
        → view n s ≡ some o
        → view n (apply api spec_eq desired s).1 ≡ some o
    unfolding apply prune_reply
    apply-unmanaged desired s h =
        go (ensure_all api spec_eq desired s).1 (ensure_all_keeps desired s h) _ refl
      where
        go :
            (s1 : S)
            → view n s1 ≡ some o
            → (r : Reply (List Object) × S) → api.list s1 ≡ r
            → view n (prune_reply api spec_eq desired (ensure_all api spec_eq desired s).0 r).1
              ≡ some o
        go s1 k (value items, s2) e =
            prune_keeps desired items s2
              (λ i m q.
                let (a, b) =
                  laws.list-sound s1 items i (ap (λ (r : Reply (List Object) × S). r.0) e) m in
                let same : some i ≡ some o = sym a ∙ (subst (λ x. view x s1 ≡ some o) (sym q) k) in
                absurd (cc))
              (ap (λ (r : Reply (List Object) × S). view n r.1) (sym e) ∙ laws.list-view n s1 ∙ k)
        go s1 k (not_found, s2) e =
            ap (λ (r : Reply (List Object) × S). view n r.1) (sym e) ∙ laws.list-view n s1 ∙ k
        go s1 k (failed, s2) e =
            ap (λ (r : Reply (List Object) × S). view n r.1) (sym e) ∙ laws.list-view n s1 ∙ k

  module _ (n : Str) where
    -- Pruning brings nothing back.
    prune_absent :
        (desired : List Cnp) (items : List Object) (s : S)
        → view n s ≡ none
        → view n (prune api spec_eq desired items s).1 ≡ none
    unfolding prune
    prune_absent desired [] s h = h
    prune_absent desired (i ∷ items) s h =
        elim (Bool-cases (wanted api spec_eq desired i.body.name)) [
          | inl e ↦ rw e (prune_absent desired items s h)
          | inr e ↦ rw e (
              prune_absent desired items (api.delete i.body.name s).1
                (elim (laws.delete-view i.body.name n s) [ inl k ↦ k ∙ h | inr q ↦ q.1 ]))
        ]

    prune_shrinks :
        (desired : List Cnp) (items : List Object) (s : S)
        → (view n (prune api spec_eq desired items s).1 ≡ view n s)
          ⊎ (view n (prune api spec_eq desired items s).1 ≡ none)
    unfolding prune
    prune_shrinks desired [] s = inl refl
    prune_shrinks desired (i ∷ items) s =
        elim (Bool-cases (wanted api spec_eq desired i.body.name)) [
          | inl e ↦ rw e (prune_shrinks desired items s)
          | inr e ↦ rw e (elim (laws.delete-view i.body.name n s) [
            | inl k ↦ elim (prune_shrinks desired items (api.delete i.body.name s).1) [
              | inl j ↦ inl (j ∙ k)
              | inr j ↦ inr j
            ]
            | inr q ↦ inr (prune_absent desired items (api.delete i.body.name s).1 q.1)
          ])
        ]

    prune_gone :
        (desired : List Cnp) (items : List Object) (s : S) (i : Object)
        → In i items
        → i.body.name ≡ n
        → wanted api spec_eq desired n ≡ false
        → In (delete_error n) (prune api spec_eq desired items s).0
          ⊎ (view n (prune api spec_eq desired items s).1 ≡ none)
    unfolding prune on_delete
    prune_gone desired [] s i m e w = elim m [ ]
    prune_gone desired (j ∷ items) s i (inl q) e w =
        let jn : j.body.name ≡ n = ap (λ (x : Object). x.body.name) (sym q) ∙ e in
        rw (jn, w)
          (elim (laws.delete-gone n s) [
            | inl f ↦ inl (
                In-append_left _ (on_delete (delete_error n) (api.delete n s).0) _
                  (rw f (inl refl)))
            | inr g ↦ inr (prune_absent desired items (api.delete n s).1 g)
          ])
    prune_gone desired (j ∷ items) s i (inr m) e w =
        elim (Bool-cases (wanted api spec_eq desired j.body.name)) [
          | inl f ↦ rw f (prune_gone desired items s i m e w)
          | inr f ↦ rw f (elim (prune_gone desired items (api.delete j.body.name s).1 i m e w) [
            | inl h ↦ inl (
                In-append_right _
                  (on_delete (delete_error j.body.name) (api.delete j.body.name s).0) _ h)
            | inr h ↦ inr h
          ])
        ]

    -- Where neither the list nor the deletion of `n` fails, a managed policy that is no longer
    -- desired is gone after Apply, whatever else fails.
    pub apply-revoked :
        (desired : List Cnp) (s : S) (o : Object)
        → wanted api spec_eq desired n ≡ false
        → ¬ In list_error (apply api spec_eq desired s).0
        → ¬ In (delete_error n) (apply api spec_eq desired s).0
        → view n (apply api spec_eq desired s).1 ≡ some o
        → is_owned o.body ≡ false
    unfolding apply prune_reply
    apply-revoked desired s o w nl nd v =
        go (ensure_all api spec_eq desired s).0 (ensure_all api spec_eq desired s).1 _ refl nl nd v
      where
        go :
            (errs : List ApplyError) (s1 : S) (r : Reply (List Object) × S)
            → api.list s1 ≡ r
            → ¬ In list_error (prune_reply api spec_eq desired errs r).0
            → ¬ In (delete_error n) (prune_reply api spec_eq desired errs r).0
            → view n (prune_reply api spec_eq desired errs r).1 ≡ some o
            → is_owned o.body ≡ false
        go errs s1 (not_found, s2) e nl nd v =
            absurd (nl (In-append_right _ errs (list_error ∷ []) (inl refl)))
        go errs s1 (failed, s2) e nl nd v =
            absurd (nl (In-append_right _ errs (list_error ∷ []) (inl refl)))
        go errs s1 (value items, s2) e nl nd v = elim (Bool-cases (is_owned o.body)) [
          | inr f ↦ f
          | inl f ↦
              let here : view n s2 ≡ some o = elim (prune_shrinks desired items s2) [
                | inl k ↦ sym k ∙ v
                | inr k ↦ absurd (cc)
              ] in
              let before : view n s1 ≡ some o =
                sym (laws.list-view n s1)
                ∙ ap (λ (r : Reply (List Object) × S). view n r.1) e
                ∙ here in
              let (m, q) =
                laws.list-complete s1 items n o (ap (λ (r : Reply (List Object) × S). r.0) e) before
                  f in
              absurd (elim (prune_gone desired items s2 o m q w) [
                | inl k ↦ nd (In-append_right _ errs _ k)
                | inr k ↦ absurd (cc)
              ])
        ]
