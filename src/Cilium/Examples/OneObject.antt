-- ===== src/Cilium/Examples/OneObject.antt =====
-- A Kubernetes API that keeps one object, for the theorems on `Apply`.
use sandcastle.Prelude.{
  ◌≡◌, ◌⊎◌, refl, sym, ap, ◌∙◌, inl, inr, Bool, true, Option, none, some, List, [], ◌∷◌, Str,
  str_eq, str_eq_refl, str_eq→eq, In, Bool-cases, if◌then◌else◌, subst,
}
use sandcastle.Cilium.Render.{Cnp}
use sandcastle.Cilium.Apply.{Reply, value, not_found, failed, Object, Api, is_owned}
use sandcastle.Cilium.Pruned.{Laws}
use sandcastle.Cilium.Converged.Turns.{Saves}

-- A cluster with room for one object.
abbrev pub Slot : Type 0
Slot = Option Object

abbrev pub view : Str → Slot → Slot
view n none = none
view n (some o) = if str_eq o.body.name n then some o else none

abbrev found : Str → Slot → Reply Object
found n none = not_found
found n (some o) = if str_eq o.body.name n then value o else not_found

abbrev created : Cnp → Slot → Reply (Unit {0}) × Slot
created d none = (value tt, some (record { body = d; version = [] }))
created d (some o) = (failed, some o)

abbrev updated : Cnp → Str → Slot → Reply (Unit {0}) × Slot
updated d v none = (not_found, none)
updated d v (some o) =
    if str_eq o.body.name d.name
    then (value tt, some (record { body = d; version = v }))
    else (not_found, some o)

abbrev managed : Slot → List Object
managed none = []
managed (some o) = if is_owned o.body then o ∷ [] else []

abbrev deleted : Str → Slot → Reply (Unit {0}) × Slot
deleted n none = (not_found, none)
deleted n (some o) = if str_eq o.body.name n then (value tt, none) else (not_found, some o)

abbrev pub slot_api : Api Slot
slot_api = record {
  get = λ n s. (found n s, s);
  create = created;
  update = updated;
  list = λ s. (value (managed s), s);
  delete = deleted;
}

found-view : (n : Str) (s : Slot) (o : Object) → found n s ≡ value o → view n s ≡ some o
found-view n none o e = absurd (cc)
found-view n (some x) o e = elim (Bool-cases (str_eq x.body.name n)) [
  | inl f ↦ let k : value x ≡ value o = rw f at e in rw f (let q : x ≡ o = cc in ap some q)
  | inr f ↦ absurd (let k : not_found ≡ value o = rw f at e in cc)
]

created-view :
    (d : Cnp) (m : Str) (s : Slot)
    → (view m (created d s).1 ≡ view m s) ⊎ ((m ≡ d.name) × (view m s ≡ none))
created-view d m none = elim (Bool-cases (str_eq d.name m)) [
  | inl f ↦ inr (sym (str_eq→eq d.name m f), refl)
  | inr f ↦ inl (rw f refl)
]
created-view d m (some o) = inl refl

updated-view :
    (d : Cnp) (v m : Str) (s : Slot) → (view m (updated d v s).1 ≡ view m s) ⊎ (m ≡ d.name)
updated-view d v m none = inl refl
updated-view d v m (some o) = elim (Bool-cases (str_eq d.name m)) [
  | inl f ↦ inr (sym (str_eq→eq d.name m f))
  | inr f ↦ elim (Bool-cases (str_eq o.body.name d.name)) [
    | inl g ↦ inl (
        rw (g, f)
          (let q = str_eq→eq o.body.name d.name g in
            sym (
              ap (λ (n : Str). if str_eq n m then some o else none) q
              ∙ ap (λ (b : Bool). if b then some o else none) f)))
    | inr g ↦ inl (rw g refl)
  ]
]

managed_sound :
    (s : Slot) (o : Object)
    → In o (managed s)
    → (view o.body.name s ≡ some o) × (is_owned o.body ≡ true)
managed_sound none o m = elim m [ ]
managed_sound (some x) o m = elim (Bool-cases (is_owned x.body)) [
  | inr f ↦ absurd (rw f at m)
  | inl f ↦
      elim (rw f at m) as (λ _. (view o.body.name (some x) ≡ some o) × (is_owned o.body ≡ true)) [
        | inl q ↦ (
          ap (λ (y : Object). if str_eq x.body.name y.body.name then some x else none) q
              ∙ ap (λ (b : Bool). if b then some x else none) (str_eq_refl x.body.name)
              ∙ ap some (sym q),
          ap (λ (y : Object). is_owned y.body) q ∙ f,
        )
        | inr b ↦ elim b [ ]
      ]
]

managed_complete :
    (s : Slot) (n : Str) (o : Object)
    → view n s ≡ some o
    → is_owned o.body ≡ true
    → In o (managed s) × (o.body.name ≡ n)
managed_complete none n o v h = absurd (cc)
managed_complete (some x) n o v h = elim (Bool-cases (str_eq x.body.name n)) [
  | inr f ↦ absurd (let k : none ≡ some o = rw f at v in cc)
  | inl f ↦
      let k : some x ≡ some o = rw f at v in
      let q : x ≡ o = cc in
      (
        rw (ap (λ (y : Object). is_owned y.body) q ∙ h) (inl (sym q)),
        ap (λ (y : Object). y.body.name) (sym q) ∙ str_eq→eq x.body.name n f,
      )
]

deleted-view :
    (n m : Str) (s : Slot)
    → (view m (deleted n s).1 ≡ view m s) ⊎ ((m ≡ n) × (view m (deleted n s).1 ≡ none))
deleted-view n m none = inl refl
deleted-view n m (some o) = elim (Bool-cases (str_eq o.body.name n)) [
  | inr f ↦ inl (rw f refl)
  | inl f ↦ elim (Bool-cases (str_eq o.body.name m)) [
    | inr g ↦ inl (rw (f, g) refl)
    | inl g ↦ inr (sym (str_eq→eq o.body.name m g) ∙ str_eq→eq o.body.name n f, rw f refl)
  ]
]

deleted-gone : (n : Str) (s : Slot) → ((deleted n s).0 ≡ failed) ⊎ (view n (deleted n s).1 ≡ none)
deleted-gone n none = inr refl
deleted-gone n (some o) = elim (Bool-cases (str_eq o.body.name n)) [
  | inl f ↦ inr (rw f refl)
  | inr f ↦ inr (rw (f, f) refl)
]

pub slot_api-Laws : Laws slot_api view
slot_api-Laws = record {
  get-view = λ n m s. refl;
  get-value = λ n s o e. found-view n s o e;
  create-view = created-view;
  update-view = updated-view;
  list-view = λ m s. refl;
  list-sound = λ s items o e m.
      managed_sound s o (let q : items ≡ managed s = cc in subst (λ l. In o l) q m);
  list-complete = λ s items n o e v h.
      let (a, b) = managed_complete s n o v h in
      (let q : managed s ≡ items = cc in subst (λ l. In o l) q a, b);
  delete-view = deleted-view;
  delete-gone = deleted-gone;
}

update-saved :
    (d : Cnp) (v : Str) (s : Slot)
    → (updated d v s).0 ≡ value tt
    → (o : Object) × (view d.name (updated d v s).1 ≡ some o) × (o.body ≡ d)
update-saved d v none h = absurd (cc)
update-saved d v (some o) h = elim (Bool-cases (str_eq o.body.name d.name)) [
  | inl f ↦ rw f (record { body = d; version = v }, rw (str_eq_refl d.name) refl, refl)
  | inr f ↦ absurd (let k : not_found ≡ value tt = rw f at h in cc)
]

create-saved :
    (d : Cnp) (s : Slot)
    → (created d s).0 ≡ value tt
    → (o : Object) × (view d.name (created d s).1 ≡ some o) × (o.body ≡ d)
create-saved d none h = (record { body = d; version = [] }, rw (str_eq_refl d.name) refl, refl)
create-saved d (some o) h = absurd (cc)

pub slot_api-Saves : Saves slot_api view
slot_api-Saves = record { create-saved = create-saved; update-saved = update-saved }
