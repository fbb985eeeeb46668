-- ===== src/Cilium/Apply.antt =====
-- `Apply` of admin/internal/cilium/cilium.go against a Kubernetes API whose calls are parameters.
use sandcastle.Prelude.{
  Bool, false, not, none, some, List, [], ◌∷◌, ◌++◌, Str, str_eq, any, if◌then◌else◌,
}
use sandcastle.Prelude.Assoc.{get}
use sandcastle.Cilium.Render.{Cnp, Spec, owner_label, owner_value}

-- What a call returns: a value, IsNotFound, or another error.
pub data Reply (A : Type 0) : Type 0 where
  value : A → Reply A
  not_found failed : Reply A

-- An object as the API holds it, with its resourceVersion.
pub record Object : Type 0 where
  pub body : Cnp
  pub version : Str

-- The API's calls on its state; each may fail.
pub record Api (S : Type 0) : Type 0 where
  pub get : Str → S → Reply Object × S
  pub create : Cnp → S → Reply (Unit {0}) × S
  pub update : Cnp → Str → S → Reply (Unit {0}) × S
  pub list : S → Reply (List Object) × S
  pub delete : Str → S → Reply (Unit {0}) × S

-- `reflect.DeepEqual` on two specs.
abbrev pub SpecEq : Type 0
SpecEq = Spec → Spec → Bool

pub data ApplyError : Type 0 where
  create_error get_error unmanaged_error update_error delete_error : Str → ApplyError
  list_error : ApplyError

unfoldable pub is_owned : Cnp → Bool
is_owned c = elim (get owner_label c.labels) [ none ↦ false | some v ↦ str_eq v owner_value ]

unfoldable pub on_reply : {A : Type 0} → ApplyError → Reply A → List ApplyError
on_reply e (value a) = []
on_reply e not_found = e ∷ []
on_reply e failed = e ∷ []

-- An error of IsNotFound is no error of a deletion.
unfoldable pub on_delete : ApplyError → Reply (Unit {0}) → List ApplyError
on_delete e (value a) = []
on_delete e not_found = []
on_delete e failed = e ∷ []

module _ {S : Type 0} (api : Api S) (spec_eq : SpecEq) where
  unfoldable pub ensure_found : Cnp → Object → S → List ApplyError × S
  ensure_found d cur s =
      if not (is_owned cur.body)
      then (unmanaged_error d.name ∷ [], s)
      else if spec_eq cur.body.spec d.spec
      then ([], s)
      else let (r, s') = api.update d cur.version s in (on_reply (update_error d.name) r, s')

  unfoldable pub ensure_reply : Cnp → Reply Object × S → List ApplyError × S
  ensure_reply d (not_found, s) =
      let (r, s') = api.create d s in (on_reply (create_error d.name) r, s')
  ensure_reply d (failed, s) = (get_error d.name ∷ [], s)
  ensure_reply d (value cur, s) = ensure_found d cur s

  -- One turn of the first loop.
  unfoldable pub ensure : Cnp → S → List ApplyError × S
  ensure d s = ensure_reply d (api.get d.name s)

  unfoldable pub ensure_all : List Cnp → S → List ApplyError × S
  ensure_all [] s = ([], s)
  ensure_all (d ∷ desired) s =
      let (errs, s') = ensure d s in let (more, s'') = ensure_all desired s' in (errs ++ more, s'')

  -- want[name]
  unfoldable pub wanted : List Cnp → Str → Bool
  wanted desired name = any (λ d. str_eq d.name name) desired

  unfoldable pub prune : List Cnp → List Object → S → List ApplyError × S
  prune desired [] s = ([], s)
  prune desired (o ∷ items) s =
      if wanted desired o.body.name
      then prune desired items s
      else (let (r, s') = api.delete o.body.name s in
          let (more, s'') = prune desired items s' in
          (on_delete (delete_error o.body.name) r ++ more, s''))

  unfoldable pub prune_reply :
      List Cnp → List ApplyError → Reply (List Object) × S → List ApplyError × S
  prune_reply desired errs (value items, s) =
      let (more, s') = prune desired items s in (errs ++ more, s')
  prune_reply desired errs (not_found, s) = (errs ++ list_error ∷ [], s)
  prune_reply desired errs (failed, s) = (errs ++ list_error ∷ [], s)

  -- Apply: the joined errors, none where it returns nil.
  unfoldable pub apply : List Cnp → S → List ApplyError × S
  apply desired s = let (errs, s') = ensure_all desired s in prune_reply desired errs (api.list s')
