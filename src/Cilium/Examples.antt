-- ===== src/Cilium/Examples.antt =====
-- The theorems on DNS policies at concrete inputs.
pub mod OneObject
pub mod DeepEqual
use sandcastle.Prelude.{
  ◌≡◌, ◌↔◌, refl, sym, ap, ◌∙◌, inl, inr, Bool, true, false, not, Option, none, some, List, [], ◌∷◌,
  Str, codes, str_eq, str_eq_refl, str_eq→eq, any, In, any_of-In, In-of-any, arith, Bool-cases,
  if◌then◌else◌, subst,
}
use sandcastle.Prelude.Assoc.{get}
use sandcastle.Prelude.Int.{pos}
use sandcastle.Policy.Rules.{Rule, Input, dns_kind}
use sandcastle.Cilium.Render.{
  Match, match_name, Cnp, exists_op, in_op, not_in_op, match_on, owner_label, owner_value, cnp,
  default_expr,
}
use sandcastle.Cilium.Selected.{LabelLaws}
use sandcastle.Cilium.Apply.{
  Reply, value, not_found, failed, Object, Api, ApplyError, delete_error, list_error, is_owned,
  apply, wanted, ensure_all, ensure, ensure_reply, ensure_found, prune_reply, prune, on_delete,
}
use sandcastle.Cilium.Pruned.{Laws, apply-unmanaged, apply-revoked}
use sandcastle.Cilium.Examples.OneObject.{Slot, view, slot_api, slot_api-Laws}

abbrev among : Str → List Str → Bool
among v vs = any (λ w. str_eq v w) vs

-- Kubernetes label selectors.
abbrev values_of : Option (List Str) → List Str
values_of none = []
values_of (some vs) = vs

abbrev pub fits : Match → Option Str → Bool
fits m none = str_eq m.operator not_in_op
fits m (some v) =
    if str_eq m.operator in_op
    then among v (values_of m.values)
    else if str_eq m.operator not_in_op
    then not (among v (values_of m.values))
    else str_eq m.operator exists_op

among-In : (v : Str) (vs : List Str) → (among v vs ≡ true) ↔ In v vs
among-In v vs = (
  λ h. let (w, m, e) = In-of-any (λ w. str_eq v w) vs h in subst_In w m (str_eq→eq v w e),
  λ m. any_of-In (λ w. str_eq v w) v vs m (str_eq_refl v),
)
  where
    subst_In : (w : Str) → In w vs → v ≡ w → In v vs
    subst_In w m e = subst (λ x. In x vs) (sym e) m

pub fits-LabelLaws : LabelLaws fits
unfolding match_on str_eq codes
fits-LabelLaws = record {
  in-some = λ v vs. among-In v vs;
  in-none = λ vs. refl;
  not_in-some = λ v vs. (
    λ h m. (let k = (among-In v vs).1 m in absurd (ground arith)),
    λ n. elim (Bool-cases (among v vs)) [
      | inl e ↦ absurd (n ((among-In v vs).0 e))
      | inr e ↦ rw e refl
    ],
  );
  exists-some = λ v. refl;
  exists-none = refl;
}

abbrev dns_rule : Rule
dns_rule = record { kind = dns_kind; value = codes "git.io"; port = pos 0 }

-- Workspace b is assigned to the zone w; the others are in the default zone m.
abbrev sample : Input
sample = record {
  default_zone = codes "m";
  zone_rules = (codes "m", dns_rule ∷ []) ∷ (codes "w", []) ∷ [];
  assign = (codes "b", codes "w") ∷ [];
  grants = (codes "b", dns_rule ∷ []) ∷ [];
  pods = [];
}

abbrev plain_cnp : Cnp
plain_cnp = record {
  name = codes "p";
  namespace = codes "sandcastle-workspaces";
  labels = [];
  spec = record { selector = []; to_endpoints = []; ports = []; dns = [] };
}

abbrev foreign : Object
foreign = record { body = plain_cnp; version = codes "1" }

foreign-free : is_owned plain_cnp ≡ false
unfolding is_owned get
foreign-free = refl

apply-unmanaged_example :
    view (codes "p") (apply slot_api (λ a b. false) (plain_cnp ∷ []) (some foreign)).1
    ≡ some foreign
apply-unmanaged_example =
    apply-unmanaged slot_api (λ a b. false) view slot_api-Laws (codes "p") foreign foreign-free
      (plain_cnp ∷ []) (some foreign) (rw (str_eq_refl (codes "p")) refl)

-- A managed policy that is desired, beside one that no longer is.
abbrev owned_cnp : Cnp
owned_cnp = record plain_cnp { labels = (owner_label, owner_value) ∷ [] }

abbrev kept_object : Object
kept_object = record { body = owned_cnp; version = codes "1" }

abbrev run_result : List ApplyError × Slot
run_result = apply slot_api (λ a b. true) (plain_cnp ∷ []) (some foreign)

run-errors : run_result.0 ≡ ApplyError.unmanaged_error (codes "p") ∷ []
unfolding apply ensure_all ensure ensure_reply ensure_found prune_reply prune is_owned get codes
    str_eq
run-errors = refl

run-slot : run_result.1 ≡ some foreign
unfolding apply ensure_all ensure ensure_reply ensure_found prune_reply prune is_owned get codes
    str_eq
run-slot = refl

-- Without any desired policy, the managed one is deleted.
abbrev emptied : List ApplyError × Slot
emptied = apply slot_api (λ a b. true) [] (some kept_object)

emptied-slot : emptied ≡ ([], none)
unfolding apply ensure_all prune_reply prune is_owned get codes str_eq wanted on_delete
emptied-slot = refl

-- An object without the label is left where nothing is desired.
apply-revoked_example : is_owned foreign.body ≡ false
apply-revoked_example =
    apply-revoked slot_api (λ a b. true) view slot_api-Laws (codes "p") [] (some foreign) foreign
      (unfold wanted in refl) (no_errors list_error) (no_errors (delete_error (codes "p")))
      still_there
  where
    no_errors : (e : ApplyError) → In e (apply slot_api (λ a b. true) [] (some foreign)).0 → ⊥
    no_errors e m =
        unfold apply ensure_all prune_reply prune is_owned get codes str_eq wanted on_delete in m

    still_there : view (codes "p") (apply slot_api (λ a b. true) [] (some foreign)).1 ≡ some foreign
    still_there =
        unfold apply ensure_all prune_reply prune is_owned get codes str_eq wanted on_delete in refl

-- Into an empty cluster the one policy of a zone with one DNS rule is put.
abbrev one_zone : Input
one_zone = record sample { zone_rules = (codes "m", dns_rule ∷ []) ∷ []; grants = [] }

abbrev zone_cnp : Cnp
zone_cnp =
    cnp (codes "ws-dns-zone-m") (default_expr (codes "b" ∷ [])) (match_name (codes "git.io") ∷ [])
