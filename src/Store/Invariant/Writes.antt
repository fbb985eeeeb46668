-- ===== src/Store/Invariant/Writes.antt =====
-- Each write of a table keeps the invariant.
use sandcastle.Prelude.{
  ◌≡◌, ◌≢◌, refl, ◌∙◌, inl, inr, Bool, true, false, not, ◌&&◌, ◌||◌, Option, none, some, List, [],
  ◌∷◌, Str, str_eq, All, All-map, All-keep, All-append, keep, arith, ◌==◌, ==_iff, Bool-cases,
}
use sandcastle.Prelude.Int.{ℤ}
use sandcastle.Prelude.Distinct.{Unique-keep, Unique-snoc, none_of-any}
use sandcastle.Policy.Rules.{valid_rule}
use sandcastle.Store.Db.{Env, Uuid, Zone, RuleRow, Assignment, Request, Detail}
use sandcastle.Store.Tx.{pure, audit}
use sandcastle.Store.Keeps.{After-guard, After-or_fail, Keeps}
use sandcastle.Store.Sql.{
  zone_exists, zone_ref_ok, opt_is, insert_zone, insert_rule, insert_request,
}
use sandcastle.Store.Zones.{update_name, delete_zone_row, is_assigned}
use sandcastle.Store.Rules.{take_rule}
use sandcastle.Store.Requests.{host_rule, take_pending, decide_row, decided, is_pending}
use sandcastle.Store.Invariant.{is_plain, IsSound, Wf}
use sandcastle.Store.Invariant.ZoneLists.{
  exists-snoc, plain-snoc, defaults-snoc, ref_mono, no_default-defaults, set_name-Unique,
  exists-set_name, plain-set_name, defaults-set_name, exists-keep, plain-keep, defaults-keep,
}

-- Rules stay sound over a list of zones that has all the old ones.
pub IsSound-over :
    (zs ys : List Zone) (rows : List RuleRow)
    → ((u : Uuid) → zone_exists u zs ≡ true → zone_exists u ys ≡ true)
    → All (IsSound zs) rows
    → All (IsSound ys) rows
IsSound-over zs ys rows f =
    All-map (IsSound zs) (IsSound ys)
      (λ r s. record {
        valid = s.valid;
        checked = s.checked;
        zone_there = ref_mono zs ys f r.zone_id s.zone_there;
      })
      rows

pub audit-Wf :
    (env : Env) (actor action : Str) (detail : Detail) → Keeps Wf (audit env actor action detail)
unfolding audit
audit-Wf env actor action detail = record {
  at = λ db w. record {
    zone_ids = w.zone_ids;
    one_default = w.one_default;
    rules = w.rules;
    assigned_once = w.assigned_once;
    assigned = w.assigned;
    requests = w.requests;
    denials = w.denials;
  };
}

pub insert_zone-Wf : (z : Zone) → Keeps Wf (insert_zone z)
unfolding insert_zone pure
insert_zone-Wf z = record {
  at = λ db w. After-guard Wf _ _ _ db λ e. After-guard Wf _ _ _ db λ f.
      After-guard Wf _ _ _ db λ g. record {
        zone_ids =
            Unique-snoc (λ (y : Zone). y.id) z db.zones
              (All-map _ (λ (y : Zone). y.id ≢ z.id) (λ y h q. ground (arith, ==_iff y.id z.id))
                db.zones
                (none_of-any (λ y. y.id == z.id || str_eq y.name z.name) db.zones (ground arith)))
              w.zone_ids;
        one_default =
            ground (arith, defaults-snoc z db.zones, w.one_default, no_default-defaults db.zones);
        rules = IsSound-over db.zones _ db.rules (λ u. exists-snoc z u db.zones) w.rules;
        assigned_once = w.assigned_once;
        assigned =
            All-map _ _ (λ (a : Assignment). plain-snoc z a.zone_id db.zones) db.assignments
              w.assigned;
        requests = w.requests;
        denials = w.denials;
      };
}

pub insert_rule-Wf : (r : RuleRow) → valid_rule r.rule ≡ true → Keeps Wf (insert_rule r)
unfolding insert_rule pure
insert_rule-Wf r v = record {
  at = λ db w. After-guard Wf _ _ _ db λ e. After-guard Wf _ _ _ db λ f.
      After-guard Wf _ _ _ db λ g. record {
        zone_ids = w.zone_ids;
        one_default = w.one_default;
        rules =
            All-append (IsSound db.zones) db.rules (r ∷ []) w.rules
              (record { valid = v; checked = e; zone_there = g }, tt);
        assigned_once = w.assigned_once;
        assigned = w.assigned;
        requests = w.requests;
        denials = w.denials;
      };
}

pub insert_request-Wf :
    (q : Request) → valid_rule (host_rule q.host q.port) ≡ true → Keeps Wf (insert_request q)
unfolding insert_request pure
insert_request-Wf q v = record {
  at = λ db w. After-guard Wf _ _ _ db λ e. After-guard Wf _ _ _ db λ f. record {
    zone_ids = w.zone_ids;
    one_default = w.one_default;
    rules = w.rules;
    assigned_once = w.assigned_once;
    assigned = w.assigned;
    requests = All-append _ db.requests (q ∷ []) w.requests (v, tt);
    denials = w.denials;
  };
}

pub update_name-Wf : (z : Uuid) (name : Str) → Keeps Wf (update_name z name)
unfolding update_name pure
update_name-Wf z name = record {
  at = λ db w. After-guard Wf _ _ _ db λ e. After-guard Wf _ _ _ db λ f.
      After-guard Wf _ _ _ db λ g. record {
        zone_ids = set_name-Unique z name db.zones w.zone_ids;
        one_default = rw (defaults-set_name z name db.zones) w.one_default;
        rules =
            IsSound-over db.zones _ db.rules (λ u h. exists-set_name z name u db.zones ∙ h) w.rules;
        assigned_once = w.assigned_once;
        assigned =
            All-map _ _ (λ (a : Assignment) h. plain-set_name z name a.zone_id db.zones ∙ h)
              db.assignments w.assigned;
        requests = w.requests;
        denials = w.denials;
      };
}

-- No rule of the deleted zone is left, so every rule's zone is.
kept_rules :
    (z : Uuid) (zs : List Zone) (rows : List RuleRow)
    → All (IsSound zs) rows
    → All (IsSound (keep (λ y. not (y.id == z)) zs)) (keep (λ r. not (opt_is z r.zone_id)) rows)
kept_rules z zs [] h = tt
kept_rules z zs (r ∷ rows) h = elim (Bool-cases (opt_is z r.zone_id)) [
  | inl e ↦ rw e (kept_rules z zs rows h.1)
  | inr e ↦ rw e (
    record {
      valid = h.0.valid;
      checked = h.0.checked;
      zone_there = there r.zone_id e h.0.zone_there;
    },
    kept_rules z zs rows h.1,
  )
]
  where
    there :
        (o : Option Uuid)
        → opt_is z o ≡ false
        → zone_ref_ok o zs ≡ true
        → zone_ref_ok o (keep (λ y. not (y.id == z)) zs) ≡ true
    there none e t = unfold zone_ref_ok in refl
    there (some u) e t = unfold zone_ref_ok opt_is in exists-keep z u zs e t

pub delete_zone_row-Wf : (z : Uuid) → Keeps Wf (delete_zone_row z)
unfolding delete_zone_row pure is_assigned
delete_zone_row-Wf z = record {
  at = λ db w. After-guard Wf _ _ _ db λ e. record {
    zone_ids = Unique-keep (λ (y : Zone). y.id) (λ y. not (y.id == z)) db.zones w.zone_ids;
    one_default = omega (arith, w.one_default, defaults-keep z db.zones);
    rules = kept_rules z db.zones db.rules w.rules;
    assigned_once = w.assigned_once;
    assigned =
        others db.zones db.assignments
          (none_of-any (λ a. a.zone_id == z) db.assignments (ground arith)) w.assigned;
    requests = w.requests;
    denials = w.denials;
  };
}
  where
    others :
        (zs : List Zone) (rows : List Assignment)
        → All (λ a. (a.zone_id == z) ≡ false) rows
        → All (λ a. is_plain a.zone_id zs ≡ true) rows
        → All (λ a. is_plain a.zone_id (keep (λ y. not (y.id == z)) zs) ≡ true) rows
    others zs [] n h = tt
    others zs (a ∷ rows) n h = (plain-keep z a.zone_id zs n.0 h.0, others zs rows n.1 h.1)

pub take_rule-Wf : (u : Uuid) → Keeps Wf (take_rule u)
unfolding take_rule pure
take_rule-Wf u = record {
  at = λ db w. After-or_fail Wf _ _ _ db λ r e. record {
    zone_ids = w.zone_ids;
    one_default = w.one_default;
    rules = All-keep (IsSound db.zones) (λ q. not (q.id == u)) db.rules w.rules;
    assigned_once = w.assigned_once;
    assigned = w.assigned;
    requests = w.requests;
    denials = w.denials;
  };
}

decide_row-All :
    (env : Env) (actor : Str) (approve : Bool) (ttl : ℤ) (u : Uuid) (rows : List Request)
    → All (λ q. valid_rule (host_rule q.host q.port) ≡ true) rows
    → All
        (λ q. valid_rule (host_rule q.host q.port) ≡ true)
        (decide_row env actor approve ttl u rows)
unfolding decide_row decided
decide_row-All env actor approve ttl u [] h = tt
decide_row-All env actor approve ttl u (q ∷ rows) h =
    elim (Bool-cases (q.id == u && is_pending q.status)) [
      | inl e ↦ rw e (h.0, decide_row-All env actor approve ttl u rows h.1)
      | inr e ↦ rw e (h.0, decide_row-All env actor approve ttl u rows h.1)
    ]

pub take_pending-Wf :
    (env : Env) (actor : Str) (approve : Bool) (ttl : ℤ) (u : Uuid)
    → Keeps Wf (take_pending env actor approve ttl u)
unfolding take_pending pure
take_pending-Wf env actor approve ttl u = record {
  at = λ db w. After-or_fail Wf _ _ _ db λ q e. record {
    zone_ids = w.zone_ids;
    one_default = w.one_default;
    rules = w.rules;
    assigned_once = w.assigned_once;
    assigned = w.assigned;
    requests = decide_row-All env actor approve ttl u db.requests w.requests;
    denials = w.denials;
  };
}
