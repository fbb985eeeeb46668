-- ===== src/Store/Invariant/Parts.antt =====
-- The steps that several calls share keep the invariant.
use sandcastle.Prelude.{
  ℕ, suc, ◌≡◌, Bool, true, false, not, ◌&&◌, ◌||◌, List, [], ◌∷◌, Str, All, All-map, All-keep, find,
  ◌==◌, &&_split,
}
use sandcastle.Prelude.Int.{ℤ, pos, int_lt}
use sandcastle.Policy.Rules.{Rule, valid_rule}
use sandcastle.Store.Db.{Env, Uuid, Zone, RuleRow, Detail, TxError, own, conflict, not_found}
use sandcastle.Store.Tx.{guard, ◌>>=◌}
use sandcastle.Store.Keeps.{
  Keeps, Keeps-pure, Keeps-bind, Keeps-guard, Keeps-as_uuid, Keeps-or_fail,
}
use sandcastle.Store.Sql.{opt_is, insert_rule}
use sandcastle.Store.Zones.{zone_by_id, is_assigned, clone_rules, copy_rules, refuse_used}
use sandcastle.Store.Rules.{grant, grant_row}
use sandcastle.Store.Invariant.{IsSound, Wf}
use sandcastle.Store.Invariant.Writes.{audit-Wf, insert_rule-Wf}

module _ (env : Env) (actor : Str) where
  grant_insert-Wf :
      (ws : Uuid) (r : Rule) (ttl : ℤ)
      → valid_rule r ≡ true
      → Keeps Wf (insert_rule (grant_row env actor ws r ttl))
  unfolding grant_row
  grant_insert-Wf ws r ttl v = insert_rule-Wf _ v

  pub grant-Wf :
      (ws : Str) (r : Rule) (ttl : ℤ) (extra : Detail) → Keeps Wf (grant env actor ws r ttl extra)
  unfolding grant
  grant-Wf ws r ttl extra = Keeps-guard (valid_rule r && int_lt (pos 0) ttl) _ _ (λ e.
      Keeps-bind _ _ (Keeps-as_uuid env ws) (λ u.
        Keeps-bind _ _ (grant_insert-Wf u r ttl (&&_split {a = valid_rule r} e).0)
          (λ x. audit-Wf env actor _ _)))

  pub zone_by_id-Wf : (z : Uuid) → Keeps Wf (zone_by_id z)
  unfolding zone_by_id
  zone_by_id-Wf z = record {
    at = λ db w. (Keeps-or_fail {P = Wf} (find (λ y. y.id == z) db.zones) (own not_found)).at db w;
  }

  pub guard-Wf : (b : Bool) (e : TxError) → Keeps Wf (guard b e)
  unfolding ◌>>=◌
  guard-Wf true e = record { at = λ db w. w }
  guard-Wf false e = record { at = λ db w. tt }

  pub refuse_used-Wf : (zone : Zone) (z : Uuid) → Keeps Wf (refuse_used zone z)
  unfolding refuse_used
  refuse_used-Wf zone z = record {
    at = λ db w.
        (guard-Wf (not (zone.is_default || is_assigned z db.assignments)) (own conflict)).at db w;
  }

  pub copy_rules-Wf :
      (z : Uuid) (n : ℕ) (rows : List RuleRow)
      → All (λ r. valid_rule r.rule ≡ true) rows
      → Keeps Wf (copy_rules env actor z n rows)
  unfolding copy_rules
  copy_rules-Wf z n [] h = Keeps-pure tt
  copy_rules-Wf z n (r ∷ rows) h =
      Keeps-bind _ _ (insert_rule-Wf _ h.0) (λ x. copy_rules-Wf z (suc n) rows h.1)

  pub clone_rules-Wf : (z src : Uuid) → Keeps Wf (clone_rules env actor z src)
  unfolding clone_rules
  clone_rules-Wf z src = record {
    at = λ db w.
        (copy_rules-Wf z 1 _ (
            All-keep _ (λ r. opt_is src r.zone_id) db.rules
              (All-map _ _ (λ (r : RuleRow) (s : IsSound db.zones r). s.valid) db.rules
                w.rules))).at
          db w;
  }
