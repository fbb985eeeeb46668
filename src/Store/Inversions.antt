-- ===== src/Store/Inversions.antt =====
-- What the steps of `Decide` in admin/internal/store/requests.go have done where they succeed.
use sandcastle.Prelude.{◌≡◌, sym, ap, ◌∙◌, Bool, true, ◌&&◌, some, [], ◌∷◌, ◌++◌, Str, ◌==◌, find}
use sandcastle.Prelude.Int.{ℤ, pos, int_lt}
use sandcastle.Policy.Rules.{Rule, valid_rule}
use sandcastle.Store.Db.{Env, Uuid, Request, RuleRow, Db, Detail}
use sandcastle.Store.Tx.{
  done, pure, guard, or_fail, as_uuid, audit, bind_inv, or_fail_inv, guard_inv,
}
use sandcastle.Store.Sql.{insert_rule}
use sandcastle.Store.Rules.{grant, grant_row}
use sandcastle.Store.Requests.{is_pending, decide_row, take_pending}

pub as_uuid_inv :
    (env : Env) (s : Str) (db d : Db) (u : Uuid)
    → as_uuid env s db ≡ done u d
    → (env.parse_uuid s ≡ some u) × (d ≡ db)
unfolding as_uuid
as_uuid_inv env s db d u e = or_fail_inv (env.parse_uuid s) _ db d u e

-- The table after a successful insert.
insert_rule_inv :
    (r : RuleRow) (db d : Db) (x : Unit {0})
    → insert_rule r db ≡ done x d
    → (d.rules ≡ db.rules ++ r ∷ []) × (d.requests ≡ db.requests)
unfolding insert_rule
insert_rule_inv r db d x e =
    let (_, c1, g1, e1) = bind_inv (guard _ _) _ db d x e in
    let (_, c2, g2, e2) = bind_inv (guard _ _) _ c1 d x e1 in
    let (_, c3, g3, e3) = bind_inv (guard _ _) _ c2 d x e2 in
    let q1 = (guard_inv _ _ db c1 _ g1).1 in
    let q2 = (guard_inv _ _ c1 c2 _ g2).1 in
    let q3 = (guard_inv _ _ c2 c3 _ g3).1 in
    let q : record c3 { rules = c3.rules ++ r ∷ [] } ≡ d = (unfold pure in (cc)) in
    let s : c3 ≡ db = q3 ∙ q2 ∙ q1 in
    (
      ap (λ (y : Db). y.rules) (sym q) ∙ ap (λ (y : Db). y.rules ++ r ∷ []) s,
      ap (λ (y : Db). y.requests) (sym q) ∙ ap (λ (y : Db). y.requests) s,
    )

pub audit_inv :
    (env : Env) (actor action : Str) (detail : Detail) (db d : Db) (x : Unit {0})
    → audit env actor action detail db ≡ done x d
    → (d.rules ≡ db.rules) × (d.requests ≡ db.requests)
unfolding audit
audit_inv env actor action detail db d x e =
    let q : record db {
      audit =
          db.audit
          ++ (record { at = env.now; actor = actor; action = action; detail = detail }) ∷ [];
    }
        ≡ d =
      cc in
    (ap (λ (y : Db). y.rules) (sym q), ap (λ (y : Db). y.requests) (sym q))

pub grant_inv :
    (env : Env) (actor ws : Str) (r : Rule) (ttl : ℤ) (extra : Detail) (u : Uuid) (db d : Db)
    (x : Unit {0})
    → env.parse_uuid ws ≡ some u
    → grant env actor ws r ttl extra db ≡ done x d
    → ((valid_rule r && int_lt (pos 0) ttl) ≡ true)
      × (d.rules ≡ db.rules ++ grant_row env actor u r ttl ∷ [])
      × (d.requests ≡ db.requests)
unfolding grant
grant_inv env actor ws r ttl extra u db d x p e =
    let (_, c1, g1, e1) = bind_inv (guard _ _) _ db d x e in
    let (w, c2, g2, e2) = bind_inv (as_uuid env ws) _ c1 d x e1 in
    let (_, c3, g3, e3) = bind_inv (insert_rule (grant_row env actor w r ttl)) _ c2 d x e2 in
    let (b, s1) = guard_inv _ _ db c1 _ g1 in
    let (q, s2) = as_uuid_inv env ws c1 c2 w g2 in
    let (i, j) = insert_rule_inv _ c2 c3 _ g3 in
    let (k, l) = audit_inv env actor _ _ c3 d x e3 in
    let w_eq : w ≡ u = (let t = sym q ∙ p in cc) in
    let s : c2 ≡ db = s2 ∙ s1 in
    (
      b,
      k
          ∙ i
          ∙ ap (λ (y : Db). y.rules ++ grant_row env actor w r ttl ∷ []) s
          ∙ ap (λ (v : Uuid). db.rules ++ grant_row env actor v r ttl ∷ []) w_eq,
      l ∙ j ∙ ap (λ (y : Db). y.requests) s,
    )

pub take_pending_inv :
    (env : Env) (actor : Str) (approve : Bool) (ttl : ℤ) (u : Uuid) (db d : Db) (q : Request)
    → take_pending env actor approve ttl u db ≡ done q d
    → (find (λ r. r.id == u && is_pending r.status) db.requests ≡ some q)
      × (d.rules ≡ db.rules)
      × (d.requests ≡ decide_row env actor approve ttl u db.requests)
unfolding take_pending
take_pending_inv env actor approve ttl u db d q e =
    let (q', c, g, e1) = bind_inv (or_fail _ _) _ db d q e in
    let (f, s) = or_fail_inv _ _ db c q' g in
    let k : done q' (record c { requests = decide_row env actor approve ttl u c.requests })
        ≡ done q d =
      unfold pure in e1 in
    let a : q' ≡ q = cc in
    let t : record c { requests = decide_row env actor approve ttl u c.requests } ≡ d = cc in
    (
      f ∙ ap some a,
      ap (λ (y : Db). y.rules) (sym t) ∙ ap (λ (y : Db). y.rules) s,
      ap (λ (y : Db). y.requests) (sym t)
          ∙ ap (λ (y : Db). decide_row env actor approve ttl u y.requests) s,
    )
