-- ===== src/Store/Decisions.antt =====
-- Filing and deciding requests, of admin/internal/store/requests.go: what a call that succeeds has
-- done, and what a second one finds.
use sandcastle.Prelude.{
  ◌≡◌, refl, sym, ap, ◌∙◌, Bool, true, false, ◌&&◌, Option, none, some, List, [], ◌∷◌, ◌++◌, Str,
  codes, str_eq, ◌==◌, find, find-some, arith, if◌then◌else◌, ℕ, ◌+◌, ◌<◌, ◌↔◌, ◌⊎◌, inl, inr,
  subst, In, ==_iff, &&_split, Bool-cases,
}
use sandcastle.Prelude.Int.{ℤ, pos, negsuc, int_lt, pos_part}
use sandcastle.Policy.Rules.{host_kind, valid_rule}
use sandcastle.Store.Db.{
  Env, Uuid, ReadsBack, Status, pending, approved, denied, Request, RuleRow, Db, Detail, ok, err,
  conflict, own, text, flag, map_err,
}
use sandcastle.Store.Tx.{
  done, or_fail, run_tx, settle, as_uuid, audit, bind_done, bind_fail, bind_inv, run_tx_inv,
  as_uuid-done,
}
use sandcastle.Store.Rules.{grant, grant_row}
use sandcastle.Store.Requests.{host_rule, is_pending, decided, decide_row, take_pending, decide}
use sandcastle.Store.Inversions.{audit_inv, as_uuid_inv, grant_inv, take_pending_inv}

-- What the statements of a decision that succeeds on the pending request `q` left.
record Ran (env : Env) (actor : Str) (approve : Bool) (ttl : ℤ) (u : Uuid) (q : Request) (db d : Db)
    : Type 0 where
  pub was_pending : find (λ r. r.id == u && is_pending r.status) db.requests ≡ some q
  pub requests : d.requests ≡ decide_row env actor approve ttl u db.requests
  pub approvable :
      (if approve then valid_rule (host_rule q.host q.port) && int_lt (pos 0) ttl else true) ≡ true
  pub rules : d.rules ≡ (
      if approve
      then db.rules ++ grant_row env actor q.workspace_id (host_rule q.host q.port) ttl ∷ []
      else db.rules)

decide-Ran :
    (env : Env) (actor id : Str) (approve : Bool) (ttl : ℤ) (db : Db)
    → ReadsBack env
    → (decide env actor id approve ttl db).0 ≡ ok tt
    → (u : Uuid) × (q : Request) × (env.parse_uuid id ≡ some u)
      × Ran env actor approve ttl u q db (decide env actor id approve ttl db).1
unfolding decide
decide-Ran env actor id approve ttl db back e =
    let e0 = run_tx_inv _ db tt e in
    let (u, c1, g1, e1) = bind_inv (as_uuid env id) _ db _ tt e0 in
    let (q, c2, g2, e2) = bind_inv (take_pending env actor approve ttl u) _ c1 _ tt e1 in
    let (p, s1) = as_uuid_inv env id db c1 u g1 in
    let (f, i, j) = take_pending_inv env actor approve ttl u c1 c2 q g2 in
    let (a, b, c) = rest approve u q c2 (decide env actor id approve ttl db).1 e2 in
    (
      u,
      q,
      p,
      record {
        was_pending =
            ap (λ (y : Db). find (λ r. r.id == u && is_pending r.status) y.requests) (sym s1) ∙ f;
        requests = c ∙ j ∙ ap (λ (y : Db). decide_row env actor approve ttl u y.requests) s1;
        approvable = a;
        rules =
            b
            ∙ ap
                (λ (l : List RuleRow).
                  if approve
                  then l ++ grant_row env actor q.workspace_id (host_rule q.host q.port) ttl ∷ []
                  else l)
                (i ∙ ap (λ (y : Db). y.rules) s1);
      },
    )
  where
    extra : Request → Detail
    extra q =
        (codes "request", text id) ∷ (codes "self_approved", flag (str_eq actor q.requester)) ∷ []

    rest :
        (b : Bool) (u : Uuid) (q : Request) (c d : Db)
        → (if b
              then grant env actor
                  (env.show_uuid q.workspace_id)
                  (host_rule q.host q.port)
                  ttl
                  (extra q)
              else audit env actor (codes "deny") (extra q))
            c
          ≡ done tt d
        → ((if b then valid_rule (host_rule q.host q.port) && int_lt (pos 0) ttl else true) ≡ true)
          × (d.rules ≡ (
              if b
              then c.rules ++ grant_row env actor q.workspace_id (host_rule q.host q.port) ttl ∷ []
              else c.rules))
          × (d.requests ≡ c.requests)
    rest true u q c d e =
        let (a, i, j) =
          grant_inv env actor (env.show_uuid q.workspace_id) (host_rule q.host q.port) ttl (extra q)
            q.workspace_id c d tt (back.parse-show q.workspace_id) e in
        (a, i, j)
    rest false u q c d e = let (i, j) = audit_inv env actor _ _ c d tt e in (refl, i, j)

-- A row is the pending request of the id.
abbrev IsAsked : Uuid → Request → Type 0
IsAsked u q = (q.id ≡ u) × (q.status ≡ pending)

-- What a decision, of which time and actor, makes of the row of the request.
abbrev Marked : Env → Str → Bool → ℤ → Request → Request → Type 0
Marked env actor true ttl q y = y ≡ record q {
  status = approved;
  decided_by = some actor;
  ttl = some ttl;
  decided_at = some env.now;
}
Marked env actor false ttl q y =
    y ≡ record q { status = denied; decided_by = some actor; ttl = none; decided_at = some env.now }

-- Row by row: the pending request of the id is marked, and the others stay.
abbrev pub Marks : Env → Str → Bool → ℤ → Uuid → List Request → List Request → Type 0
Marks env actor approve ttl u [] ys = ys ≡ []
Marks env actor approve ttl u (q ∷ qs) [] = ⊥
Marks env actor approve ttl u (q ∷ qs) (y ∷ ys) =
    ((IsAsked u q × Marked env actor approve ttl q y) ⊎ ((¬ IsAsked u q) × (y ≡ q)))
    × Marks env actor approve ttl u qs ys

-- An approval adds one grant: to the workspace that asked, of the host and port that it asked for,
-- for a positive time from now. A denial adds none.
abbrev pub Granted : Env → Str → Bool → ℤ → Request → List RuleRow → List RuleRow → Type 0
Granted env actor true ttl q before after =
    (g : RuleRow) × (t : ℕ) × (after ≡ before ++ g ∷ [])
    × (valid_rule g.rule ≡ true)
    × (g.rule ≡ record { kind = host_kind; value = q.host; port = q.port })
    × (g.zone_id ≡ none)
    × (g.workspace_id ≡ some q.workspace_id)
    × (ttl ≡ pos t)
    × (0 < t)
    × (g.expires_at ≡ some (env.now + t))
    × (g.created_by ≡ actor)
Granted env actor false ttl q before after = after ≡ before

-- What a successful decision on the pending request `q` has done to rules and requests.
pub record Decided (env : Env) (actor : Str) (approve : Bool) (ttl : ℤ) (u : Uuid) (q : Request)
    (db d : Db) : Type 0 where
  pub stood : In q db.requests
  pub asked : IsAsked u q
  pub requests : Marks env actor approve ttl u db.requests d.requests
  pub rules : Granted env actor approve ttl q db.rules d.rules

asked_iff : (u : Uuid) (q : Request) → ((q.id == u && is_pending q.status) ≡ true) ↔ IsAsked u q
asked_iff u q = (
  λ h. let (a, b) = &&_split h in ((==_iff q.id u).0 a, only_pending q.status b),
  λ (a, b). rw ((==_iff q.id u).1 a, b) (unfold is_pending in refl),
)
  where
    only_pending : (s : Status) → is_pending s ≡ true → s ≡ pending
    only_pending pending h = refl
    only_pending approved h = absurd (unfold is_pending in cc)
    only_pending denied h = absurd (unfold is_pending in cc)

decide_row-Marks :
    (env : Env) (actor : Str) (approve : Bool) (ttl : ℤ) (u : Uuid) (qs : List Request)
    → Marks env actor approve ttl u qs (decide_row env actor approve ttl u qs)
unfolding decide_row
decide_row-Marks env actor approve ttl u [] = refl
decide_row-Marks env actor approve ttl u (q ∷ qs) = (
  elim (Bool-cases (q.id == u && is_pending q.status)) [
    | inl e ↦ rw e (inl ((asked_iff u q).0 e, marked approve))
    | inr e ↦ rw e (inr (λ a. let k = (asked_iff u q).1 a in absurd (cc), refl))
  ],
  decide_row-Marks env actor approve ttl u qs,
)
  where
    marked : (b : Bool) → Marked env actor b ttl q (decided env actor b ttl q)
    marked true = unfold decided in refl
    marked false = unfold decided in refl

positive : (z : ℤ) → int_lt (pos 0) z ≡ true → (t : ℕ) × (z ≡ pos t) × (0 < t)
positive (pos t) h = (t, refl, unfold int_lt in ground arith)
positive (negsuc t) h = absurd (unfold int_lt in cc)

grant_row-Granted :
    (env : Env) (actor : Str) (approve : Bool) (ttl : ℤ) (q : Request) (before after : List RuleRow)
    → (if approve then valid_rule (host_rule q.host q.port) && int_lt (pos 0) ttl else true) ≡ true
    → after ≡ (
        if approve
        then before ++ grant_row env actor q.workspace_id (host_rule q.host q.port) ttl ∷ []
        else before)
    → Granted env actor approve ttl q before after
grant_row-Granted env actor false ttl q before after a e = e
grant_row-Granted env actor true ttl q before after a e =
    let (v, l) = &&_split {a = valid_rule (host_rule q.host q.port)} {b = int_lt (pos 0) ttl} a in
    let (t, f, g) = positive ttl l in
    (
      grant_row env actor q.workspace_id (host_rule q.host q.port) ttl,
      t,
      e,
      unfold grant_row in v,
      unfold grant_row in refl,
      unfold grant_row in refl,
      unfold grant_row in refl,
      f,
      g,
      unfold grant_row in ap (λ (z : ℤ). some (env.now + pos_part z)) f,
      unfold grant_row in refl,
    )

-- A decision that succeeds was on a pending request of the id; it marks that request approved or
-- denied, with actor, time and, for an approval, the time to live, and leaves the other requests. An
-- approval adds exactly one rule, the valid grant of the requested host and port to the requesting
-- workspace, which expires when the positive time to live is over; a denial leaves the rules alone.
-- Ids read back as they are printed.
pub decide-Decided :
    (env : Env) (actor id : Str) (approve : Bool) (ttl : ℤ) (db : Db)
    → ReadsBack env
    → (decide env actor id approve ttl db).0 ≡ ok tt
    → (u : Uuid) × (q : Request) × (env.parse_uuid id ≡ some u)
      × Decided env actor approve ttl u q db (decide env actor id approve ttl db).1
decide-Decided env actor id approve ttl db back e =
    let (u, q, k, d) = decide-Ran env actor id approve ttl db back e in
    let (m, a) = find-some (λ r. r.id == u && is_pending r.status) q db.requests d.was_pending in
    (
      u,
      q,
      k,
      record {
        stood = m;
        asked = (asked_iff u q).0 a;
        requests =
            subst (λ l. Marks env actor approve ttl u db.requests l) (sym d.requests)
              (decide_row-Marks env actor approve ttl u db.requests);
        rules =
            grant_row-Granted env actor approve ttl q db.rules
              (decide env actor id approve ttl db).1.rules d.approvable d.rules;
      },
    )

none_pending :
    (env : Env) (actor : Str) (approve : Bool) (ttl : ℤ) (u : Uuid) (rows : List Request)
    → find (λ r. r.id == u && is_pending r.status) (decide_row env actor approve ttl u rows) ≡ none
unfolding decide_row decided is_pending
none_pending env actor approve ttl u [] = refl
none_pending env actor approve ttl u (q ∷ rows) =
    ground (arith, none_pending env actor approve ttl u rows)

-- After a decision that succeeds every other decision on the same request is a conflict, whoever
-- makes it, whenever and however, and changes nothing.
pub decide_again :
    (env later : Env) (actor other_actor id : Str) (approve other_approve : Bool)
    (ttl other_ttl : ℤ) (db : Db)
    → ReadsBack env
    → later.parse_uuid id ≡ env.parse_uuid id
    → (decide env actor id approve ttl db).0 ≡ ok tt
    → decide later other_actor id other_approve other_ttl (decide env actor id approve ttl db).1
      ≡ (err conflict, (decide env actor id approve ttl db).1)
decide_again env later actor other_actor id approve other_approve ttl other_ttl db back p e =
    let (u, q, k, d) = decide-Ran env actor id approve ttl db back e in
    refused u (decide env actor id approve ttl db).1 (p ∙ k) (
      ap (λ (l : List Request). find (λ r. r.id == u && is_pending r.status) l) d.requests
      ∙ none_pending env actor approve ttl u db.requests)
  where
    refused :
        (u : Uuid) (d : Db)
        → later.parse_uuid id ≡ some u
        → find (λ r. r.id == u && is_pending r.status) d.requests ≡ none
        → decide later other_actor id other_approve other_ttl d ≡ (err conflict, d)
    refused u d k f =
        unfold decide run_tx take_pending in
        (ap (settle d) (
            bind_done (as_uuid later id) _ d d u (as_uuid-done later id u d k)
            ∙ bind_fail (take_pending later other_actor other_approve other_ttl u) _ d
                (own conflict)
                (bind_fail
                  (or_fail (find (λ r. r.id == u && is_pending r.status) d.requests) (own conflict))
                  _ d (own conflict)
                  (ap (λ (o : Option Request). or_fail o (own conflict) d) f
                    ∙ unfold or_fail in refl)))
          ∙ unfold map_err in refl)
