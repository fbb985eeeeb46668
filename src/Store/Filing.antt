-- ===== src/Store/Filing.antt =====
-- `FileRequest` of admin/internal/store/requests.go twice.
use sandcastle.Prelude.{
  ◌≡◌, refl, sym, ap, ◌∙◌, inl, inr, Bool, true, Option, none, some, List, [], ◌∷◌, ◌++◌, Str,
  str_eq_refl, ==_iff, find, Bool-cases,
}
use sandcastle.Prelude.Int.{ℤ, int_eq_iff}
use sandcastle.Policy.Rules.{valid_rule}
use sandcastle.Store.Db.{Env, Uuid, Request, Db, ok, err, invalid}
use sandcastle.Store.Tx.{
  Outcome, done, pure, guard, run_tx, settle, as_uuid, audit, bind_done, bind_inv, run_tx_inv,
  guard_inv, as_uuid-done,
}
use sandcastle.Store.Sql.{insert_request}
use sandcastle.Store.Requests.{
  host_rule, is_pending, same_request, new_request, file_new, find_or_file, file_request,
}
use sandcastle.Store.Inversions.{audit_inv, as_uuid_inv}

insert_request_inv :
    (q : Request) (db d : Db) (x : Unit {0})
    → insert_request q db ≡ done x d
    → d.requests ≡ db.requests ++ q ∷ []
unfolding insert_request
insert_request_inv q db d x e =
    let (_, c1, g1, e1) = bind_inv (guard _ _) _ db d x e in
    let (_, c2, g2, e2) = bind_inv (guard _ _) _ c1 d x e1 in
    let s1 = (guard_inv _ _ db c1 _ g1).1 in
    let s2 = (guard_inv _ _ c1 c2 _ g2).1 in
    let k : record c2 { requests = c2.requests ++ q ∷ [] } ≡ d = (unfold pure in (cc)) in
    ap (λ (y : Db). y.requests) (sym k) ∙ ap (λ (y : Db). y.requests ++ q ∷ []) (s2 ∙ s1)

find-snoc :
    {A : Type 0} (p : A → Bool) (a : A) (xs : List A)
    → find p xs ≡ none
    → p a ≡ true
    → find p (xs ++ a ∷ []) ≡ some a
find-snoc p a [] n h = rw h refl
find-snoc p a (x ∷ xs) n h = elim (Bool-cases (p x)) [
  | inl e ↦ absurd (let k : some x ≡ none = rw e at n in cc)
  | inr e ↦ rw e (find-snoc p a xs (rw e at n) h)
]

module _ (env : Env) (actor ws_id : Str) (ws : Uuid) (host : Str) (port : ℤ) (why : Str) where
  new-same : same_request ws host port (new_request env actor ws host port why) ≡ true
  unfolding same_request new_request is_pending
  new-same = rw ((==_iff ws ws).1 refl, str_eq_refl host, (int_eq_iff port port).1 refl) refl

  file_new_inv :
      (db d : Db) (u : Uuid)
      → file_new env actor ws_id ws host port why db ≡ done u d
      → (d.requests ≡ db.requests ++ new_request env actor ws host port why ∷ []) × (u ≡ env.draw 0)
  unfolding file_new
  file_new_inv db d u e =
      let (_, c1, g1, e1) =
        bind_inv (insert_request (new_request env actor ws host port why)) _ db d u e in
      let (_, c2, g2, e2) = bind_inv (audit env actor _ _) _ c1 d u e1 in
      let k : done (env.draw 0) c2 ≡ done u d = unfold pure in e2 in
      let a : u ≡ env.draw 0 = cc in
      let b : c2 ≡ d = cc in
      (
        ap (λ (y : Db). y.requests) (sym b)
            ∙ (audit_inv env actor _ _ c1 c2 _ g2).1
            ∙ insert_request_inv (new_request env actor ws host port why) db c1 _ g1,
        a,
      )

  -- What is returned is pending afterwards.
  filed :
      (db d : Db) (u : Uuid)
      → find_or_file env actor ws_id ws host port why db ≡ done u d
      → (q : Request) × (find (same_request ws host port) d.requests ≡ some q) × (q.id ≡ u)
  unfolding find_or_file
  filed db d u e = go (find (same_request ws host port) db.requests) refl e
    where
      go :
          (o : Option Request)
          → find (same_request ws host port) db.requests ≡ o
          → elim o as (λ _. Outcome Uuid) [
            | some q ↦ pure q.id db
            | none ↦ file_new env actor ws_id ws host port why db
          ]
            ≡ done u d
          → (q : Request) × (find (same_request ws host port) d.requests ≡ some q) × (q.id ≡ u)
      go (some q) f h =
          let k : done q.id db ≡ done u d = unfold pure in h in
          let a : q.id ≡ u = cc in
          let b : db ≡ d = cc in
          (q, ap (λ (y : Db). find (same_request ws host port) y.requests) (sym b) ∙ f, a)
      go none f h =
          let (r, a) = file_new_inv db d u h in
          (
            new_request env actor ws host port why,
            ap (λ (l : List Request). find (same_request ws host port) l) r
                ∙ find-snoc (same_request ws host port) (new_request env actor ws host port why)
                    db.requests f new-same,
            unfold new_request in sym a,
          )

find_or_file-done :
    (env : Env) (actor ws_id : Str) (ws : Uuid) (host : Str) (port : ℤ) (why : Str) (db : Db)
    (q : Request)
    → find (same_request ws host port) db.requests ≡ some q
    → find_or_file env actor ws_id ws host port why db ≡ done q.id db
unfolding find_or_file pure
find_or_file-done env actor ws_id ws host port why db q f =
    ap
      (λ (o : Option Request). elim o as (λ _. Outcome Uuid) [
        | some r ↦ done r.id db
        | none ↦ file_new env actor ws_id ws host port why db
      ])
      f

found_again :
    (env : Env) (actor ws_id : Str) (ws : Uuid) (host : Str) (port : ℤ) (why : Str) (db : Db)
    (q : Request)
    → valid_rule (host_rule host port) ≡ true
    → env.parse_uuid ws_id ≡ some ws
    → find (same_request ws host port) db.requests ≡ some q
    → file_request env actor ws_id host port why db ≡ (ok q.id, db)
unfolding file_request run_tx
found_again env actor ws_id ws host port why db q v p f = rw v (
    ap (settle db) (
      bind_done (as_uuid env ws_id) _ db db ws (as_uuid-done env ws_id ws db p)
      ∙ find_or_file-done env actor ws_id ws host port why db q f))

-- Filing is idempotent: after a request was filed, filing the same workspace, host and port next,
-- by anyone and with any justification, returns the same id and changes nothing.
pub file_request_again :
    (env later : Env) (actor other_actor ws_id host : Str) (port : ℤ) (why other_why : Str)
    (u : Uuid) (db : Db)
    → later.parse_uuid ws_id ≡ env.parse_uuid ws_id
    → (file_request env actor ws_id host port why db).0 ≡ ok u
    → file_request later other_actor ws_id host port other_why
        (file_request env actor ws_id host port why db).1
      ≡ (ok u, (file_request env actor ws_id host port why db).1)
unfolding file_request
file_request_again env later actor other_actor ws_id host port why other_why u db p e =
    elim (Bool-cases (valid_rule (host_rule host port))) [
      | inr v ↦ absurd (let k : err invalid ≡ ok u = rw (file_request, v) at e in cc)
      | inl v ↦
          let (w, q, a, f, i) = stored v in
          found_again later other_actor ws_id w host port other_why
            (file_request env actor ws_id host port why db).1 q v (p ∙ a) f
          ∙ ap (λ (x : Uuid). (ok x, (file_request env actor ws_id host port why db).1)) i
    ]
  where
    stored :
        valid_rule (host_rule host port) ≡ true
        → (w : Uuid) × (q : Request) × (env.parse_uuid ws_id ≡ some w)
          × (find
                (same_request w host port)
                (file_request env actor ws_id host port why db).1.requests
              ≡ some q)
          × (q.id ≡ u)
    stored v =
        (rw v (
          let e1 = run_tx_inv _ db u (rw (file_request, v) at e) in
          let (w, c, g, h) = bind_inv (as_uuid env ws_id) _ db _ u e1 in
          let (a, s) = as_uuid_inv env ws_id db c w g in
          let (q, f, i) = filed env actor ws_id w host port why c _ u h in (w, q, a, f, i)))
