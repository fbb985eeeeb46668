-- ===== src/Watch.antt =====
-- The running workspaces of admin/internal/watch/pods.go. The informer's cache is a list of pods, in
-- the order in which the lister returns them.
mod Examples
use sandcastle.Prelude.{
  ◌≡◌, ◌≢◌, refl, sym, ap, ◌∙◌, ◌↔◌, ◌⊎◌, inl, inr, Bool, true, false, not, ◌||◌, Option, none,
  some, List, [], ◌∷◌, Str, str_eq, str_eq→eq, eq→str_eq, str_eq_refl, str_lt, codes, In, find,
  find-some, arith, Bool-cases, if◌then◌else◌, subst,
}
use sandcastle.Prelude.Assoc.{Map, get}
use sandcastle.Prelude.Sort.{sort, In-sort}
use sandcastle.Policy.Rules.{Workspace}
use sandcastle.Cilium.Render.{ws_label}

-- What `Running` reads of a pod: its labels, phase, address and whether it is being deleted.
pub record Pod : Type 0 where
  pub labels : Map Str
  pub phase : Str
  pub pod_ip : Str
  pub deleting : Bool

-- A Go map reads a missing label as the empty text.
unfoldable pub label : Str → Pod → Str
label k pod = elim (get k pod.labels) [ none ↦ [] | some v ↦ v ]

unfoldable pub is_skipped : Pod → Bool
is_skipped pod =
    str_eq (label ws_label pod) []
    || (not (str_eq pod.phase (codes "Running")) || (str_eq pod.pod_ip [] || pod.deleting))

unfoldable pub workspace : Pod → Workspace
workspace pod = record {
  id = label ws_label pod;
  name = label (codes "com.coder.workspace.name") pod;
  owner_id = label (codes "com.coder.user.id") pod;
  ip = pod.pod_ip;
}

unfoldable pub listed : List Pod → List Workspace
listed [] = []
listed (pod ∷ pods) = if is_skipped pod then listed pods else workspace pod ∷ listed pods

unfoldable pub workspace_lt : Workspace → Workspace → Bool
workspace_lt v w = if not (str_eq v.id w.id) then str_lt v.id w.id else str_lt v.ip w.ip

-- Running
unfoldable pub running : List Pod → List Workspace
running pods = sort workspace_lt (listed pods)

-- ByIP
unfoldable pub by_ip : Str → List Pod → Option Workspace
by_ip ip pods = find (λ w. str_eq w.ip ip) (running pods)

-- ByID
unfoldable pub by_id : Str → List Pod → Option Workspace
by_id id pods = find (λ w. str_eq w.id id) (running pods)

-- A pod that is not skipped has a workspace, runs, has an address and is not terminating.
pub record Runs (pod : Pod) (w : Workspace) : Type 0 where
  pub shown : w ≡ workspace pod
  pub has_id : w.id ≢ []
  pub phase : pod.phase ≡ codes "Running"
  pub has_ip : w.ip ≢ []
  pub stays : pod.deleting ≡ false

Runs-of-kept : (pod : Pod) → is_skipped pod ≡ false → Runs pod (workspace pod)
unfolding is_skipped workspace
Runs-of-kept pod n = record {
  shown = refl;
  has_id = λ e. let k = eq→str_eq (label ws_label pod) [] e in ground arith;
  phase = str_eq→eq pod.phase (codes "Running") (ground arith);
  has_ip = λ e. let k = eq→str_eq pod.pod_ip [] e in ground arith;
  stays = ground arith;
}

kept-of-Runs : (pod : Pod) → Runs pod (workspace pod) → is_skipped pod ≡ false
unfolding is_skipped workspace
kept-of-Runs pod r =
    let a = eq→str_eq pod.phase (codes "Running") r.phase in
    elim (Bool-cases (str_eq (label ws_label pod) [])) [
      | inl e ↦ absurd (r.has_id (str_eq→eq (label ws_label pod) [] e))
      | inr e ↦ elim (Bool-cases (str_eq pod.pod_ip [])) [
        | inl f ↦ absurd (r.has_ip (str_eq→eq pod.pod_ip [] f))
        | inr f ↦ let s = r.stays in ground arith
      ]
    ]

In-listed :
    (w : Workspace) (pods : List Pod)
    → In w (listed pods) ↔ ((pod : Pod) × In pod pods × Runs pod w)
unfolding listed
In-listed w [] = (λ h. elim h [ ], λ (pod, m, r). elim m [ ])
In-listed w (p ∷ pods) = elim (Bool-cases (is_skipped p)) [
  | inl e ↦ rw e (
    λ h. let (pod, m, r) = (In-listed w pods).0 h in (pod, inr m, r),
    λ (pod, m, r). elim m [
      | inr k ↦ (In-listed w pods).1 (pod, k, r)
      | inl q ↦ absurd (
          let r' : Runs p (workspace p) =
            subst (λ v. Runs p v) (r.shown ∙ ap workspace q) (subst (λ x. Runs x w) q r) in
          let k = kept-of-Runs p r' in cc)
    ],
  )
  | inr e ↦ rw e (
    λ h. elim h [
      | inl q ↦ (p, inl refl, subst (λ v. Runs p v) (sym q) (Runs-of-kept p e))
      | inr k ↦ let (pod, m, r) = (In-listed w pods).0 k in (pod, inr m, r)
    ],
    λ (pod, m, r). elim m [
      | inl q ↦ inl (r.shown ∙ ap workspace q)
      | inr k ↦ inr ((In-listed w pods).1 (pod, k, r))
    ],
  )
]

-- `Running` lists exactly the workspaces of the pods that carry a workspace label, are in the phase
-- Running, have an address and are not being deleted, in whatever order the pods are given.
pub In-running :
    (w : Workspace) (pods : List Pod)
    → In w (running pods) ↔ ((pod : Pod) × In pod pods × Runs pod w)
unfolding running
In-running w pods = (
  λ h. (In-listed w pods).0 ((In-sort workspace_lt w (listed pods)).0 h),
  λ h. (In-sort workspace_lt w (listed pods)).1 ((In-listed w pods).1 h),
)

find-none :
    {A : Type 0} (p : A → Bool) (xs : List A) (a : A) → find p xs ≡ none → In a xs → p a ≡ false
find-none p [] a e m = elim m [ ]
find-none p (x ∷ xs) a e (inl q) = elim (Bool-cases (p x)) [
  | inl f ↦ absurd (let k : some x ≡ none = rw f at e in cc)
  | inr f ↦ ap p q ∙ f
]
find-none p (x ∷ xs) a e (inr m) = elim (Bool-cases (p x)) [
  | inl f ↦ absurd (let k : some x ≡ none = rw f at e in cc)
  | inr f ↦ find-none p xs a (rw f at e) m
]

-- Where `ByIP` answers with a workspace, a pod of that workspace is running on the address.
pub by_ip-Runs :
    (pods : List Pod) (ip : Str) (w : Workspace)
    → by_ip ip pods ≡ some w
    → (w.ip ≡ ip) × ((pod : Pod) × In pod pods × Runs pod w)
unfolding by_ip
by_ip-Runs pods ip w e =
    let (m, f) = find-some (λ w. str_eq w.ip ip) w (running pods) e in
    (str_eq→eq w.ip ip f, (In-running w pods).0 m)

-- Where a workspace is running on an address, `ByIP` answers with one.
pub by_ip-ne_none :
    (pods : List Pod) (pod : Pod) (w : Workspace)
    → In pod pods
    → Runs pod w
    → by_ip w.ip pods ≢ none
unfolding by_ip
by_ip-ne_none pods pod w m r e =
    let f =
      find-none (λ v. str_eq v.ip w.ip) (running pods) w e ((In-running w pods).1 (pod, m, r)) in
    absurd (let k = str_eq_refl w.ip in cc)
