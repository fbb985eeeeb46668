-- ===== src/Xds/Access.antt =====
-- The virtual host of a key of admin/internal/xds/build.go, found by its domain.
use sandcastle.Prelude.{
  ℕ, ◌≡◌, ◌≢◌, inl, inr, refl, sym, ap, ◌∙◌, Bool, true, false, List, [], ◌∷◌, ◌++◌, Str, codes,
  map, In, if◌then◌else◌, subst, arith,
}
use sandcastle.Prelude.Int.{pos, int_eq, int_eq_iff}
use sandcastle.Policy.Name.Plain.{NoColon}
use sandcastle.Policy.Hosts.{HostKey}
use sandcastle.Policy.Hosts.Keys.{IsHostKey}
use sandcastle.Xds.Routes.{is_tls}
use sandcastle.Xds.Admits.{domains_of_key}

-- The authority of a request for a key.
unfoldable pub authority : HostKey → Str
authority k = k.host ++ (if is_tls k then codes ":443" else codes ":80")

-- Behind a host without a colon, what follows the host is known.
split_at_colon :
    (s t a b : Str) → NoColon s → NoColon t → s ++ b':' ∷ a ≡ t ++ b':' ∷ b → (s ≡ t) × (a ≡ b)
split_at_colon [] [] a b hs ht e = (refl, cc)
split_at_colon [] (d ∷ t) a b hs ht e = absurd (ground (arith, ht.0))
split_at_colon (c ∷ s) [] a b hs ht e = absurd (ground (arith, hs.0))
split_at_colon (c ∷ s) (d ∷ t) a b hs ht e =
    let q : c ≡ d = cc in
    let r : s ++ b':' ∷ a ≡ t ++ b':' ∷ b = cc in
    let (x, y) = split_at_colon s t a b hs.1 ht.1 r in (cc, y)

has_colon : (s a : Str) → NoColon (s ++ b':' ∷ a) → ⊥
has_colon [] a h = ground (arith, h.0)
has_colon (c ∷ s) a h = has_colon s a h.1

star_alone : (s a : Str) (c : ℕ) → s ++ b':' ∷ c ∷ a ≢ codes "*"
unfolding codes
star_alone [] a c e = absurd (cc)
star_alone (x ∷ []) a c e = absurd (cc)
star_alone (x ∷ y ∷ s) a c e = absurd (cc)

-- A key is on one of two ports.
port_of : (k : HostKey) → IsHostKey k → k.port ≡ (if is_tls k then pos 443 else pos 80)
unfolding is_tls int_eq
port_of k h = elim h.on_port [
  | inl e ↦ rw ((int_eq_iff k.port (pos 443)).1 e) e
  | inr e ↦ rw (ap (λ n. int_eq n (pos 443)) e ∙ different) e
]
  where
    different : int_eq (pos 80) (pos 443) ≡ false
    different = refl

key-eq : (j k : HostKey) → j.host ≡ k.host → j.port ≡ k.port → j ≡ k
key-eq j k e f = ground arith

same_key :
    (j k : HostKey) → IsHostKey j → IsHostKey k → j.host ≡ k.host → is_tls j ≡ is_tls k → j ≡ k
same_key j k hj hk e f =
    key-eq j k e
      (port_of j hj ∙ (ap (λ (b : Bool). if b then pos 443 else pos 80) f ∙ sym (port_of k hk)))

-- A domain of one key that is the authority of another: the keys are one.
pub one_key :
    (j k : HostKey) → IsHostKey j → IsHostKey k → In (authority k) (domains_of_key j) → j ≡ k
unfolding authority domains_of_key codes
one_key j k hj hk m = go (is_tls j) (is_tls k) refl refl m
  where
    go :
        (b c : Bool)
        → is_tls j ≡ b
        → is_tls k ≡ c
        → In
            (k.host ++ (if c then codes ":443" else codes ":80"))
            (if b then (j.host ++ codes ":443") ∷ [] else j.host ∷ (j.host ++ codes ":80") ∷ [])
        → j ≡ k
    go true true e f (inl q) =
        same_key j k hj hk (sym (split_at_colon k.host j.host _ _ hk.plain hj.plain q).0)
          (e ∙ sym f)
    go true true e f (inr x) = elim x [ ]
    go true false e f (inr x) = elim x [ ]
    go false true e f (inr (inr x)) = elim x [ ]
    go false false e f (inr (inr x)) = elim x [ ]
    go true false e f (inl q) =
        absurd (let r = (split_at_colon k.host j.host _ _ hk.plain hj.plain q).1 in cc)
    go false c e f (inl q) = absurd (colon c q)
      where
        colon : (c : Bool) → k.host ++ (if c then codes ":443" else codes ":80") ≡ j.host → ⊥
        colon true q = has_colon k.host _ (subst NoColon (sym q) hj.plain)
        colon false q = has_colon k.host _ (subst NoColon (sym q) hj.plain)
    go false false e f (inr (inl q)) =
        same_key j k hj hk (sym (split_at_colon k.host j.host _ _ hk.plain hj.plain q).0)
          (e ∙ sym f)
    go false true e f (inr (inl q)) =
        absurd (let r = (split_at_colon k.host j.host _ _ hk.plain hj.plain q).1 in cc)

pub own_domain : (k : HostKey) → In (authority k) (domains_of_key k)
unfolding authority domains_of_key
own_domain k = go (is_tls k)
  where
    go :
        (b : Bool)
        → In
            (k.host ++ (if b then codes ":443" else codes ":80"))
            (if b then (k.host ++ codes ":443") ∷ [] else k.host ∷ (k.host ++ codes ":80") ∷ [])
    go true = inl refl
    go false = inr (inl refl)

pub In-map : {A B : Type 0} (f : A → B) (a : A) (xs : List A) → In a xs → In (f a) (map f xs)
In-map f a [] m = elim m [ ]
In-map f a (x ∷ xs) (inl e) = inl (ap f e)
In-map f a (x ∷ xs) (inr m) = inr (In-map f a xs m)

pub In-of-map :
    {A B : Type 0} (f : A → B) (b : B) (xs : List A)
    → In b (map f xs)
    → (a : A) × In a xs × (b ≡ f a)
In-of-map f b [] m = elim m [ ]
In-of-map f b (x ∷ xs) (inl e) = (x, inl refl, e)
In-of-map f b (x ∷ xs) (inr m) = let (a, n, q) = In-of-map f b xs m in (a, inr n, q)

pub authority-ne_star : (k : HostKey) → authority k ≢ codes "*"
unfolding authority codes
authority-ne_star k e = go (is_tls k) e
  where
    go : (b : Bool) → k.host ++ (if b then codes ":443" else codes ":80") ≡ codes "*" → ⊥
    go true q = star_alone k.host _ _ q
    go false q = star_alone k.host _ _ q
