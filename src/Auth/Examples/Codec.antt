-- ===== src/Auth/Examples/Codec.antt =====
-- A codec that reads back: a number is as many ones and a zero, and a text ends with a two.
use sandcastle.Prelude.{
  ℕ, zero, suc, ◌+◌, ◌≡◌, refl, sym, ap, ◌∙◌, Bool, true, false, Option, none, some, List, [], ◌∷◌,
  Str, All, arith,
}
use sandcastle.Prelude.Int.{ℤ, pos, negsuc}
use sandcastle.Go.Base64.RoundTrip.{IsByte}
use sandcastle.Auth.Config.{User, Flow}

unfoldable pub ones : ℕ → List ℕ → List ℕ
ones zero s = s
ones (suc n) s = 1 ∷ ones n s

unfoldable pub put_text : Str → List ℕ → List ℕ
unfolding ones
put_text [] s = 2 ∷ s
put_text (c ∷ t) s = ones c (0 ∷ put_text t s)

unfoldable pub cons_read : ℕ → Option (Str × List ℕ) → Option (Str × List ℕ)
cons_read n none = none
cons_read n (some (t, s)) = some (n ∷ t, s)

unfoldable pub read : ℕ → List ℕ → Option (Str × List ℕ)
unfolding cons_read
read n [] = none
read n (zero ∷ s) = cons_read n (read 0 s)
read n (suc zero ∷ s) = read (suc n) s
read n (suc (suc b) ∷ s) = some ([], s)

read-ones : (k n : ℕ) (s : List ℕ) → read n (ones k s) ≡ read (k + n) s
unfolding read ones
read-ones zero n s = ap (λ m. read m s) (omega arith)
read-ones (suc k) n s = read-ones k (suc n) s ∙ ap (λ m. read m s) (omega arith)

pub read-put_text : (t : Str) (s : List ℕ) → read 0 (put_text t s) ≡ some (t, s)
unfolding read put_text
read-put_text [] s = refl
read-put_text (c ∷ t) s =
    read-ones c 0 (0 ∷ put_text t s)
    ∙ (ap (λ m. read m (0 ∷ put_text t s)) (omega arith)
        ∙ ap (λ o. cons_read c o) (read-put_text t s))

ones_bytes : (n : ℕ) (s : List ℕ) → All IsByte s → All IsByte (ones n s)
unfolding ones IsByte
ones_bytes zero s h = h
ones_bytes (suc n) s h = (omega arith, ones_bytes n s h)

pub put_text_bytes : (t : Str) (s : List ℕ) → All IsByte s → All IsByte (put_text t s)
unfolding put_text IsByte
put_text_bytes [] s h = (omega arith, h)
put_text_bytes (c ∷ t) s h = ones_bytes c (0 ∷ put_text t s) (omega arith, put_text_bytes t s h)

abbrev pub put_int : ℤ → Str
put_int (pos n) = n ∷ []
put_int (negsuc n) = 0 ∷ n ∷ []

abbrev pub put_bool : Bool → Str
put_bool true = 1 ∷ []
put_bool false = []

unfoldable pub marshal_user : User → List ℕ
marshal_user u =
    put_text u.id (
      put_text u.name (put_text (put_bool u.admin) (put_text u.csrf (put_text (put_int u.exp) []))))

unfoldable pub marshal_flow : Flow → List ℕ
marshal_flow f =
    put_text f.state (put_text f.verifier (put_text f.next (put_text (put_int f.exp) [])))

unfoldable pub chain {ℓ} : {A : Type ℓ} → List ℕ → (Str → List ℕ → Option A) → Option A
unfolding read
chain s k = elim (read 0 s) [ none ↦ none | some (t, rest) ↦ k t rest ]

chain_put {ℓ} :
    {A : Type ℓ} (t : Str) (s : List ℕ) (k : Str → List ℕ → Option A)
    → chain (put_text t s) k ≡ k t s
unfolding chain
chain_put {A = A} t s k =
    ap
      (λ (o : Option (Str × List ℕ)). elim o as (λ _. Option A) [
        | none ↦ none
        | some (x, rest) ↦ k x rest
      ])
      (read-put_text t s)

abbrev to_int : Str → ℤ
to_int [] = pos 0
to_int (n ∷ []) = pos n
to_int (m ∷ n ∷ s) = negsuc n

abbrev to_bool : Str → Bool
to_bool [] = false
to_bool (c ∷ s) = true

to_int-put_int : (n : ℤ) → to_int (put_int n) ≡ n
to_int-put_int (pos n) = refl
to_int-put_int (negsuc n) = refl

to_bool-put_bool : (b : Bool) → to_bool (put_bool b) ≡ b
to_bool-put_bool true = refl
to_bool-put_bool false = refl

abbrev user_of_fields : Str → Str → Str → Str → Str → User
user_of_fields i n a c e = record {
  id = i;
  name = n;
  admin = to_bool a;
  csrf = c;
  exp = to_int e;
  bearer = false;
}

unfoldable pub unmarshal_user : List ℕ → Option User
unfolding chain
unmarshal_user s = chain s λ i s1.
    chain s1
      λ n s2. chain s2 λ a s3. chain s3 λ c s4. chain s4 λ e s5. some (user_of_fields i n a c e)

unfoldable pub unmarshal_flow : List ℕ → Option Flow
unfolding chain
unmarshal_flow s = chain s λ t s1. chain s1 λ v s2.
    chain s2
      λ n s3. chain s3 λ e s4. some (record { state = t; verifier = v; next = n; exp = to_int e })

pub unmarshal_user-marshal_user :
    (u : User) → unmarshal_user (marshal_user u) ≡ some (record u { bearer = false })
unfolding unmarshal_user marshal_user
unmarshal_user-marshal_user u =
    chain_put u.id _ _
    ∙ (chain_put u.name _ _
        ∙ (chain_put (put_bool u.admin) _ _
            ∙ (chain_put u.csrf _ _
                ∙ (chain_put (put_int u.exp) _ _
                    ∙ rw (to_int-put_int u.exp, to_bool-put_bool u.admin) refl))))

pub unmarshal_flow-marshal_flow : (f : Flow) → unmarshal_flow (marshal_flow f) ≡ some f
unfolding unmarshal_flow marshal_flow
unmarshal_flow-marshal_flow f =
    chain_put f.state _ _
    ∙ (chain_put f.verifier _ _
        ∙ (chain_put f.next _ _ ∙ (chain_put (put_int f.exp) _ _ ∙ rw (to_int-put_int f.exp) refl)))

pub user_bytes : (u : User) → All IsByte (marshal_user u)
unfolding marshal_user
user_bytes u = put_text_bytes u.id _ (
    put_text_bytes u.name _ (
      put_text_bytes (put_bool u.admin) _
        (put_text_bytes u.csrf _ (put_text_bytes (put_int u.exp) [] tt))))

pub flow_bytes : (f : Flow) → All IsByte (marshal_flow f)
unfolding marshal_flow
flow_bytes f =
    put_text_bytes f.state _
      (put_text_bytes f.verifier _ (put_text_bytes f.next _ (put_text_bytes (put_int f.exp) [] tt)))

-- A chain that succeeds has a continuation that does.
chain_inv {ℓ} :
    {A : Type ℓ} (s : List ℕ) (k : Str → List ℕ → Option A) (a : A)
    → chain s k ≡ some a
    → (t : Str) × (rest : List ℕ) × (k t rest ≡ some a)
unfolding chain
chain_inv {A = A} s k a h = go (read 0 s) h
  where
    go :
        (o : Option (Str × List ℕ))
        → elim o as (λ _. Option A) [ none ↦ none | some (t, rest) ↦ k t rest ] ≡ some a
        → (t : Str) × (rest : List ℕ) × (k t rest ≡ some a)
    go none e = absurd (cc)
    go (some (t, rest)) e = (t, rest, e)

pub user_untagged : (raw : List ℕ) (u : User) → unmarshal_user raw ≡ some u → u.bearer ≡ false
unfolding unmarshal_user
user_untagged raw u h =
    let (i, s1, h1) = chain_inv raw _ u h in
    let (n, s2, h2) = chain_inv s1 _ u h1 in
    let (a, s3, h3) = chain_inv s2 _ u h2 in
    let (c, s4, h4) = chain_inv s3 _ u h3 in
    let (e, s5, h5) = chain_inv s4 _ u h4 in
    let q : user_of_fields i n a c e ≡ u = cc in sym (ap (λ (v : User). v.bearer) q)
