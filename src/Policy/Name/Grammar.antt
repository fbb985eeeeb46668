-- ===== src/Policy/Name/Grammar.antt =====
-- Host names as they are meant, label by label, and `valid_name` against them.
use mathlib.Core.List.{append_assoc}
use sandcastle.Prelude.{
  ℕ, ◌≤◌, ◌≡◌, ◌≢◌, refl, sym, ap, subst, ◌∙◌, ◌↔◌, inl, inr, Bool, true, false, List, [], ◌∷◌,
  ◌++◌, arith, Str, length, length-append, All, leb, leb→le, ◌==◌, ==_iff, some, &&_split,
}
use sandcastle.Prelude.Affix.{cut_char}
use sandcastle.Prelude.Regex.{Regex, cls, seq, opt, chr, rep, star, Star, done, more, Lang, matches}
use sandcastle.Prelude.Regex.Decides.{matches→Lang, Lang→matches}
use sandcastle.Prelude.Regex.Counts.{Run, one_then, then_one, Lang→rep, rep→Lang}
use sandcastle.Policy.Name.{
  is_lower, is_alnum, is_label_char, label_re, label_rest_re, name_re, valid_name,
}

abbrev pub Starts : (ℕ → Bool) → Str → Type 0
Starts p [] = ⊥
Starts p (c ∷ s) = p c ≡ true

abbrev pub Ends : (ℕ → Bool) → Str → Type 0
Ends p [] = ⊥
Ends p (c ∷ []) = p c ≡ true
Ends p (c ∷ d ∷ s) = Ends p (d ∷ s)

-- 1 to 63 letters, digits and dashes, with no dash at either end.
pub record IsLabel (l : Str) : Type 0 where
  pub short : length l ≤ 63
  pub chars : Run is_label_char l
  pub starts : Starts is_alnum l
  pub ends : Ends is_alnum l

-- Each label with a dot behind it.
abbrev pub dotted : List Str → Str
dotted [] = []
dotted (l ∷ ls) = l ++ b'.' ∷ dotted ls

abbrev pub star_dot : Bool → Str
star_dot true = b'*' ∷ b'.' ∷ []
star_dot false = []

-- "*." or nothing, one label or more, and a last label of 2 to 63 letters.
pub record IsName (s : Str) : Type 0 where
  pub wild : Bool
  pub label : Str
  pub labels : List Str
  pub top : Str
  pub splits : s ≡ star_dot wild ++ (dotted (label ∷ labels) ++ top)
  pub good : All IsLabel (label ∷ labels)
  pub top_long : 2 ≤ length top
  pub top_short : length top ≤ 63
  pub top_letters : Run is_lower top

alnum_label_char : (c : ℕ) → is_alnum c ≡ true → is_label_char c ≡ true
unfolding is_label_char
alnum_label_char c h = ground arith

Ends-snoc : (p : ℕ → Bool) (m : Str) (d : ℕ) → p d ≡ true → Ends p (m ++ d ∷ [])
Ends-snoc p [] d h = h
Ends-snoc p (c ∷ []) d h = h
Ends-snoc p (c ∷ e ∷ m) d h = Ends-snoc p (e ∷ m) d h

Run-append : (p : ℕ → Bool) (s t : Str) → Run p s → Run p t → Run p (s ++ t)
Run-append p [] t hs ht = ht
Run-append p (c ∷ s) t hs ht = (hs.0, Run-append p s t hs.1 ht)

Run-split : (p : ℕ → Bool) (s t : Str) → Run p (s ++ t) → Run p s × Run p t
Run-split p [] t h = (tt, h)
Run-split p (c ∷ s) t h = let (a, b) = Run-split p s t h.1 in ((h.0, a), b)

-- A text that ends in `p` is a text and a last character.
snoc_split :
    (p : ℕ → Bool) (c : ℕ) (s : Str)
    → Ends p (c ∷ s)
    → (m : Str) × (d : ℕ) × (c ∷ s ≡ m ++ d ∷ []) × (p d ≡ true)
snoc_split p c [] h = ([], c, refl, h)
snoc_split p c (d ∷ s) h = let (m, e, k, q) = snoc_split p d s h in (c ∷ m, e, ap (◌∷◌ c) k, q)

dot_text : (s : Str) → Lang (chr b'.') s → s ≡ b'.' ∷ []
dot_text s (c, e, h) = e ∙ ap (λ (x : ℕ). x ∷ []) ((==_iff c b'.').0 h)

Lang→label : (s : Str) → Lang label_re s → (l : Str) × (s ≡ l ++ b'.' ∷ []) × IsLabel l
Lang→label s h =
    let (c, u, e, hc, k) = one_then is_alnum label_rest_re s h in
    let (m, dot, f, body, hd) = k in
    let s_eq : s ≡ c ∷ (m ++ b'.' ∷ []) =
      e ∙ ap (◌∷◌ c) (f ∙ ap (λ (x : Str). m ++ x) (dot_text dot hd)) in
    elim body [
      | inl n ↦ (
        c ∷ m,
        s_eq,
        rw n (record {
          short = omega arith;
          chars = (alnum_label_char c hc, tt);
          starts = hc;
          ends = hc;
        }),
      )
      | inr (mid, last, g, run, (d, ld, pd)) ↦
          let (lo, hi, r) = Lang→rep 0 61 is_label_char mid run in
          let m_eq : m ≡ mid ++ d ∷ [] = g ∙ ap (λ (x : Str). mid ++ x) ld in
          (
            c ∷ m,
            s_eq,
            rw m_eq (record {
              short = omega (arith, length-append mid (d ∷ []));
              chars = (
                alnum_label_char c hc,
                Run-append is_label_char mid (d ∷ []) r (alnum_label_char d pd, tt),
              );
              starts = hc;
              ends = Ends-snoc is_alnum (c ∷ mid) d pd;
            }),
          )
    ]

label→Lang : (l : Str) → IsLabel l → Lang label_re (l ++ b'.' ∷ [])
label→Lang [] h = absurd h.starts
label→Lang (c ∷ []) h =
    then_one is_alnum label_rest_re c (b'.' ∷ []) h.starts
      ([], b'.' ∷ [], refl, inl refl, (b'.', refl, refl))
label→Lang (c ∷ d ∷ s) h =
    let (m, e, k, q) = snoc_split is_alnum d s h.ends in
    let parts = Run-split is_label_char m (e ∷ []) (subst (Run is_label_char) k h.chars.1) in
    let len = ap length k in
    then_one is_alnum label_rest_re c ((d ∷ s) ++ b'.' ∷ []) h.starts (
      d ∷ s,
      b'.' ∷ [],
      refl,
      inr (
        m,
        e ∷ [],
        k,
        rep→Lang 0 61 is_label_char m (omega arith)
            (omega (arith, len, h.short, length-append m (e ∷ []))) parts.0,
        (e, refl, q),
      ),
      (b'.', refl, refl),
    )

append_both : {a a' b b' : Str} → a ≡ a' → b ≡ b' → a ++ b ≡ a' ++ b'
append_both f g = cc

labelled : (l a b c : Str) → a ≡ l ++ b'.' ∷ [] → b ≡ c → a ++ b ≡ l ++ b'.' ∷ c
labelled l a b c f g = append_both f g ∙ append_assoc l (b'.' ∷ []) c

Star→labels :
    {s : Str} → Star (Lang label_re) s → (ls : List Str) × (s ≡ dotted ls) × All IsLabel ls
Star→labels done = ([], refl, tt)
Star→labels (more {a = a} {b = b} e h rest) =
    let (l, f, good) = Lang→label a h in
    let (ls, g, goods) = Star→labels rest in
    (l ∷ ls, e ∙ labelled l a b (dotted ls) f g, (good, goods))

labels→Star : (ls : List Str) → All IsLabel ls → Star (Lang label_re) (dotted ls)
labels→Star [] h = done
labels→Star (l ∷ ls) h =
    more {a = l ++ b'.' ∷ []} (sym (append_assoc l (b'.' ∷ []) (dotted ls))) (label→Lang l h.0)
      (labels→Star ls h.1)

abbrev body_re : Regex
body_re = seq (seq label_re (star label_re)) (rep 2 61 (cls is_lower))

record IsBody (s : Str) : Type 0 where
  label : Str
  labels : List Str
  top : Str
  splits : s ≡ dotted (label ∷ labels) ++ top
  good : All IsLabel (label ∷ labels)
  top_long : 2 ≤ length top
  top_short : length top ≤ 63
  top_letters : Run is_lower top

Lang→body : (s : Str) → Lang body_re s → IsBody s
Lang→body s (ab, top, e, (a, b, f, ha, hb), ht) =
    let (l, g, good) = Lang→label a ha in
    let (ls, k, goods) = Star→labels hb in
    let (lo, hi, run) = Lang→rep 2 61 is_lower top ht in
    record {
      label = l;
      labels = ls;
      top = top;
      splits = e ∙ ap (λ (x : Str). x ++ top) (f ∙ labelled l a b (dotted ls) g k);
      good = (good, goods);
      top_long = lo;
      top_short = omega arith;
      top_letters = run;
    }

body→Lang : (s : Str) → IsBody s → Lang body_re s
body→Lang s h = (
  dotted (h.label ∷ h.labels),
  h.top,
  h.splits,
  (
    h.label ++ b'.' ∷ [],
    dotted h.labels,
    sym (append_assoc h.label (b'.' ∷ []) (dotted h.labels)),
    label→Lang h.label h.good.0,
    labels→Star h.labels h.good.1,
  ),
  rep→Lang 2 61 is_lower h.top h.top_long (omega (arith, h.top_short)) h.top_letters,
)

star_text : (s : Str) → Lang (seq (chr b'*') (chr b'.')) s → s ≡ b'*' ∷ b'.' ∷ []
star_text s h =
    let (c, t, e, hc, k) = one_then (λ d. d == b'*') (chr b'.') s h in
    e ∙ (rw ((==_iff c b'*').0 hc, dot_text t k) refl)

Lang→name : (s : Str) → Lang name_re s → IsName s
unfolding name_re
Lang→name s (pre, b, e, inl n, h) =
    let body = Lang→body b h in
    record {
      wild = false;
      label = body.label;
      labels = body.labels;
      top = body.top;
      splits = e ∙ append_both n body.splits;
      good = body.good;
      top_long = body.top_long;
      top_short = body.top_short;
      top_letters = body.top_letters;
    }
Lang→name s (pre, b, e, inr st, h) =
    let body = Lang→body b h in
    record {
      wild = true;
      label = body.label;
      labels = body.labels;
      top = body.top;
      splits = e ∙ append_both (star_text pre st) body.splits;
      good = body.good;
      top_long = body.top_long;
      top_short = body.top_short;
      top_letters = body.top_letters;
    }

prefix→Lang : (w : Bool) → Lang (opt (seq (chr b'*') (chr b'.'))) (star_dot w)
prefix→Lang true = inr (b'*' ∷ [], b'.' ∷ [], refl, (b'*', refl, refl), (b'.', refl, refl))
prefix→Lang false = inl refl

name→Lang : (s : Str) → IsName s → Lang name_re s
unfolding name_re
name→Lang s h = (
  star_dot h.wild,
  dotted (h.label ∷ h.labels) ++ h.top,
  h.splits,
  prefix→Lang h.wild,
  body→Lang (dotted (h.label ∷ h.labels) ++ h.top) (record {
    label = h.label;
    labels = h.labels;
    top = h.top;
    splits = refl;
    good = h.good;
    top_long = h.top_long;
    top_short = h.top_short;
    top_letters = h.top_letters;
  }),
)

pub valid→name : (s : Str) → valid_name s ≡ true → (length s ≤ 253) × IsName s
unfolding valid_name
valid→name s h =
    let (l, m) = &&_split {a = leb (length s) 253} {b = matches name_re s} h in
    (leb→le (length s) 253 l, Lang→name s (matches→Lang name_re s m))

-- `valid_name` accepts a text exactly when it has at most 253 characters and is an optional "*."
-- before one or more labels (1 to 63 letters, digits and dashes, with no dash at either end), each
-- with a dot behind it, and a last label of 2 to 63 lower-case letters.
pub valid_name-IsName : (s : Str) → (valid_name s ≡ true) ↔ ((length s ≤ 253) × IsName s)
unfolding valid_name
valid_name-IsName s =
    (valid→name s, λ (l, n). ground (arith, Lang→matches name_re s (name→Lang s n)))

-- What follows the star of a valid name begins with a dot.
pub valid_name-star :
    (s suffix : Str)
    → valid_name s ≡ true
    → cut_char b'*' s ≡ some suffix
    → (t : Str) × (suffix ≡ b'.' ∷ t)
unfolding cut_char
valid_name-star s suffix h e = go (valid→name s h).1
  where
    go : IsName s → (t : Str) × (suffix ≡ b'.' ∷ t)
    go n = by_star n.wild n.label n.labels n.top n.splits n.good.0
      where
        by_star :
            (w : Bool) (l : Str) (ls : List Str) (top : Str)
            → s ≡ star_dot w ++ (dotted (l ∷ ls) ++ top)
            → IsLabel l
            → (t : Str) × (suffix ≡ b'.' ∷ t)
        by_star true l ls top k g = (dotted (l ∷ ls) ++ top, ground arith)
        by_star false [] ls top k g = absurd g.starts
        by_star false (c ∷ l) ls top k g = absurd (unfold is_alnum in ground (arith, g.starts))

-- A valid name does not begin with a dot.
pub valid_name-ne_dot : (s t : Str) → valid_name s ≡ true → s ≢ b'.' ∷ t
valid_name-ne_dot s t h e = go (valid→name s h).1
  where
    go : IsName s → ⊥
    go n = by_star n.wild n.label n.labels n.top n.splits n.good.0
      where
        by_star :
            (w : Bool) (l : Str) (ls : List Str) (top : Str)
            → s ≡ star_dot w ++ (dotted (l ∷ ls) ++ top)
            → IsLabel l
            → ⊥
        by_star true l ls top k g = ground arith
        by_star false [] ls top k g = absurd g.starts
        by_star false (c ∷ l) ls top k g = unfold is_alnum in ground (arith, g.starts)
