-- ===== src/Posix/Under.antt =====
-- Which absolute paths a prefix covers once both are normalized: those whose components extend the
-- prefix's. The spelling by slashes is shown to agree with the lists of components.
use mcp_contract.Base.{
  ℕ, ◌≡◌, ◌≢◌, refl, sym, ap, true, List, [], ◌∷◌, ◌++◌, reverse, append-nil, append_assoc, arith,
  All, Text, txt, text_eq, nat_eq, starts_with, split_from, join,
}
use mathlib.Core.List.{reverse_aux}
use mcp_contract.Posix.{slash, leading, resolve, resolve_all, components, normpath, or_dot}

-- A component of a resolved absolute path: not empty, not "." or "..", and free of slashes.
abbrev pub NoSlash : Text → Type 0
NoSlash [] = Unit
NoSlash (c ∷ s) = (c ≢ slash) × NoSlash s

abbrev pub IsPlain : Text → Type 0
IsPlain c = (c ≢ []) × (c ≢ txt ".") × (c ≢ txt "..") × NoSlash c

NoSlash-append : (s t : Text) → NoSlash s → NoSlash t → NoSlash (s ++ t)
NoSlash-append [] t hs ht = ht
NoSlash-append (c ∷ s) t hs ht = (hs.0, NoSlash-append s t hs.1 ht)

split_from-NoSlash : (cur s : Text) → NoSlash cur → All NoSlash (split_from slash cur s)
unfolding split_from
split_from-NoSlash cur [] h = (h, tt)
split_from-NoSlash cur (c ∷ s) h = ground (
  arith,
  split_from-NoSlash [] s tt,
  split_from-NoSlash (cur ++ c ∷ []) s,
  NoSlash-append cur (c ∷ []) h,
)

resolve-IsPlain :
    (stack : List Text) (c : Text)
    → All IsPlain stack
    → NoSlash c
    → All IsPlain (resolve true stack c)
unfolding resolve
resolve-IsPlain [] c h k = ground arith
resolve-IsPlain (d ∷ stack) c h k = ground arith

resolve_all-IsPlain :
    (stack comps : List Text)
    → All IsPlain stack
    → All NoSlash comps
    → All IsPlain (resolve_all true stack comps)
unfolding resolve_all
resolve_all-IsPlain stack [] h k = h
resolve_all-IsPlain stack (c ∷ comps) h k =
    resolve_all-IsPlain (resolve true stack c) comps (resolve-IsPlain stack c h k.0) k.1

All-reverse_aux :
    (P : Text → Type 0) (xs ys : List Text) → All P xs → All P ys → All P (reverse_aux xs ys)
All-reverse_aux P [] ys h k = k
All-reverse_aux P (x ∷ xs) ys h k = All-reverse_aux P xs (x ∷ ys) h.1 (h.0, k)

All-reverse : (P : Text → Type 0) (xs : List Text) → All P xs → All P (reverse xs)
All-reverse P xs h = All-reverse_aux P xs [] h tt

-- An absolute path, with one slash in front or three or more.
abbrev pub IsAbsolute : Text → Type 0
IsAbsolute p = leading p ≡ txt "/"

pub components-IsPlain : (p : Text) → IsAbsolute p → All IsPlain (components p)
unfolding components
components-IsPlain p h =
    rw h (All-reverse IsPlain _ (resolve_all-IsPlain [] _ tt (split_from-NoSlash [] p tt)))

-- The components, each with a slash in front.
unfoldable pub render : List Text → Text
render [] = []
render (c ∷ cs) = slash ∷ c ++ render cs

abbrev pub or_root : Text → Text
or_root [] = txt "/"
or_root (c ∷ s) = c ∷ s

slash-join : (c : Text) (cs : List Text) → slash ∷ join (txt "/") (c ∷ cs) ≡ render (c ∷ cs)
unfolding join render
slash-join c [] = rw append-nil
slash-join c (d ∷ cs) = ap (λ (r : Text). slash ∷ c ++ r) (slash-join d cs)

or_dot-join : (cs : List Text) → or_dot (txt "/" ++ join (txt "/") cs) ≡ or_root (render cs)
unfolding join render
or_dot-join [] = refl
or_dot-join (c ∷ cs) = slash-join c cs

not-IsAbsolute-nil : ¬ (IsAbsolute [])
unfolding leading starts_with
not-IsAbsolute-nil h = cc

pub normpath-render : (p : Text) → IsAbsolute p → normpath p ≡ or_root (render (components p))
unfolding normpath
normpath-render [] h = absurd (not-IsAbsolute-nil h)
normpath-render (c ∷ s) h = rw h (or_dot-join (components (c ∷ s)))

-- A text that is empty or begins with a slash.
abbrev pub StartsSlash : Text → Type 0
StartsSlash [] = Unit
StartsSlash (c ∷ s) = c ≡ slash

slash-head : (s : Text) (c : ℕ) (t : Text) → StartsSlash s → s ≡ c ∷ t → c ≡ slash
slash-head [] c t h e = cc
slash-head (d ∷ s) c t h e = ground arith

cut :
    (x y s t : Text)
    → NoSlash x
    → NoSlash y
    → StartsSlash s
    → StartsSlash t
    → x ++ s ≡ y ++ t
    → (x ≡ y) × (s ≡ t)
cut [] [] s t hx hy hs ht e = (refl, e)
cut [] (d ∷ y) s t hx hy hs ht e = absurd (hy.0 (slash-head s d (y ++ t) hs e))
cut (c ∷ x) [] s t hx hy hs ht e = absurd (hx.0 (slash-head t c (x ++ s) ht (sym e)))
cut (c ∷ x) (d ∷ y) s t hx hy hs ht e = ground (arith, cut x y s t hx.1 hy.1 hs ht)

StartsSlash-render : (cs : List Text) (r : Text) → StartsSlash r → StartsSlash (render cs ++ r)
unfolding render
StartsSlash-render [] r h = h
StartsSlash-render (c ∷ cs) r h = refl

StartsSlash-render_self : (cs : List Text) → StartsSlash (render cs)
unfolding render
StartsSlash-render_self [] = tt
StartsSlash-render_self (c ∷ cs) = refl

render-tail :
    (x y : Text) (a b : List Text) (r : Text)
    → render (x ∷ a) ≡ render (y ∷ b) ++ r
    → x ++ render a ≡ y ++ (render b ++ r)
unfolding render
render-tail x y a b r e = cc (append_assoc y (render b) r)

-- A rendered prefix that ends at a slash or at the end is a prefix of the components.
pub render-prefix :
    (b a : List Text) (r : Text)
    → All NoSlash a
    → All NoSlash b
    → StartsSlash r
    → render a ≡ render b ++ r
    → (c : List Text) × (a ≡ b ++ c) × (render c ≡ r)
unfolding render
render-prefix [] a r ha hb hr e = (a, refl, e)
render-prefix (y ∷ b) [] r ha hb hr e = cc
render-prefix (y ∷ b) (x ∷ a) r ha hb hr e =
    let (same, rest) =
      cut x y (render a) (render b ++ r) ha.0 hb.0 (StartsSlash-render_self a)
        (StartsSlash-render b r hr) (render-tail x y a b r e) in
    let (c, extends, tails) = render-prefix b a r ha.1 hb.1 hr rest in (c, cc, tails)

-- The components of the second list begin with those of the first.
abbrev pub Extends : List Text → List Text → Type 0
Extends b a = (c : List Text) × (a ≡ b ++ c)

pub NoSlash-of_IsPlain : (cs : List Text) → All IsPlain cs → All NoSlash cs
NoSlash-of_IsPlain [] h = tt
NoSlash-of_IsPlain (c ∷ cs) h = (h.0.3, NoSlash-of_IsPlain cs h.1)

pub render-append : (a b : List Text) → render (a ++ b) ≡ render a ++ render b
unfolding render
render-append [] b = refl
render-append (c ∷ a) b = cc (render-append a b, append_assoc c (render a) (render b))
