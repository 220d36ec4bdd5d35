-- ===== src/Device/Paths.antt =====
-- Go's path.Join, path.Clean and strings.Split, which the keys of pods and the paths of sockets use.
use orin_device_system.Common.{
  ℕ, ◌==◌, List, [], ◌∷◌, ◌++◌, reverse, Bool, true, false, not, ◌||◌, ◌&&◌, Text, Text_discrete,
  codes, ite, has_byte, if◌then◌else◌, ◌≡◌, ◌≢◌, refl, arith, ap, ap₂, ◌∙◌, sym, All, if_neg,
  append-nil, append_assoc,
}
use mathlib.Core.List.{reverse-cons}
use orin_device_system.Pods.{is_empty}

-- a byte before the first of some parts
unfoldable pub onto_first : ℕ → List Text → List Text
onto_first c [] = (c ∷ []) ∷ []
onto_first c (part ∷ parts) = (c ∷ part) ∷ parts

-- strings.Split(s, sep), for a separator of one byte: never an empty list.
unfoldable pub split : ℕ → Text → List Text
split sep [] = [] ∷ []
split sep (c ∷ s) = let rest = split sep s in if c == sep then [] ∷ rest else onto_first c rest

-- strings.Join(parts, "/")
unfoldable pub join_parts : List Text → Text
join_parts [] = []
join_parts (part ∷ []) = part
join_parts (part ∷ q ∷ parts) = part ++ b'/' ∷ join_parts (q ∷ parts)

-- One element of a path, onto those before it, the last of them first.
unfoldable pub clean_element : Bool → Text → List Text → List Text
clean_element rooted part [] =
    if is_empty part
      || ite (Text_discrete part (codes ".")) true false
      || rooted && ite (Text_discrete part (codes "..")) true false
    then []
    else part ∷ []
clean_element rooted part (last ∷ before) =
    if is_empty part || ite (Text_discrete part (codes ".")) true false
    then last ∷ before
    else if ite (Text_discrete part (codes ".."))
        (not (ite (Text_discrete last (codes "..")) true false)) false
    then before
    else part ∷ last ∷ before

unfoldable pub clean_elements : Bool → List Text → List Text → List Text
clean_elements rooted [] before = reverse before
clean_elements rooted (part ∷ parts) before =
    clean_elements rooted parts (clean_element rooted part before)

-- A path of elements, from the root or not; the empty one is ".".
unfoldable pub path_of : Bool → List Text → Text
path_of true elements = b'/' ∷ join_parts elements
path_of false [] = codes "."
path_of false (e ∷ elements) = join_parts (e ∷ elements)

unfoldable pub is_rooted : Text → Bool
is_rooted [] = false
is_rooted (c ∷ s) = c == b'/'

-- path.Clean
unfoldable pub path_clean : Text → Text
path_clean p = path_of (is_rooted p) (clean_elements (is_rooted p) (split b'/' p) [])

-- path.Join of two elements
unfoldable pub path_join : Text → Text → Text
path_join [] [] = []
path_join [] (c ∷ q) = path_clean (c ∷ q)
path_join (c ∷ p) [] = path_clean (c ∷ p)
path_join (c ∷ p) (d ∷ q) = path_clean ((c ∷ p) ++ b'/' ∷ d ∷ q)

-- A text that names one element: not empty, without a slash, and neither "." nor "..".
pub record IsElement (s : Text) : Type 0 where
  pub filled : is_empty s ≡ false
  pub unsplit : has_byte b'/' s ≡ false
  pub no_dot : s ≢ codes "."
  pub no_dots : s ≢ codes ".."

pub split-element : (sep : ℕ) (s : Text) → has_byte sep s ≡ false → split sep s ≡ s ∷ []
unfolding split onto_first has_byte
split-element sep [] h = refl
split-element sep (c ∷ s) h = ground (arith, h, split-element sep s)

pub split-append :
    (sep : ℕ) (s t : Text) → has_byte sep s ≡ false → split sep (s ++ sep ∷ t) ≡ s ∷ split sep t
unfolding split onto_first has_byte
split-append sep [] t h = ground arith
split-append sep (c ∷ s) t h = ground (arith, h, split-append sep s t)

clean_element-IsElement :
    (rooted : Bool) (e : Text) (before : List Text)
    → IsElement e
    → clean_element rooted e before ≡ e ∷ before
unfolding clean_element
clean_element-IsElement rooted e [] h =
    let plain = if_neg (Text_discrete e (codes ".")) h.no_dot true false in
    let plain' = if_neg (Text_discrete e (codes "..")) h.no_dots true false in
    ground (arith, h.filled, plain, plain')
clean_element-IsElement rooted e (last ∷ before) h =
    let plain = if_neg (Text_discrete e (codes ".")) h.no_dot true false in
    ground (
      arith,
      h.filled,
      plain,
      if_neg (Text_discrete e (codes "..")) h.no_dots
          (not (ite (Text_discrete last (codes "..")) true false)) false,
    )

clean_elements-IsElement :
    (rooted : Bool) (es before : List Text)
    → All IsElement es
    → clean_elements rooted es before ≡ reverse before ++ es
unfolding clean_elements
clean_elements-IsElement rooted [] before h = sym (append-nil (reverse before))
clean_elements-IsElement rooted (e ∷ es) before (h, hs) =
    ap (clean_elements rooted es) (clean_element-IsElement rooted e before h)
    ∙ (clean_elements-IsElement rooted es (e ∷ before) hs
        ∙ (ap (λ r. r ++ es) (reverse-cons e before) ∙ append_assoc (reverse before) (e ∷ []) es))

split-join_parts :
    (e : Text) (es : List Text) → All IsElement (e ∷ es) → split b'/' (join_parts (e ∷ es)) ≡ e ∷ es
unfolding join_parts
split-join_parts e [] (h, hs) = split-element b'/' e h.unsplit
split-join_parts e (f ∷ es) (h, hs) =
    split-append b'/' e (join_parts (f ∷ es)) h.unsplit ∙ ap (λ r. e ∷ r) (split-join_parts f es hs)

is_rooted-append :
    (e t : Text) → is_empty e ≡ false → has_byte b'/' e ≡ false → is_rooted (e ++ t) ≡ false
unfolding is_rooted has_byte
is_rooted-append [] t f h = ground (arith, f)
is_rooted-append (c ∷ e) t f h = ground (arith, h)

-- A path of elements is clean.
pub path_clean-join_parts :
    (e : Text) (es : List Text)
    → All IsElement (e ∷ es)
    → path_clean (join_parts (e ∷ es)) ≡ join_parts (e ∷ es)
unfolding path_clean path_of join_parts
path_clean-join_parts e es (h, hs) =
    ap₂ (λ r parts. path_of r (clean_elements r parts [])) (unrooted e es h)
      (split-join_parts e es (h, hs))
    ∙ ap (path_of false) (clean_elements-IsElement false (e ∷ es) [] (h, hs))
  where
    unrooted : (e : Text) (es : List Text) → IsElement e → is_rooted (join_parts (e ∷ es)) ≡ false
    unrooted e [] h = ap is_rooted (sym (append-nil e)) ∙ is_rooted-append e [] h.filled h.unsplit
    unrooted e (f ∷ es) h = is_rooted-append e (b'/' ∷ join_parts (f ∷ es)) h.filled h.unsplit

-- A path of elements from the root is clean.
pub path_clean-rooted :
    (e : Text) (es : List Text)
    → All IsElement (e ∷ es)
    → path_clean (b'/' ∷ join_parts (e ∷ es)) ≡ b'/' ∷ join_parts (e ∷ es)
unfolding path_clean path_of is_rooted split clean_elements clean_element
path_clean-rooted e es (h, hs) =
    ap (λ parts. path_of true (clean_elements true parts [])) (split-join_parts e es (h, hs))
    ∙ ap (path_of true) (clean_elements-IsElement true (e ∷ es) [] (h, hs))

-- path.Join of two elements puts a slash between them.
pub path_join-elements : (a b : Text) → IsElement a → IsElement b → path_join a b ≡ a ++ b'/' ∷ b
unfolding path_join join_parts
path_join-elements [] b h k = absurd (ground (arith, h.filled))
path_join-elements (c ∷ a) [] h k = absurd (ground (arith, k.filled))
path_join-elements (c ∷ a) (d ∷ b) h k = path_clean-join_parts (c ∷ a) ((d ∷ b) ∷ []) (h, (k, tt))

pub path_join-alone : (b : Text) → IsElement b → path_join [] b ≡ b
unfolding path_join join_parts
path_join-alone [] k = refl
path_join-alone (d ∷ b) k = path_clean-join_parts (d ∷ b) [] (k, tt)

test_clean : path_clean (codes "/a//b/../c/./d/") ≡ codes "/a/c/d"
unfolding path_clean is_rooted split onto_first clean_elements clean_element path_of join_parts
    Text_discrete
test_clean = refl

test_join : path_join (codes "unix:///var/lib") (codes "x.sock") ≡ codes "unix:/var/lib/x.sock"
unfolding path_join path_clean is_rooted split onto_first clean_elements clean_element path_of
    join_parts Text_discrete
test_join = refl
