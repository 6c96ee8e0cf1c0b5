-- ===== src/Common/Strings.antt =====
-- Python strings as lists of code points. Two texts are compared with `text_eq`; `member` is the
-- `in` of a list or a set of texts, and `contains` is the substring test `p in s`.
use Prim.Native.Nat.{ℕ, ◌+◌, ◌-◌}
use Prim.Native.Char.{code}
use Prim.Native.String.{String}
use mathlib.Core.Path.{◌≡◌, refl}
use mathlib.Core.Logic.{◌↔◌}
use mathlib.Core.Bool.{Bool, true, false, ◌&&◌, ◌||◌}
use mathlib.Core.List.{List, [], ◌∷◌, ◌++◌}
use native.Mathlib.Omega.{arith}
use labmate.Common.Tests.{leb, ltb, ◌==◌, if◌then◌else◌}
use labmate.Common.Lists.{any, length, drop, is_empty}

abbrev pub Text : Type 0
Text = List ℕ

-- A literal.
abbrev pub codes : String → Text
codes String.[] = []
codes (String.◌∷◌ c s) = code c ∷ codes s

unfoldable pub text_eq : Text → Text → Bool
text_eq [] [] = true
text_eq (a ∷ s) (b ∷ t) = (a == b) && text_eq s t
text_eq _ _ = false

text_eq_sound : (s t : Text) → text_eq s t ≡ true → s ≡ t
unfolding text_eq
text_eq_sound [] [] h = refl
text_eq_sound (a ∷ s) (b ∷ t) h =
    let e : a ≡ b = ground arith in let r : s ≡ t = text_eq_sound s t (ground arith) in cc
text_eq_sound _ _ h = cc

text_eq_refl : (s : Text) → text_eq s s ≡ true
unfolding text_eq
text_eq_refl [] = refl
text_eq_refl (a ∷ s) = ground (arith, text_eq_refl s)

pub text_eq_iff : (s t : Text) → (text_eq s t ≡ true) ↔ (s ≡ t)
text_eq_iff s t = (text_eq_sound s t, λ e. rw e (text_eq_refl t))

-- `s < t`, code point by code point.
unfoldable pub text_lt : Text → Text → Bool
text_lt [] [] = false
text_lt [] (b ∷ t) = true
text_lt (a ∷ s) [] = false
text_lt (a ∷ s) (b ∷ t) = if a == b then text_lt s t else ltb a b

unfoldable pub member : Text → List Text → Bool
member s [] = false
member s (t ∷ ts) = text_eq s t || member s ts

pub member-append :
    (s : Text) (xs ys : List Text) → member s (xs ++ ys) ≡ (member s xs || member s ys)
unfolding member
member-append s [] ys = refl
member-append s (x ∷ xs) ys = ground (arith, member-append s xs ys)

unfoldable pub starts_with : Text → Text → Bool
starts_with [] s = true
starts_with (a ∷ p) [] = false
starts_with (a ∷ p) (b ∷ s) = (a == b) && starts_with p s

-- `s.endswith(p)`
unfoldable pub ends_with : Text → Text → Bool
ends_with p s = leb (length p) (length s) && text_eq p (drop (length s - length p) s)

unfoldable pub contains : Text → Text → Bool
unfolding starts_with
contains p [] = starts_with p []
contains p (b ∷ s) = starts_with p (b ∷ s) || contains p s

-- `any(p in s for p in ps)`
abbrev pub contains_any : List Text → Text → Bool
contains_any ps s = any (λ p. contains p s) ps

-- The white space that `str.strip` and `str.split` know.
unfoldable pub is_space : ℕ → Bool
is_space c =
    (leb 9 c && leb c 13)
    || ((leb 28 c && leb c 32)
        || (c == 0x85
            || (c == 0xa0
                || (c == 0x1680
                    || ((leb 0x2000 c && leb c 0x200a)
                        || (c == 0x2028
                            || (c == 0x2029 || (c == 0x202f || (c == 0x205f || c == 0x3000)))))))))

-- `s.lstrip()`
unfoldable pub lstrip : Text → Text
unfolding is_space
lstrip [] = []
lstrip (c ∷ s) = if is_space c then lstrip s else c ∷ s

-- `s.rstrip()`
unfoldable pub rstrip : Text → Text
unfolding is_space
rstrip [] = []
rstrip (c ∷ s) =
    let rest = rstrip s in elim rest [ [] ↦ if is_space c then [] else c ∷ [] | d ∷ r ↦ c ∷ d ∷ r ]

-- `s.strip()`
unfoldable pub strip : Text → Text
unfolding lstrip rstrip
strip s = rstrip (lstrip s)

-- The words of `s` after the start `word` of one.
unfoldable pub words_from : Text → Text → List Text
unfolding is_space
words_from word [] = if is_empty word then [] else word ∷ []
words_from word (c ∷ s) = elim (is_space c) [
  | true ↦ if is_empty word then words_from [] s else word ∷ words_from [] s
  | false ↦ words_from (word ++ c ∷ []) s
]

-- `s.split()`
unfoldable pub words : Text → List Text
words s = words_from [] s

-- `sep.join(parts)`
unfoldable pub join : Text → List Text → Text
join sep [] = []
join sep (p ∷ []) = p
join sep (p ∷ q ∷ ps) = p ++ (sep ++ join sep (q ∷ ps))

-- `s.lower()` for ASCII letters, for runs on concrete texts.
unfoldable pub ascii_lower : Text → Text
ascii_lower [] = []
ascii_lower (c ∷ s) = (if leb 65 c && leb c 90 then c + 32 else c) ∷ ascii_lower s
