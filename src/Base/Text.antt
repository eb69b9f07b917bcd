-- ===== src/Base/Text.antt =====
-- JavaScript texts as lists of code units, and the text operations that the program calls.
use Prim.Native.Char.{code}
use Prim.Native.Nat.{ℕ, suc, ◌+◌, ◌-◌}
use mathlib.Core.Option.{Option, none, some, map as option_map}
use Prim.Native.String.{String}
use mathlib.Core.Bool.{Bool, true, false, ◌&&◌, ◌||◌}
use mathlib.Core.List.{List, [], ◌∷◌, ◌++◌, map, append-nil, append_assoc}
use mathlib.Core.Logic.{◌↔◌, ◌≢◌, inl, inr}
use mathlib.Core.Path.{◌≡◌, refl, ap, sym, ◌∙◌}
use native.Mathlib.Omega.{arith}
use metrice.Base.Tests.{leb, ◌==◌, if◌then◌else◌, Eq, Bool-cases}
use metrice.Base.Lists.{length, take, drop, get_or, All, All-append, take-append-drop}

abbrev pub Str : Type 0
Str = List ℕ

-- The code units of a literal.
abbrev pub codes : String → Str
codes String.[] = []
codes (String.◌∷◌ c s) = code c ∷ codes s

-- `a === b`
unfoldable pub str_eq : Str → Str → Bool
str_eq [] [] = true
str_eq [] (d ∷ t) = false
str_eq (c ∷ s) [] = false
str_eq (c ∷ s) (d ∷ t) = (c == d) && str_eq s t

str_eq→eq : (s t : Str) → str_eq s t ≡ true → s ≡ t
unfolding str_eq
str_eq→eq [] [] h = refl
str_eq→eq [] (d ∷ t) h = cc
str_eq→eq (c ∷ s) [] h = cc
str_eq→eq (c ∷ s) (d ∷ t) h = ground (arith, str_eq→eq s t)

pub str_eq_refl : (s : Str) → str_eq s s ≡ true
unfolding str_eq
str_eq_refl [] = refl
str_eq_refl (c ∷ s) = ground (arith, str_eq_refl s)

pub str_eq_iff : (s t : Str) → (str_eq s t ≡ true) ↔ (s ≡ t)
str_eq_iff s t = (str_eq→eq s t, λ e. rw e (str_eq_refl t))

pub str_eq_ne : (s t : Str) → str_eq s t ≡ false → s ≢ t
str_eq_ne s t h e = let equal : str_eq s t ≡ true = (str_eq_iff s t).1 e in absurd (ground arith)

pub str_eq_sym : (s t : Str) → str_eq s t ≡ str_eq t s
unfolding str_eq
str_eq_sym [] [] = refl
str_eq_sym [] (d ∷ t) = refl
str_eq_sym (c ∷ s) [] = refl
str_eq_sym (c ∷ s) (d ∷ t) = ground (arith, str_eq_sym s t)

instance abbrev pub str_eq_inst : Eq Str
str_eq_inst = record { beq = str_eq; beq_iff = str_eq_iff }

-- `s.startsWith(p)`
unfoldable pub starts_with : Str → Str → Bool
starts_with s [] = true
starts_with [] (d ∷ p) = false
starts_with (c ∷ s) (d ∷ p) = (c == d) && starts_with s p

pub starts_with-append : (s p x : Str) → starts_with s p ≡ true → starts_with (s ++ x) p ≡ true
unfolding starts_with
starts_with-append s [] x h = ground arith
starts_with-append [] (d ∷ p) x h = cc
starts_with-append (c ∷ s) (d ∷ p) x h = ground (arith, starts_with-append s p x)

-- `s.replace(/^p/, '')` for a literal `p`
unfoldable pub strip_prefix : Str → Str → Str
unfolding starts_with
strip_prefix p s = if starts_with s p then drop (length p) s else s

-- `s.replace(p, '')` for a text `p`: the first occurrence, wherever it stands.
unfoldable pub remove_first : Str → Str → Str
remove_first p [] = []
remove_first p (c ∷ s) =
    let rest = remove_first p s in
    if starts_with (c ∷ s) p then drop (length p) (c ∷ s) else c ∷ rest

-- `s.endsWith(p)`
unfoldable pub ends_with : Str → Str → Bool
unfolding str_eq
ends_with s p = str_eq (drop (length s - length p) s) p

-- The parts of `s` around the first `c`, and around the last.
unfoldable pub cut : ℕ → Str → Option (Str × Str)
cut c [] = none
cut c (d ∷ s) =
    let rest = cut c s in if d == c then some ([], s) else option_map (λ p. (d ∷ p.0, p.1)) rest

unfoldable pub cut_last : ℕ → Str → Option (Str × Str)
cut_last c [] = none
cut_last c (d ∷ s) = elim (cut_last c s) [
  | some p ↦ some (d ∷ p.0, p.1)
  | none ↦ if d == c then some ([], s) else none
]

-- How often `c` stands in `s`
unfoldable pub count_char : ℕ → Str → ℕ
count_char c [] = 0
count_char c (d ∷ s) = let rest = count_char c s in if d == c then suc rest else rest

-- `list.includes(text)`, `set.has(text)`
unfoldable pub includes : List Str → Str → Bool
includes [] s = false
includes (t ∷ ts) s = str_eq t s || includes ts s

-- `s.includes(c)` for one code unit
unfoldable pub has_char : ℕ → Str → Bool
has_char c [] = false
has_char c (d ∷ s) = (d == c) || has_char c s

-- `s.split(c)` for a separator of one code unit; `cur` is the part that is being read.
split_loop : ℕ → Str → Str → List Str
split_loop sep cur [] = cur ∷ []
split_loop sep cur (c ∷ s) = elim (c == sep) [
  | true ↦ cur ∷ split_loop sep [] s
  | false ↦ split_loop sep (cur ++ c ∷ []) s
]

unfoldable pub split : ℕ → Str → List Str
unfolding split_loop
split sep s = split_loop sep [] s

-- `texts.join(sep)`
unfoldable pub join : Str → List Str → Str
join sep [] = []
join sep (s ∷ []) = s
join sep (s ∷ t ∷ ts) = s ++ (sep ++ join sep (t ∷ ts))

-- No part of the text is the separator.
abbrev pub Lacks : ℕ → Str → Type 0
Lacks sep = All (λ c. (c == sep) ≡ false)

split_loop_last : (sep : ℕ) (s cur : Str) → Lacks sep s → split_loop sep cur s ≡ (cur ++ s) ∷ []
unfolding split_loop
split_loop_last sep [] cur h = rw append-nil
split_loop_last sep (c ∷ s) cur (h, hs) =
    rw (h, split_loop)
      (split_loop_last sep s (cur ++ c ∷ []) hs ∙ ap (λ t. t ∷ []) (append_assoc cur (c ∷ []) s))

split_loop-append :
    (sep : ℕ) (s t cur : Str)
    → Lacks sep s
    → split_loop sep cur (s ++ sep ∷ t) ≡ (cur ++ s) ∷ split_loop sep [] t
unfolding split_loop
split_loop-append sep [] t cur h = ground (arith, append-nil cur)
split_loop-append sep (c ∷ s) t cur (h, hs) =
    rw (h, split_loop)
      (split_loop-append sep s t (cur ++ c ∷ []) hs
        ∙ ap (λ u. u ∷ split_loop sep [] t) (append_assoc cur (c ∷ []) s))

-- The first part of a split holds no separator.
split_loop_first :
    (sep : ℕ) (s cur : Str) → Lacks sep cur → Lacks sep (get_or (split_loop sep cur s) 0 [])
unfolding split_loop
split_loop_first sep [] cur h = h
split_loop_first sep (c ∷ s) cur h = elim (Bool-cases (c == sep)) [
  | inl cut ↦ rw (cut, split_loop) h
  | inr more ↦
      rw (more, split_loop)
        (split_loop_first sep s (cur ++ c ∷ [])
          (All-append (λ d. (d == sep) ≡ false) cur _ h (more, tt)))
]

pub split_first : (sep : ℕ) (s : Str) → Lacks sep (get_or (split sep s) 0 [])
unfolding split
split_first sep s = split_loop_first sep s [] tt

-- Splitting the joined text gives the parts back, if there is one and none holds the separator.
pub split-join :
    (sep : ℕ) (s : Str) (ts : List Str)
    → All (Lacks sep) (s ∷ ts)
    → split sep (join (sep ∷ []) (s ∷ ts)) ≡ s ∷ ts
unfolding split join
split-join sep s [] (h, hs) = split_loop_last sep s [] h
split-join sep s (t ∷ ts) (h, hs) =
    split_loop-append sep s (join (sep ∷ []) (t ∷ ts)) [] h
    ∙ ap (λ r. s ∷ r) (split-join sep t ts hs)

-- `toLowerCase` on ASCII letters. Other code units stay, so texts are read as ASCII.
unfoldable pub to_lower_char : ℕ → ℕ
to_lower_char c = if leb b'A' c && leb c b'Z' then c + 32 else c

unfoldable pub to_lower : Str → Str
unfolding to_lower_char
to_lower s = map to_lower_char s

pub Lacks-has_char : (c : ℕ) (s : Str) → Lacks c s → has_char c s ≡ false
unfolding has_char
Lacks-has_char c [] h = refl
Lacks-has_char c (d ∷ s) (h, hs) = ground (arith, Lacks-has_char c s hs)

-- The first separator behind a text without one
pub cut-append : (c : ℕ) (s t : Str) → Lacks c s → cut c (s ++ c ∷ t) ≡ some (s, t)
unfolding cut
cut-append c [] t h = ground arith
cut-append c (d ∷ s) t (h, hs) = rw (h, cut, cut-append c s t hs) refl

cut_last-none : (c : ℕ) (s : Str) → Lacks c s → cut_last c s ≡ none
unfolding cut_last
cut_last-none c [] h = refl
cut_last-none c (d ∷ s) (h, hs) = rw (cut_last-none c s hs, cut_last, h) refl

-- The last separator, in front of a text without one
pub cut_last-append : (c : ℕ) (s t : Str) → Lacks c t → cut_last c (s ++ c ∷ t) ≡ some (s, t)
unfolding cut_last
cut_last-append c [] t h = rw (cut_last-none c t h) (ground arith)
cut_last-append c (d ∷ s) t h = rw (cut_last-append c s t h, cut_last) refl

pub count_char-append :
    (c : ℕ) (s t : Str) → count_char c (s ++ t) ≡ count_char c s + count_char c t
unfolding count_char
count_char-append c [] t = omega arith
count_char-append c (d ∷ s) t = ground (arith, count_char-append c s t)

pub count_char-Lacks : (c : ℕ) (s : Str) → Lacks c s → count_char c s ≡ 0
unfolding count_char
count_char-Lacks c [] h = refl
count_char-Lacks c (d ∷ s) (h, hs) = ground (arith, count_char-Lacks c s hs)

-- The last code unit of a text, or `d`
abbrev pub last_or : ℕ → Str → ℕ
last_or d [] = d
last_or d (c ∷ s) = last_or c s

pub last_or-append : (d : ℕ) (s t : Str) → last_or d (s ++ t) ≡ last_or (last_or d s) t
last_or-append d [] t = refl
last_or-append d (c ∷ s) t = last_or-append c s t

-- A text ends with another only if its last code unit is the other's.
pub ends_with_last :
    (s p : Str) (c : ℕ) → ends_with s (c ∷ p) ≡ true → last_or 0 s ≡ last_or 0 (c ∷ p)
unfolding ends_with
ends_with_last s p c h =
    let k = length s - length (c ∷ p) in
    let tail : drop k s ≡ c ∷ p = (str_eq_iff (drop k s) (c ∷ p)).0 h in
    ap (last_or 0) (sym (take-append-drop k s))
    ∙ (last_or-append 0 (take k s) (drop k s) ∙ ap (last_or (last_or 0 (take k s))) tail)
