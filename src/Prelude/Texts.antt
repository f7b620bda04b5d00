-- ===== src/Prelude/Texts.antt =====
-- Texts as the lists of their characters: Python's `split`, `join` and `strip`.
use Prim.Native.Nat.{ℕ, zero, suc}
use Prim.Native.Char.{Char, code}
use Prim.Native.String.{String}
use mathlib.Core.Path.{◌≡◌, refl, ap, ◌∙◌}
use mathlib.Core.Logic.{inl, inr}
use mathlib.Core.Bool.{Bool, true, false, ◌&&◌, ◌||◌}
use mathlib.Core.Option.{Option, none, some}
use mathlib.Core.List.{List, [], ◌∷◌}
use native.Mathlib.Omega.{arith}
use production_support_agent.Prelude.Tests.{
  ltb, leb, ◌==◌, nat_eq, value_or, is_some, if◌then◌else◌, Bool-cases,
}
use production_support_agent.Prelude.Lists.{All}

-- `str.isspace` of one character
unfoldable pub is_space : Char → Bool
is_space c =
    let n = code c in
    leb 9 n && leb n 13
    || leb 28 n && leb n 32
    || n == 133
    || n == 160
    || n == 5760
    || leb 8192 n && leb n 8202
    || n == 8232
    || n == 8233
    || n == 8239
    || n == 8287
    || n == 12288

-- `not text`
abbrev pub is_blank : String → Bool
is_blank String.[] = true
is_blank (String.◌∷◌ c s) = false

unfoldable pub lstrip : String → String
lstrip String.[] = ""
lstrip (String.◌∷◌ c s) = let rest = lstrip s in if is_space c then rest else String.◌∷◌ c s

-- A character before what is left of the text behind it, when a space at the end is dropped.
abbrev keep_unless : Bool → Char → String → String
keep_unless true c String.[] = ""
keep_unless true c (String.◌∷◌ d s) = String.◌∷◌ c (String.◌∷◌ d s)
keep_unless false c s = String.◌∷◌ c s

unfoldable pub rstrip : String → String
rstrip String.[] = ""
rstrip (String.◌∷◌ c s) = keep_unless (is_space c) c (rstrip s)

-- `text.strip()`
unfoldable pub strip : String → String
strip s = rstrip (lstrip s)

-- A character before the first part.
abbrev onto_first : Char → List String → List String
onto_first c [] = String.◌∷◌ c "" ∷ []
onto_first c (p ∷ ps) = String.◌∷◌ c p ∷ ps

-- `text.split(sep)` at one character
unfoldable pub split : Char → String → List String
split sep String.[] = "" ∷ []
split sep (String.◌∷◌ c s) =
    let rest = split sep s in if code c == code sep then "" ∷ rest else onto_first c rest

-- One text before another.
abbrev pub before : String → String → String
before String.[] t = t
before (String.◌∷◌ c s) t = String.◌∷◌ c (before s t)

-- Every part behind a separator.
abbrev separated : Char → List String → String
separated sep [] = ""
separated sep (p ∷ ps) = String.◌∷◌ sep (before p (separated sep ps))

-- `sep.join(parts)`
unfoldable pub join : Char → List String → String
join sep [] = ""
join sep (p ∷ ps) = before p (separated sep ps)

-- A text without the separator.
abbrev pub Lacks : Char → String → Type 0
Lacks sep String.[] = Unit {0}
Lacks sep (String.◌∷◌ c s) = ((code c == code sep) ≡ false) × Lacks sep s

onto_first-Lacks :
    (sep c : Char) (parts : List String)
    → (code c == code sep) ≡ false
    → All (Lacks sep) parts
    → All (Lacks sep) (onto_first c parts)
onto_first-Lacks sep c [] k h = ((k, tt), tt)
onto_first-Lacks sep c (p ∷ ps) k h = ((k, h.0), h.1)

-- No part of a text that was split has the separator.
pub split-Lacks : (sep : Char) (s : String) → All (Lacks sep) (split sep s)
unfolding split
split-Lacks sep String.[] = (tt, tt)
split-Lacks sep (String.◌∷◌ c s) = elim (Bool-cases (code c == code sep)) [
  | inl t ↦ rw t (tt, split-Lacks sep s)
  | inr t ↦ rw t (onto_first-Lacks sep c (split sep s) t (split-Lacks sep s))
]

split-separated :
    (sep : Char) (p : String) (ps : List String)
    → Lacks sep p
    → All (Lacks sep) ps
    → split sep (before p (separated sep ps)) ≡ p ∷ ps
unfolding split
split-separated sep String.[] [] h k = refl
split-separated sep String.[] (q ∷ qs) h k =
    rw ((nat_eq.equals_iff (code sep) (code sep)).1 refl)
      (ap (λ r. "" ∷ r) (split-separated sep q qs k.0 k.1))
split-separated sep (String.◌∷◌ c p) ps h k =
    rw h.0 (ap (onto_first c) (split-separated sep p ps h.1 k))

-- Splitting undoes joining, when there is a part and no part has the separator.
pub split-join :
    (sep : Char) (p : String) (ps : List String)
    → All (Lacks sep) (p ∷ ps)
    → split sep (join sep (p ∷ ps)) ≡ p ∷ ps
unfolding join
split-join sep p ps h = split-separated sep p ps h.0 h.1

lstrip-Lacks : (sep : Char) (s : String) → Lacks sep s → Lacks sep (lstrip s)
unfolding lstrip
lstrip-Lacks sep String.[] h = tt
lstrip-Lacks sep (String.◌∷◌ c s) h = elim (Bool-cases (is_space c)) [
  | inl t ↦ rw t (lstrip-Lacks sep s h.1)
  | inr t ↦ rw t h
]

keep_unless-Lacks :
    (sep : Char) (b : Bool) (c : Char) (s : String)
    → (code c == code sep) ≡ false
    → Lacks sep s
    → Lacks sep (keep_unless b c s)
keep_unless-Lacks sep true c String.[] k h = tt
keep_unless-Lacks sep true c (String.◌∷◌ d s) k h = (k, h)
keep_unless-Lacks sep false c s k h = (k, h)

rstrip-Lacks : (sep : Char) (s : String) → Lacks sep s → Lacks sep (rstrip s)
unfolding rstrip
rstrip-Lacks sep String.[] h = tt
rstrip-Lacks sep (String.◌∷◌ c s) h =
    keep_unless-Lacks sep (is_space c) c (rstrip s) h.0 (rstrip-Lacks sep s h.1)

pub strip-Lacks : (sep : Char) (s : String) → Lacks sep s → Lacks sep (strip s)
unfolding strip
strip-Lacks sep s h = rstrip-Lacks sep (lstrip s) (lstrip-Lacks sep s h)

-- A text that `lstrip` keeps.
abbrev Unindented : String → Type 0
Unindented String.[] = Unit {0}
Unindented (String.◌∷◌ c s) = is_space c ≡ false

lstrip-Unindented : (s : String) → Unindented (lstrip s)
unfolding lstrip
lstrip-Unindented String.[] = tt
lstrip-Unindented (String.◌∷◌ c s) = elim (Bool-cases (is_space c)) [
  | inl t ↦ rw t (lstrip-Unindented s)
  | inr t ↦ rw t t
]

rstrip-Unindented : (s : String) → Unindented s → Unindented (rstrip s)
unfolding rstrip
rstrip-Unindented String.[] h = tt
rstrip-Unindented (String.◌∷◌ c s) h = rw h h

lstrip-kept : (s : String) → Unindented s → lstrip s ≡ s
unfolding lstrip
lstrip-kept String.[] h = refl
lstrip-kept (String.◌∷◌ c s) h = rw h refl

rstrip-keep_unless :
    (b : Bool) (c : Char) (s : String)
    → is_space c ≡ b
    → rstrip s ≡ s
    → rstrip (keep_unless b c s) ≡ keep_unless b c s
unfolding rstrip
rstrip-keep_unless true c String.[] e h = refl
rstrip-keep_unless true c (String.◌∷◌ d s) e h = rw (h, e) refl
rstrip-keep_unless false c s e h = rw (h, e) refl

rstrip-rstrip : (s : String) → rstrip (rstrip s) ≡ rstrip s
unfolding rstrip
rstrip-rstrip String.[] = refl
rstrip-rstrip (String.◌∷◌ c s) = rstrip-keep_unless (is_space c) c (rstrip s) refl (rstrip-rstrip s)

pub strip-strip : (s : String) → strip (strip s) ≡ strip s
unfolding strip
strip-strip s =
    ap rstrip (lstrip-kept (rstrip (lstrip s)) (rstrip-Unindented (lstrip s) (lstrip-Unindented s)))
    ∙ rstrip-rstrip (lstrip s)

-- The rest of a text behind a prefix that it has.
unfoldable pub after_prefix : String → String → Option String
after_prefix String.[] s = some s
after_prefix (String.◌∷◌ p prefix) String.[] = none
after_prefix (String.◌∷◌ p prefix) (String.◌∷◌ c s) =
    let rest = after_prefix prefix s in if code c == code p then rest else none

-- `text.removeprefix(prefix)`
abbrev pub remove_prefix : String → String → String
remove_prefix prefix s = value_or (after_prefix prefix s) s

pub after_prefix-before : (prefix s : String) → after_prefix prefix (before prefix s) ≡ some s
unfolding after_prefix
after_prefix-before String.[] s = refl
after_prefix-before (String.◌∷◌ p prefix) s =
    rw ((nat_eq.equals_iff (code p) (code p)).1 refl) (after_prefix-before prefix s)

-- `all(p(c) for c in text)`
unfoldable pub all_chars : (Char → Bool) → String → Bool
all_chars p String.[] = true
all_chars p (String.◌∷◌ c s) = p c && all_chars p s

-- `text.isascii()`
abbrev pub is_ascii : String → Bool
is_ascii = all_chars (λ c. ltb (code c) 128)

-- A digit of `hexdigest()`
abbrev pub is_hex_digit : Char → Bool
is_hex_digit c = leb 48 (code c) && leb (code c) 57 || leb 97 (code c) && leb (code c) 102

pub all_chars-imply :
    (p q : Char → Bool) (s : String)
    → ((c : Char) → p c ≡ true → q c ≡ true)
    → all_chars p s ≡ true
    → all_chars q s ≡ true
unfolding all_chars
all_chars-imply p q String.[] f h = refl
all_chars-imply p q (String.◌∷◌ c s) f h = ground (arith, f c, all_chars-imply p q s f, h)

-- `word in text`
unfoldable pub occurs_in : String → String → Bool
occurs_in word String.[] = is_some (after_prefix word "")
occurs_in word (String.◌∷◌ c s) =
    let later = occurs_in word s in
    if is_some (after_prefix word (String.◌∷◌ c s)) then true else later

-- `text[:n]`
unfoldable pub take_text : ℕ → String → String
take_text zero s = ""
take_text (suc n) String.[] = ""
take_text (suc n) (String.◌∷◌ c s) = String.◌∷◌ c (take_text n s)

abbrev joined_behind : String → List String → String
joined_behind sep [] = ""
joined_behind sep (p ∷ ps) = before sep (before p (joined_behind sep ps))

-- `sep.join(parts)` of a longer separator
unfoldable pub join_text : String → List String → String
join_text sep [] = ""
join_text sep (p ∷ ps) = before p (joined_behind sep ps)

-- `value or default` of a text that may be absent
unfoldable pub filled_or : Option String → String → String
filled_or none default = default
filled_or (some value) default = if is_blank value then default else value
