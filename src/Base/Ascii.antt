-- ===== src/Base/Ascii.antt =====
-- What the program uses of package strings and of its character classes, on the bytes of a text.
-- White space is trimmed as in an ASCII text.
use Prim.Native.Nat.{ℕ, zero, suc, ◌+◌, ◌-◌, ◌*◌}
use mathlib.Core.Path.{◌≡◌, refl, ap}
use mathlib.Core.Bool.{Bool, true, false, ◌&&◌, ◌||◌}
use mathlib.Core.Option.{Option, none, some}
use mathlib.Core.Logic.{◌≢◌, inl, inr}
use mathlib.Core.List.{[], ◌∷◌, ◌++◌}
use native.Mathlib.Omega.{arith}
use kringkasting.Base.Tests.{leb, ◌==◌, if◌then◌else◌, Bool-cases}
use kringkasting.Base.Lists.{length, take, drop, All}
use kringkasting.Base.Text.{Bytes}

-- unicode.IsSpace on ASCII
unfoldable pub is_space : ℕ → Bool
is_space c = c == 32 || (leb 9 c && leb c 13)

unfoldable pub trim_left : Bytes → Bytes
trim_left [] = []
trim_left (c ∷ s) = let rest = trim_left s in if is_space c then rest else c ∷ s

-- One more byte before what `trim_right` left of the rest.
unfoldable pub before_trimmed : ℕ → Bytes → Bytes
before_trimmed c [] = if is_space c then [] else c ∷ []
before_trimmed c (d ∷ t) = c ∷ d ∷ t

unfoldable pub trim_right : Bytes → Bytes
trim_right [] = []
trim_right (c ∷ s) = before_trimmed c (trim_right s)

-- strings.TrimSpace
unfoldable pub trim_space : Bytes → Bytes
unfolding is_space trim_left before_trimmed trim_right
trim_space s = trim_right (trim_left s)

-- Every byte passes the test.
unfoldable pub all_bytes : (ℕ → Bool) → Bytes → Bool
all_bytes p [] = true
all_bytes p (c ∷ s) = p c && all_bytes p s

unfoldable pub is_digit : ℕ → Bool
is_digit c = leb 48 c && leb c 57

abbrev pub is_letter : ℕ → Bool
is_letter c = (leb 65 c && leb c 90) || (leb 97 c && leb c 122)

-- The longest run of bytes that pass, and what follows it: what a pattern takes of a class when
-- what must follow is not of the class.
unfoldable pub run_of : (ℕ → Bool) → Bytes → Bytes × Bytes
run_of p [] = ([], [])
run_of p (c ∷ s) = let (run, rest) = run_of p s in if p c then (c ∷ run, rest) else ([], c ∷ s)

-- strings.ToLower on ASCII
unfoldable pub lower_byte : ℕ → ℕ
lower_byte c = if leb 65 c && leb c 90 then c + 32 else c

unfoldable pub to_lower : Bytes → Bytes
unfolding lower_byte
to_lower [] = []
to_lower (c ∷ s) = lower_byte c ∷ to_lower s

-- The value of a text of decimal digits, as strconv reads it.
unfoldable pub decimal_from : ℕ → Bytes → ℕ
decimal_from n [] = n
decimal_from n (c ∷ s) = decimal_from (n * 10 + (c - 48)) s

unfoldable pub decimal : Bytes → ℕ
unfolding decimal_from
decimal s = decimal_from 0 s

-- strings.HasPrefix
unfoldable pub has_prefix : Bytes → Bytes → Bool
has_prefix s [] = true
has_prefix [] (b ∷ p) = false
has_prefix (a ∷ s) (b ∷ p) = (a == b) && has_prefix s p

abbrev pub next : Option ℕ → Option ℕ
next none = none
next (some i) = some (suc i)

-- strings.Index: where the first occurrence begins
unfoldable pub index : Bytes → Bytes → Option ℕ
index [] p = if has_prefix [] p then some 0 else none
index (c ∷ s) p = let rest = index s p in if has_prefix (c ∷ s) p then some 0 else next rest

-- strings.Contains
abbrev pub found : Option ℕ → Bool
found none = false
found (some i) = true

unfoldable pub contains : Bytes → Bytes → Bool
contains s p = found (index s p)

pub has_prefix-append : (p s : Bytes) → has_prefix (p ++ s) p ≡ true
unfolding has_prefix
has_prefix-append [] s = refl
has_prefix-append (a ∷ p) s = ground (arith, has_prefix-append p s)

has_prefix_split : (s p : Bytes) → has_prefix s p ≡ true → s ≡ p ++ drop (length p) s
unfolding has_prefix
has_prefix_split s [] h = refl
has_prefix_split [] (b ∷ p) h = cc
has_prefix_split (a ∷ s) (b ∷ p) h = ground (arith, has_prefix_split s p)

-- The text around the occurrence that `index` finds.
pub index_split :
    (s p : Bytes) (i : ℕ) → index s p ≡ some i → s ≡ take i s ++ (p ++ drop (i + length p) s)
unfolding index
index_split [] p i h = ground (arith, has_prefix_split [] p)
index_split (c ∷ s) p zero h = ground (arith, has_prefix_split (c ∷ s) p)
index_split (c ∷ s) p (suc i) h = elim (Bool-cases (has_prefix (c ∷ s) p)) [
  | inl e ↦ absurd (ground (arith))
  | inr e ↦
      let k : suc i + length p ≡ suc (i + length p) = omega arith in
      rw k (ap (◌∷◌ c) (index_split s p i (ground arith)))
]

-- In a text whose head has no byte that begins the pattern, the search goes past that head.
pub index-append :
    (s t p : Bytes) (b : ℕ)
    → All (λ c. c ≢ b) s
    → index (s ++ ((b ∷ p) ++ t)) (b ∷ p) ≡ some (length s)
unfolding index has_prefix
index-append [] t p b h = ground (arith, has_prefix-append p t)
index-append (c ∷ s) t p b h = ground (arith, index-append s t p b h.1)

pub index_absent : (s p : Bytes) (b : ℕ) → All (λ c. c ≢ b) s → index s (b ∷ p) ≡ none
unfolding index has_prefix
index_absent [] p b h = refl
index_absent (c ∷ s) p b h = ground (arith, index_absent s p b h.1)

pub all_bytes-append :
    (p : ℕ → Bool) (s t : Bytes) → all_bytes p (s ++ t) ≡ (all_bytes p s && all_bytes p t)
unfolding all_bytes
all_bytes-append p [] t = refl
all_bytes-append p (c ∷ s) t = ground (arith, all_bytes-append p s t)

-- The head and the tail of a text whose bytes all pass.
pub passing :
    (p : ℕ → Bool) (c : ℕ) (s : Bytes)
    → all_bytes p (c ∷ s) ≡ true
    → (p c ≡ true) × (all_bytes p s ≡ true)
unfolding all_bytes
passing p c s h = elim (Bool-cases (p c)) [
  | inl y ↦ (y, ground (arith, y, h))
  | inr n ↦ ground (arith, n, h)
]

-- A run ends where a byte does not pass.
pub run_of-append :
    (p : ℕ → Bool) (w : Bytes) (c : ℕ) (rest : Bytes)
    → all_bytes p w ≡ true
    → p c ≡ false
    → run_of p (w ++ (c ∷ rest)) ≡ (w, c ∷ rest)
unfolding run_of
run_of-append p [] c rest h n = rw n refl
run_of-append p (d ∷ w) c rest h n =
    let (here, more) = passing p d w h in rw (run_of-append p w c rest more n) (rw here refl)
