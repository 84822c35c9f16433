-- ===== src/Prelude/Text.antt =====
-- Texts: a Rust `str` is the list of its code points, so that the program's walks over characters
-- are recursions. The order of code points is the order of the UTF-8 bytes.
use Prim.Native.Char.{code}
use Prim.Native.String.{String}
use Prim.Native.Nat.{ℕ, zero, suc, ◌+◌, ◌-◌, ◌/◌, ◌%◌}
use mathlib.Core.Path.{◌≡◌, refl}
use mathlib.Core.Logic.{◌↔◌, ◌⊎◌, inl, inr}
use mathlib.Core.Bool.{Bool, true, false, ◌&&◌, ◌||◌}
use mathlib.Core.List.{List, [], ◌∷◌}
use mathlib.Core.Option.{Option, none, some}
use native.Mathlib.Omega.{arith}
use aurum_presenter.Prelude.Tests.{◌==◌, ltb, leb, if◌then◌else◌}

abbrev pub Str : Type 0
Str = List ℕ

abbrev pub codes : String → Str
codes String.[] = []
codes (String.◌∷◌ c s) = code c ∷ codes s

-- `==` on texts.
unfoldable pub str_eq : Str → Str → Bool
str_eq [] [] = true
str_eq [] (b ∷ t) = false
str_eq (a ∷ s) [] = false
str_eq (a ∷ s) (b ∷ t) = (a == b) && str_eq s t

-- `<` on texts: the first difference decides, and a proper prefix is smaller.
unfoldable pub str_ltb : Str → Str → Bool
str_ltb [] [] = false
str_ltb [] (b ∷ t) = true
str_ltb (a ∷ s) [] = false
str_ltb (a ∷ s) (b ∷ t) = if a == b then str_ltb s t else ltb a b

abbrev pub is_empty : Str → Bool
is_empty [] = true
is_empty (c ∷ s) = false

pub str_eq-true : (s t : Str) → str_eq s t ≡ true → s ≡ t
unfolding str_eq
str_eq-true [] [] h = refl
str_eq-true [] (b ∷ t) h = cc
str_eq-true (a ∷ s) [] h = cc
str_eq-true (a ∷ s) (b ∷ t) h = ground (arith, str_eq-true s t)

pub str_eq_refl : (s : Str) → str_eq s s ≡ true
unfolding str_eq
str_eq_refl [] = refl
str_eq_refl (a ∷ s) = ground (arith, str_eq_refl s)

pub str_eq_iff : (s t : Str) → (str_eq s t ≡ true) ↔ (s ≡ t)
str_eq_iff s t = (str_eq-true s t, λ e. ground (arith, str_eq_refl s))

pub str_ltb_irrefl : (s : Str) → str_ltb s s ≡ false
unfolding str_ltb
str_ltb_irrefl [] = refl
str_ltb_irrefl (a ∷ s) = ground (arith, str_ltb_irrefl s)

pub str_ltb_trans : (r s t : Str) → str_ltb r s ≡ true → str_ltb s t ≡ true → str_ltb r t ≡ true
unfolding str_ltb
str_ltb_trans [] [] t h k = cc
str_ltb_trans [] (b ∷ s) [] h k = cc
str_ltb_trans [] (b ∷ s) (c ∷ t) h k = refl
str_ltb_trans (a ∷ r) [] t h k = cc
str_ltb_trans (a ∷ r) (b ∷ s) [] h k = cc
str_ltb_trans (a ∷ r) (b ∷ s) (c ∷ t) h k = ground (arith, str_ltb_trans r s t)

pub str_ltb_total : (s t : Str) → (str_ltb s t ≡ true) ⊎ (s ≡ t) ⊎ (str_ltb t s ≡ true)
unfolding str_ltb
str_ltb_total [] [] = inr (inl refl)
str_ltb_total [] (b ∷ t) = inl refl
str_ltb_total (a ∷ s) [] = inr (inr refl)
str_ltb_total (a ∷ s) (b ∷ t) = ground (arith, str_ltb_total s t)

-- Rust's `char::is_whitespace`: the code points with the property White_Space.
unfoldable pub is_whitespace : ℕ → Bool
is_whitespace c =
    (leb 9 c && leb c 13)
    || (c == 32)
    || (c == 0x85)
    || (c == 0xa0)
    || (c == 0x1680)
    || (leb 0x2000 c && leb c 0x200a)
    || (c == 0x2028)
    || (c == 0x2029)
    || (c == 0x202f)
    || (c == 0x205f)
    || (c == 0x3000)

-- `trim_start`, `trim_end`, `trim`.
unfoldable pub trim_start : Str → Str
unfolding is_whitespace
trim_start [] = []
trim_start (c ∷ s) = if is_whitespace c then trim_start s else c ∷ s

unfoldable pub trim_end : Str → Str
unfolding is_whitespace
trim_end [] = []
trim_end (c ∷ s) =
    let rest = trim_end s in if is_whitespace c && is_empty rest then [] else c ∷ rest

unfoldable pub trim : Str → Str
unfolding trim_start trim_end
trim s = trim_end (trim_start s)

unfoldable pub ascii_upper : ℕ → ℕ
ascii_upper c = if leb b'a' c && leb c b'z' then c - 32 else c

unfoldable pub ascii_lower : ℕ → ℕ
ascii_lower c = if leb b'A' c && leb c b'Z' then c + 32 else c

abbrev pub lowercase : Str → Str
lowercase [] = []
lowercase (c ∷ s) = ascii_lower c ∷ lowercase s

-- `strip_prefix`: what follows the prefix, if the text starts with it.
unfoldable pub strip_prefix : Str → Str → Option Str
strip_prefix [] s = some s
strip_prefix (c ∷ p) [] = none
strip_prefix (c ∷ p) (d ∷ s) = let rest = strip_prefix p s in if c == d then rest else none

-- `"#".repeat(n)`.
abbrev pub repeat : ℕ → ℕ → Str
repeat c zero = []
repeat c (suc n) = c ∷ repeat c n

-- A number in decimal, before a text: the fuel is at least the number.
unfoldable pub decimal_from : ℕ → ℕ → Str → Str
decimal_from zero n rest = (48 + n % 10) ∷ rest
decimal_from (suc fuel) n rest =
    let more = decimal_from fuel (n / 10) ((48 + n % 10) ∷ rest) in
    if n / 10 == 0 then (48 + n % 10) ∷ rest else more

unfoldable pub decimal : ℕ → Str
unfolding decimal_from
decimal n = decimal_from n n []
