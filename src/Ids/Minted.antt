-- ===== src/Ids/Minted.antt =====
-- The instant of an id of crates/core/src/ids.rs is read back from it.
use aurum_presenter.Prelude.{
  ℕ, ◌^◌, zero, suc, ◌+◌, ◌*◌, ◌/◌, ◌%◌, ◌<◌, ◌≡◌, refl, sym, ap, ◌∙◌, Bool, true, false, ◌&&◌,
  some, List, [], ◌∷◌, ◌++◌, arith, ◌==◌, all_below, all_below_sound, length, get_or, take, drop,
  all, All, length-take, length-drop,
}
use aurum_presenter.Prelude.Text.{Str}
use mathlib.Core.List.{append_assoc}
use aurum_presenter.Ids.{
  is_lower_hex, split_from, has_groups, is_uuid, hex, hex_digits, instant_bytes, stamped, uuidv7,
  hex_value, from_hex, minted_at,
}

append_nil : (s : Str) → s ++ [] ≡ s
append_nil [] = refl
append_nil (c ∷ s) = ap (λ r. c ∷ r) (append_nil s)

split_part :
    (p rest before : Str)
    → all is_lower_hex p ≡ true
    → split_from b'-' before (p ++ b'-' ∷ rest) ≡ (before ++ p) ∷ split_from b'-' [] rest
unfolding split_from
split_part [] rest before h = ap (λ b. b ∷ split_from b'-' [] rest) (sym (append_nil before))
split_part (c ∷ p) rest before h =
    let apart : (c == b'-') ≡ false = ground arith in
    rw (apart, split_part p rest (before ++ c ∷ []) (ground arith))
      (ap (λ b. b ∷ split_from b'-' [] rest) (append_assoc before (c ∷ []) p))

split_last :
    (p before : Str) → all is_lower_hex p ≡ true → split_from b'-' before p ≡ (before ++ p) ∷ []
unfolding split_from
split_last [] before h = ap (λ b. b ∷ []) (sym (append_nil before))
split_last (c ∷ p) before h =
    let apart : (c == b'-') ≡ false = ground arith in
    rw (apart, split_last p (before ++ c ∷ []) (ground arith))
      (ap (λ b. b ∷ []) (append_assoc before (c ∷ []) p))

is_uuid_parts :
    (p1 p2 p3 p4 p5 : Str)
    → all is_lower_hex p1 ≡ true
    → all is_lower_hex p2 ≡ true
    → all is_lower_hex p3 ≡ true
    → all is_lower_hex p4 ≡ true
    → all is_lower_hex p5 ≡ true
    → length p1 ≡ 8
    → length p2 ≡ 4
    → length p3 ≡ 4
    → length p4 ≡ 4
    → length p5 ≡ 12
    → is_uuid (p1 ++ b'-' ∷ (p2 ++ b'-' ∷ (p3 ++ b'-' ∷ (p4 ++ b'-' ∷ p5)))) ≡ true
unfolding is_uuid has_groups
is_uuid_parts p1 p2 p3 p4 p5 h1 h2 h3 h4 h5 l1 l2 l3 l4 l5 =
    rw
      (
        split_part p1 (p2 ++ b'-' ∷ (p3 ++ b'-' ∷ (p4 ++ b'-' ∷ p5))) [] h1,
        split_part p2 (p3 ++ b'-' ∷ (p4 ++ b'-' ∷ p5)) [] h2,
        split_part p3 (p4 ++ b'-' ∷ p5) [] h3,
        split_part p4 p5 [] h4,
        split_last p5 [] h5,
        h1,
        h2,
        h3,
        h4,
        h5,
        l1,
        l2,
        l3,
        l4,
        l5,
      )
      refl

digit_table :
    all_below 16
      (λ n. is_lower_hex (get_or hex_digits n 0) && (hex_value (get_or hex_digits n 0) == n))
    ≡ true
unfolding all_below
digit_table = refl

and_parts : (a : Bool) (m n : ℕ) → a && (m == n) ≡ true → (a ≡ true) × (m ≡ n)
and_parts true m n e = (refl, ground arith)
and_parts false m n e = cc

digit_lem :
    (n : ℕ)
    → n < 16
    → (is_lower_hex (get_or hex_digits n 0) ≡ true) × (hex_value (get_or hex_digits n 0) ≡ n)
digit_lem n h =
    and_parts (is_lower_hex (get_or hex_digits n 0)) (hex_value (get_or hex_digits n 0)) n (
      all_below_sound 16
        (λ m. is_lower_hex (get_or hex_digits m 0) && (hex_value (get_or hex_digits m 0) == m)) n
        digit_table h)

abbrev Bytes : List ℕ → Type 0
Bytes bytes = All (λ b. b < 256) bytes

hex_lower : (bytes : List ℕ) → Bytes bytes → all is_lower_hex (hex bytes) ≡ true
unfolding hex
hex_lower [] h = refl
hex_lower (b ∷ bytes) (l, h) =
    rw ((digit_lem (b / 16) (omega arith)).0, (digit_lem (b % 16) (omega arith)).0)
      (hex_lower bytes h)

abbrev from_bytes : ℕ → List ℕ → ℕ
from_bytes n [] = n
from_bytes n (b ∷ bytes) = from_bytes (256 * n + b) bytes

from_hex_step :
    (n c v : ℕ) (s : Str) → hex_value c ≡ v → from_hex n (c ∷ s) ≡ from_hex (16 * n + v) s
unfolding from_hex
from_hex_step n c v s e = ap (λ w. from_hex (16 * n + w) s) e

from_hex-hex : (n : ℕ) (bytes : List ℕ) → Bytes bytes → from_hex n (hex bytes) ≡ from_bytes n bytes
unfolding hex
from_hex-hex n [] h = unfold from_hex in refl
from_hex-hex n (b ∷ bytes) (l, h) =
    let value : 16 * (16 * n + b / 16) + b % 16 ≡ 256 * n + b = omega arith in
    from_hex_step n _ (b / 16) _ (digit_lem (b / 16) (omega arith)).1
    ∙ from_hex_step (16 * n + b / 16) _ (b % 16) (hex bytes) (digit_lem (b % 16) (omega arith)).1
    ∙ ap (λ m. from_hex m (hex bytes)) value
    ∙ from_hex-hex (256 * n + b) bytes h

instant_lem : (ms : ℕ) → ms < 2 ^ 48 → from_bytes 0 (instant_bytes ms) ≡ ms
instant_lem ms h = omega arith

all-take : (p : ℕ → Bool) (n : ℕ) (s : Str) → all p s ≡ true → all p (take n s) ≡ true
all-take p zero s h = refl
all-take p (suc n) [] h = refl
all-take p (suc n) (c ∷ s) h = let rest = all-take p n s (ground arith) in ground arith

all-drop : (p : ℕ → Bool) (n : ℕ) (s : Str) → all p s ≡ true → all p (drop n s) ≡ true
all-drop p zero s h = h
all-drop p (suc n) [] h = refl
all-drop p (suc n) (c ∷ s) h = all-drop p n s (ground arith)

-- The id that sixteen bytes write.
abbrev written : Str → Str
written text =
    take 8 text
    ++ (b'-'
        ∷ (take 4 (drop 8 text)
            ++ (b'-'
                ∷ (take 4 (drop 12 text)
                    ++ (b'-' ∷ (take 4 (drop 16 text) ++ (b'-' ∷ drop 20 text)))))))

written-is_uuid :
    (text : Str) → all is_lower_hex text ≡ true → length text ≡ 32 → is_uuid (written text) ≡ true
written-is_uuid text h l =
    is_uuid_parts (take 8 text) (take 4 (drop 8 text)) (take 4 (drop 12 text))
      (take 4 (drop 16 text)) (drop 20 text) (all-take is_lower_hex 8 text h)
      (all-take is_lower_hex 4 (drop 8 text) (all-drop is_lower_hex 8 text h))
      (all-take is_lower_hex 4 (drop 12 text) (all-drop is_lower_hex 12 text h))
      (all-take is_lower_hex 4 (drop 16 text) (all-drop is_lower_hex 16 text h))
      (all-drop is_lower_hex 20 text h) (length-take 8 text (omega (arith, l)))
      (length-take 4 (drop 8 text) (rw (length-drop 8 text, l) (omega arith)))
      (length-take 4 (drop 12 text) (rw (length-drop 12 text, l) (omega arith)))
      (length-take 4 (drop 16 text) (rw (length-drop 16 text, l) (omega arith)))
      (rw (length-drop 20 text, l) (omega arith))

minted_lem :
    (id : Str)
    → is_uuid id ≡ true
    → (get_or id 14 0 == b'7') ≡ true
    → minted_at id ≡ some (from_hex 0 (take 8 id ++ take 4 (drop 9 id)))
minted_lem id u v = unfold minted_at in rw (u, v)

-- An id is well-formed, and the instant that it was made at is read back from it, if that is of 48 bits.
pub minted_at-uuidv7 :
    (ms a b c d e f g h i j : ℕ)
    → ms < 2 ^ 48
    → Bytes (a ∷ b ∷ c ∷ d ∷ e ∷ f ∷ g ∷ h ∷ i ∷ j ∷ [])
    → let id = uuidv7 ms (a ∷ b ∷ c ∷ d ∷ e ∷ f ∷ g ∷ h ∷ i ∷ j ∷ []) in
      (is_uuid id ≡ true) × (minted_at id ≡ some ms)
unfolding uuidv7
minted_at-uuidv7 ms a b c d e f g h i j l (ra, (rb, (rc, rest))) =
    let bytes = instant_bytes ms ++ stamped (a ∷ b ∷ c ∷ d ∷ e ∷ f ∷ g ∷ h ∷ i ∷ j ∷ []) in
    let within : Bytes bytes = (
      omega arith,
      (
        omega arith,
        (
          omega arith,
          (omega arith, (omega arith, (omega arith, (omega arith, (rb, (omega arith, rest)))))),
        ),
      ),
    ) in
    let whole = written-is_uuid (hex bytes) (hex_lower bytes within) refl in
    let seven : (112 + a % 16) / 16 ≡ 7 = omega arith in
    let version : (get_or hex_digits ((112 + a % 16) / 16) 0 == b'7') ≡ true = rw seven in
    let front : Bytes (instant_bytes ms) = (
      omega arith,
      (omega arith, (omega arith, (omega arith, (omega arith, (omega arith, tt))))),
    ) in
    (
      whole,
      minted_lem (uuidv7 ms (a ∷ b ∷ c ∷ d ∷ e ∷ f ∷ g ∷ h ∷ i ∷ j ∷ [])) whole version
          ∙ ap (λ n. some n) (from_hex-hex 0 (instant_bytes ms) front ∙ instant_lem ms l),
    )
