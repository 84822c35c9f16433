-- ===== src/Present/Pairing/Codes.antt =====
-- Codes as they are issued and typed, and how long they live.
use aurum_presenter.Prelude.{
  ℕ, suc, ◌+◌, ◌-◌, ◌*◌, ◌/◌, ◌%◌, ◌≤◌, ◌<◌, max, ◌≡◌, refl, ap, ◌∙◌, ◌↔◌, Bool, true, false, ◌&&◌,
  not, List, [], ◌∷◌, map, arith, max, ltb, ◌==◌, if◌then◌else◌, all_below, all_below_sound, length,
  get_or, keep, all, All, All-map,
}
use aurum_presenter.Prelude.Text.{Str, is_whitespace, trim_start, trim_end, trim, ascii_upper}
use aurum_presenter.Prelude.Int.{ℤ, pos, ◌+ℤ◌, ◌-ℤ◌, leb_ℤ, +ℤ_parts, int_laws}
use aurum_presenter.Present.Pairing.{
  alphabet, code_char, pairing_code, is_code_char, in_alphabet, ceil_minutes, code_life,
  normalise_code, is_valid_code,
}

-- What the code relies on: upper-casing changes an ASCII text letter by letter.
abbrev pub UpperAscii : (Str → Str) → Type 0
UpperAscii to_uppercase = (s : Str) → All (λ c. c < 128) s → to_uppercase s ≡ map ascii_upper s

issued : ℕ → Bool
unfolding code_char is_code_char in_alphabet ascii_upper is_whitespace
issued byte =
    let c = code_char byte in
    is_code_char c && in_alphabet c && (ascii_upper c == c) && not (is_whitespace c) && ltb c 128

issued_table : all_below 32 issued ≡ true
unfolding all_below issued
issued_table = refl

code_char-mod : (byte : ℕ) → code_char byte ≡ code_char (byte % 32)
unfolding code_char
code_char-mod byte =
    let e : byte % 32 ≡ byte % 32 % 32 = omega arith in ap (λ i. get_or alphabet i 0) e

five :
    (a b : Bool) (c d : ℕ) (e : Bool) (f : ℕ)
    → (a && b && (c == d) && not e && ltb f 128) ≡ true
    → (a ≡ true) × (b ≡ true) × (c ≡ d) × (e ≡ false) × (f < 128)
five a b c d e f h = ground arith

issued_lem :
    (byte : ℕ)
    → let c = code_char byte in
      (is_code_char c ≡ true)
      × (in_alphabet c ≡ true)
      × (ascii_upper c ≡ c)
      × (is_whitespace c ≡ false)
      × (c < 128)
issued_lem byte = rw (code_char-mod byte) (
    five _ _ _ _ _ _
      (unfold issued in all_below_sound 32 issued (byte % 32) issued_table (omega arith)))

-- The characters that an issued code can have.
abbrev Plain : ℕ → Type 0
Plain c =
    (is_code_char c ≡ true)
    × (in_alphabet c ≡ true)
    × (ascii_upper c ≡ c)
    × (is_whitespace c ≡ false)
    × (c < 128)

pairing_code-Plain : (bytes : List ℕ) → All Plain (pairing_code bytes)
unfolding pairing_code
pairing_code-Plain [] = tt
pairing_code-Plain (b ∷ bytes) = (issued_lem b, pairing_code-Plain bytes)

trim_start-Plain : (s : Str) → All Plain s → trim_start s ≡ s
trim_start-Plain [] h = unfold trim_start in refl
trim_start-Plain (c ∷ s) h = unfold trim_start in rw h.0.3

trim_end-cons : (c : ℕ) (s : Str) → is_whitespace c ≡ false → trim_end (c ∷ s) ≡ c ∷ trim_end s
trim_end-cons c s h = unfold trim_end in rw h

trim_end-Plain : (s : Str) → All Plain s → trim_end s ≡ s
trim_end-Plain [] h = unfold trim_end in refl
trim_end-Plain (c ∷ s) h = trim_end-cons c s h.0.3 ∙ ap (λ t. c ∷ t) (trim_end-Plain s h.1)

map-Plain : (s : Str) → All Plain s → map ascii_upper s ≡ s
map-Plain [] h = refl
map-Plain (c ∷ s) h = cc (h.0.2, map-Plain s h.1)

keep-Plain : (s : Str) → All Plain s → keep is_code_char s ≡ s
keep-Plain [] h = refl
keep-Plain (c ∷ s) h = rw (h.0.0, keep-Plain s h.1)

all-Plain : (s : Str) → All Plain s → all in_alphabet s ≡ true
all-Plain [] h = refl
all-Plain (c ∷ s) h = rw (h.0.1, all-Plain s h.1)

-- `normalise_code` hands back a text that it would leave as it is.
normalise-Plain :
    (up : Str → Str) → UpperAscii up → (s : Str) → All Plain s → normalise_code up s ≡ s
unfolding normalise_code trim
normalise-Plain up ua s h =
    rw
      (
        trim_start-Plain s h,
        trim_end-Plain s h,
        ua s (All-map Plain (λ c. c < 128) (λ c p. p.4) s h),
        map-Plain s h,
      )
      (keep-Plain s h)

length-pairing_code : (bytes : List ℕ) → length (pairing_code bytes) ≡ length bytes
unfolding pairing_code
length-pairing_code [] = refl
length-pairing_code (b ∷ bytes) = ap suc (length-pairing_code bytes)

accepted :
    (up : Str → Str) (bytes : List ℕ)
    → length bytes ≡ 6
    → normalise_code up (pairing_code bytes) ≡ pairing_code bytes
    → all in_alphabet (pairing_code bytes) ≡ true
    → is_valid_code up (pairing_code bytes) ≡ true
unfolding is_valid_code normalise_code
accepted up bytes six same every =
    test (pairing_code bytes) (normalise_code up (pairing_code bytes)) same
      (length-pairing_code bytes ∙ six) every
  where
    test :
        (s t : Str)
        → t ≡ s
        → length s ≡ 6
        → all in_alphabet s ≡ true
        → ((length t == 6) && all in_alphabet t) ≡ true
    test s t e l a = rw (e, l, a)

-- Every code that is issued, from any six bytes, is accepted as it was issued.
pub is_valid_code-pairing_code :
    (up : Str → Str) (bytes : List ℕ)
    → UpperAscii up
    → length bytes ≡ 6
    → (normalise_code up (pairing_code bytes) ≡ pairing_code bytes)
      × (is_valid_code up (pairing_code bytes) ≡ true)
is_valid_code-pairing_code up bytes ua six =
    let plain = pairing_code-Plain bytes in
    let same = normalise-Plain up ua (pairing_code bytes) plain in
    (same, accepted up bytes six same (all-Plain (pairing_code bytes) plain))

left_lem : (at : ℤ) (left : ℕ) → at +ℤ pos left -ℤ at ≡ pos left
left_lem at left = omega int_laws

expired_lem : (e a : ℤ) → (code_life e a).expired ≡ leb_ℤ e a
unfolding code_life
expired_lem e a = refl

minutes_lem :
    (e a : ℤ)
    → (code_life e a).minutes_left
      ≡ (let m = ceil_minutes (e -ℤ a) in if leb_ℤ m (pos 1) then pos 1 else m)
unfolding code_life
minutes_lem e a = refl

ceil_lem :
    (left : ℕ)
    → (let m = ceil_minutes (pos left) in if leb_ℤ m (pos 1) then pos 1 else m)
      ≡ pos (max 1 ((left + 59_999) / 60_000))
unfolding ceil_minutes
ceil_lem left = ground arith

not_later : (at : ℤ) (left : ℕ) → (leb_ℤ (at +ℤ pos left) at ≡ true) ↔ (left ≡ 0)
not_later at left = ground (arith, +ℤ_parts at (pos left))

-- With `left` milliseconds to go, a code is expired only at 0, and the minutes shown are the least
-- whole number of minutes, at least one, that covers what is left.
pub code_life_lem :
    (at : ℤ) (left : ℕ)
    → let life = code_life (at +ℤ pos left) at in
      ((life.expired ≡ true) ↔ (left ≡ 0))
      × ((m : ℕ) × (life.minutes_left ≡ pos m)
          × (1 ≤ m)
          × (left ≤ 60_000 * m)
          × (60_000 * (m - 1) ≤ left))
code_life_lem at left = (
  rw expired_lem (not_later at left),
  (
    max 1 ((left + 59_999) / 60_000),
    minutes_lem (at +ℤ pos left) at ∙ rw (left_lem at left) (ceil_lem left),
    omega arith,
    omega arith,
    omega arith,
  ),
)
