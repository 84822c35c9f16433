-- ===== src/Ids.antt =====
-- crates/core/src/ids.rs: the shape of an id, the instant and the randomness it is made of, and the instant read back.
pub mod Minted
use aurum_presenter.Prelude.{
  ◌*◌, ◌-◌, not, Option, none, some, ℕ, ◌+◌, ◌/◌, ◌%◌, Bool, true, false, ◌&&◌, ◌||◌, List, [], ◌∷◌,
  ◌++◌, leb, ◌==◌, if◌then◌else◌, length, get_or, take, drop, all, ◌^◌,
}
use aurum_presenter.Prelude.Text.{Str, codes}

abbrev pub is_lower_hex : ℕ → Bool
is_lower_hex c = (leb b'0' c && leb c b'9') || (leb b'a' c && leb c b'f')

-- `split(mark)`, with what stands before the text in its part.
unfoldable pub split_from : ℕ → Str → Str → List Str
split_from mark before [] = before ∷ []
split_from mark before (c ∷ s) =
    let later = split_from mark (if c == mark then [] else before ++ c ∷ []) s in
    if c == mark then before ∷ later else later

unfoldable pub has_groups : List ℕ → List Str → Bool
has_groups [] [] = true
has_groups [] (part ∷ parts) = false
has_groups (size ∷ sizes) [] = false
has_groups (size ∷ sizes) (part ∷ parts) =
    ((length part == size) && all is_lower_hex part) && has_groups sizes parts

abbrev pub groups : List ℕ
groups = 8 ∷ 4 ∷ 4 ∷ 4 ∷ 12 ∷ []

-- A part of lower-case hexadecimal digits has as many bytes as characters.
unfoldable pub is_uuid : Str → Bool
unfolding split_from has_groups
is_uuid id = has_groups groups (split_from b'-' [] id)

abbrev pub hex_digits : Str
hex_digits = codes "0123456789abcdef"

-- `{byte:02x}` of every byte.
unfoldable pub hex : List ℕ → Str
hex [] = []
hex (byte ∷ bytes) = get_or hex_digits (byte / 16) 0 ∷ get_or hex_digits (byte % 16) 0 ∷ hex bytes

-- Six bytes of the instant, which is cut to its low 48 bits, the most significant first.
abbrev pub instant_bytes : ℕ → List ℕ
instant_bytes ms =
    ms / 2 ^ 40 % 256
    ∷ ms / 2 ^ 32 % 256
    ∷ ms / 2 ^ 24 % 256
    ∷ ms / 2 ^ 16 % 256
    ∷ ms / 2 ^ 8 % 256
    ∷ ms % 256
    ∷ []

-- The version in the first of the random bytes, and the variant in the third: `(b & 0x0f) | 0x70`
-- keeps the low four bits, and `(b & 0x3f) | 0x80` the low six.
abbrev pub stamped : List ℕ → List ℕ
stamped (v ∷ a ∷ w ∷ rest) = (112 + v % 16) ∷ a ∷ (128 + w % 64) ∷ rest
stamped bytes = bytes

unfoldable pub uuidv7 : ℕ → List ℕ → Str
unfolding hex
uuidv7 epoch_ms random =
    let text = hex (instant_bytes epoch_ms ++ stamped random) in
    take 8 text
    ++ (b'-'
        ∷ (take 4 (drop 8 text)
            ++ (b'-'
                ∷ (take 4 (drop 12 text)
                    ++ (b'-' ∷ (take 4 (drop 16 text) ++ (b'-' ∷ drop 20 text)))))))

-- `i64::from_str_radix(…, 16)` of lower-case digits, after `n`.
abbrev pub hex_value : ℕ → ℕ
hex_value c = if leb c b'9' then c - b'0' else c - b'a' + 10

unfoldable pub from_hex : ℕ → Str → ℕ
from_hex n [] = n
from_hex n (c ∷ s) = from_hex (16 * n + hex_value c) s

unfoldable pub minted_at : Str → Option ℕ
unfolding is_uuid from_hex
minted_at id =
    if not (is_uuid id) || not (get_or id 14 0 == b'7')
    then none
    else some (from_hex 0 (take 8 id ++ take 4 (drop 9 id)))
