-- ===== src/Present/Pairing.antt =====
-- crates/core/src/present/session.rs: the six-character code that pairs two devices. `i64` times are
-- exact integers, and the division through `f64` is exact below 2^53. Rust's `to_uppercase` is a
-- parameter: its table is Unicode's, and the code relies on what it does to ASCII text.
pub mod Codes
use aurum_presenter.Prelude.{
  ℕ, zero, suc, ◌+◌, ◌-◌, ◌*◌, ◌/◌, ◌%◌, ◌≤◌, ◌<◌, min, max, ◌≡◌, refl, sym, ap, ◌∙◌, subst, ◌≢◌,
  ◌↔◌, ◌⊎◌, inl, inr, Bool, true, false, ◌&&◌, ◌||◌, not, Option, none, some, List, [], ◌∷◌, ◌++◌,
  map, arith, ltb, leb, ◌==◌, if◌then◌else◌, ltb→lt, lt→ltb, ==_iff, Bool-cases, Option-cases,
  unwrap_or, all_below, all_below_sound, length, get_elem?, get_or, take, drop, get_last?, keep,
  find, any, all, position, All, length-append, take-append-drop, length-take, length-drop,
  All-append, All-map,
}
use aurum_presenter.Prelude.Text.{
  Str, codes, str_eq, str_ltb, is_empty, str_eq-true, str_eq_refl, str_eq_iff, str_ltb_irrefl,
  str_ltb_trans, str_ltb_total, is_whitespace, trim_start, trim_end, trim, ascii_upper, ascii_lower,
  lowercase, strip_prefix, repeat,
}
use aurum_presenter.Prelude.Int.{
  ℤ, pos, negsuc, pos_part, neg_part, sub_ℕ, ◌+ℤ◌, ◌-ℤ◌, ◌≤ℤ◌, ltb_ℤ, leb_ℤ, eqb_ℤ, rem12,
  div_euclid, rem_euclid, +ℤ_parts, -ℤ_parts, eq_of_parts, int_laws, rem12-lt, rem12-add, +ℤ_assoc,
}

abbrev pub alphabet : Str
alphabet = codes "ABCDEFGHJKLMNPQRSTUVWXYZ23456789"

-- `ALPHABET[usize::from(*byte) % ALPHABET.len()] as char`
unfoldable pub code_char : ℕ → ℕ
code_char byte = get_or alphabet (byte % 32) 0

-- Six bytes of the caller's randomness.
unfoldable pub pairing_code : List ℕ → Str
pairing_code bytes = map code_char bytes

abbrev pub code_ttl_ms : ℤ
code_ttl_ms = pos 1_800_000

unfoldable pub is_code_char : ℕ → Bool
is_code_char c = (leb b'A' c && leb c b'Z') || (leb b'2' c && leb c b'9')

unfoldable pub in_alphabet : ℕ → Bool
in_alphabet byte = any (λ c. c == byte) alphabet

pub record CodeLife : Type 0 where
  pub expired : Bool
  pub minutes_left : ℤ

-- `(x / 60_000.0).ceil()`: rounding up is rounding down on the other side of 0.
unfoldable pub ceil_minutes : ℤ → ℤ
unfolding div_euclid ◌+ℤ◌
ceil_minutes x = div_euclid (x +ℤ pos 59_999) 60_000

unfoldable pub code_life : ℤ → ℤ → CodeLife
unfolding ceil_minutes ◌-ℤ◌
code_life expires_ms at_ms =
    let minutes = ceil_minutes (expires_ms -ℤ at_ms) in
    record {
      expired = leb_ℤ expires_ms at_ms;
      minutes_left = if leb_ℤ minutes (pos 1) then pos 1 else minutes;
    }

module _ (to_uppercase : Str → Str) where
  unfoldable pub normalise_code : Str → Str
  unfolding trim is_code_char
  normalise_code input = keep is_code_char (to_uppercase (trim input))

  unfoldable pub is_valid_code : Str → Bool
  unfolding in_alphabet normalise_code
  is_valid_code input =
      let code = normalise_code input in (length code == 6) && all in_alphabet code
