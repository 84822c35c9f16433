-- ===== src/Chart/EffectiveKey.antt =====
-- crates/core/src/chart/effective_key.rs: which of four places supplies the key of a chart.
pub mod Levels
use aurum_presenter.Prelude.{
  ℕ, zero, suc, ◌+◌, ◌-◌, ◌*◌, ◌/◌, ◌%◌, ◌≤◌, ◌<◌, min, max, ◌≡◌, refl, sym, ap, ◌∙◌, subst, ◌≢◌,
  ◌↔◌, ◌⊎◌, inl, inr, Bool, true, false, ◌&&◌, ◌||◌, not, Option, none, some, List, [], ◌∷◌, ◌++◌,
  map, arith, ltb, leb, ◌==◌, if◌then◌else◌, ltb→lt, lt→ltb, ==_iff, Bool-cases, Option-cases,
  unwrap_or, all_below, all_below_sound, length, get_elem?, get_or, take, drop, get_last?, keep,
  find, any, all, position, All, length-append, take-append-drop, length-take, length-drop,
  All-append, All-map,
}
use aurum_presenter.Prelude.Text.{
  Str, codes, str_eq, str_ltb, is_empty, str_eq-true, str_eq_refl, str_eq_iff, str_ltb_irrefl,
  str_ltb_trans, str_ltb_total, is_whitespace, trim_start, trim_end, trim, ascii_upper, ascii_lower,
  lowercase, strip_prefix, repeat,
}
use aurum_presenter.Prelude.Int.{
  ℤ, pos, negsuc, pos_part, neg_part, sub_ℕ, ◌+ℤ◌, ◌-ℤ◌, ◌≤ℤ◌, ltb_ℤ, leb_ℤ, eqb_ℤ, rem12,
  div_euclid, rem_euclid, +ℤ_parts, -ℤ_parts, eq_of_parts, int_laws, rem12-lt, rem12-add, +ℤ_assoc,
}
use aurum_presenter.Chart.Notes.{Key, key_parse}

pub data KeySource : Type 0 where
  set preference arrangement song nowhere : KeySource

pub record KeyInputs : Type 0 where
  pub set_override : Option Str
  pub preferred : Option Str
  pub arrangement_default : Option Str
  pub song_original : Option Str

pub record EffectiveKey : Type 0 where
  pub key : Option Key
  pub source : KeySource

-- `value.filter(|text| !text.is_empty()).and_then(Key::parse)`
unfoldable pub key_at : Option Str → Option Key
key_at none = none
key_at (some text) = if is_empty text then none else key_parse text

-- `for (source, value) in levels`
unfoldable pub first_level : List (KeySource × Option Str) → EffectiveKey
first_level [] = record { key = none; source = nowhere }
first_level ((source, value) ∷ levels) = elim (key_at value) [
  | none ↦ first_level levels
  | some key ↦ record { key = some key; source = source }
]

unfoldable pub effective : KeyInputs → EffectiveKey
unfolding first_level
effective i = first_level (
    (set, i.set_override)
    ∷ (preference, i.preferred)
    ∷ (arrangement, i.arrangement_default)
    ∷ (song, i.song_original)
    ∷ [])

unfoldable pub source_key : KeyInputs → Option Key
unfolding effective
source_key i =
    (effective (record {
      set_override = none;
      preferred = none;
      arrangement_default = i.arrangement_default;
      song_original = i.song_original;
    })).key
