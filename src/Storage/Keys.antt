-- ===== src/Storage/Keys.antt =====
-- crates/core/src/storage/keys.rs: content-addressed object keys, and which stored files go. Rust's
-- `to_lowercase` is a parameter: its table is Unicode's.
pub mod Paths
pub mod Orphans
use aurum_presenter.Prelude.{
  ℕ, zero, suc, ◌+◌, ◌-◌, ◌*◌, ◌/◌, ◌%◌, ◌≤◌, ◌<◌, min, max, ◌≡◌, refl, sym, ap, ◌∙◌, subst, ◌≢◌,
  ◌↔◌, ◌⊎◌, inl, inr, Bool, true, false, ◌&&◌, ◌||◌, not, Option, none, some, List, [], ◌∷◌, ◌++◌,
  map, arith, ltb, leb, ◌==◌, if◌then◌else◌, ltb→lt, lt→ltb, ==_iff, Bool-cases, Option-cases,
  unwrap_or, all_below, all_below_sound, length, get_elem?, get_or, take, drop, get_last?, keep,
  find, any, all, position, All, length-append, take-append-drop, length-take, length-drop,
  All-append, All-map,
}
use aurum_presenter.Prelude.Text.{
  Str, codes, str_eq, str_ltb, is_empty, str_eq-true, str_eq_refl, str_eq_iff, str_ltb_irrefl,
  str_ltb_trans, str_ltb_total, is_whitespace, trim_start, trim_end, trim, ascii_upper, ascii_lower,
  lowercase, strip_prefix, repeat,
}
use aurum_presenter.Prelude.Int.{
  ℤ, pos, negsuc, pos_part, neg_part, sub_ℕ, ◌+ℤ◌, ◌-ℤ◌, ◌≤ℤ◌, ltb_ℤ, leb_ℤ, eqb_ℤ, rem12,
  div_euclid, rem_euclid, +ℤ_parts, -ℤ_parts, eq_of_parts, int_laws, rem12-lt, rem12-add, +ℤ_assoc,
}

abbrev pub is_hex_digit : ℕ → Bool
is_hex_digit c =
    (leb b'0' c && leb c b'9') || ((leb b'a' c && leb c b'f') || (leb b'A' c && leb c b'F'))

-- A text of hexadecimal digits has as many bytes as characters, so its characters are counted.
unfoldable pub is_valid_sha256 : Str → Bool
is_valid_sha256 value = (length value == 64) && all is_hex_digit value

abbrev pub asset_types : List (Str × Str)
asset_types =
    (codes "image/png", codes "png")
    ∷ (codes "image/jpeg", codes "jpg")
    ∷ (codes "image/webp", codes "webp")
    ∷ (codes "image/avif", codes "avif")
    ∷ []

-- What follows the last `mark`, if there is one.
unfoldable pub after_last : ℕ → Str → Option Str
after_last mark [] = none
after_last mark (c ∷ s) =
    let rest = after_last mark s in
    elim rest [ some t ↦ some t | none ↦ if c == mark then some s else none ]

-- What stands before the last `mark`, if there is one.
unfoldable pub before_last : ℕ → Str → Option Str
before_last mark [] = none
before_last mark (c ∷ s) =
    let rest = before_last mark s in
    elim rest [ some t ↦ some (c ∷ t) | none ↦ if c == mark then some [] else none ]

pub record StoredObject : Type 0 where
  pub key : Str
  pub modified_ms : ℤ

unfoldable pub sheet_prefix : Str → Str
sheet_prefix workspace_id = codes "sheets/" ++ workspace_id ++ codes "/"

unfoldable pub asset_prefix : Str → Str
asset_prefix workspace_id = codes "assets/" ++ workspace_id ++ codes "/"

module _ (to_lowercase : Str → Str) where
  unfoldable pub sheet_key : Str → Str → Str
  sheet_key workspace_id sha256 =
      codes "sheets/" ++ (workspace_id ++ (codes "/" ++ (to_lowercase sha256 ++ codes ".pdf")))

  abbrev pub extension_in : Str → List (Str × Str) → Option Str
  extension_in content_type [] = none
  extension_in content_type ((mime, extension) ∷ more) =
      let rest = extension_in content_type more in
      if str_eq mime content_type then some extension else rest

  -- `none` for `UnsupportedType`.
  unfoldable pub extension_for : Str → Option Str
  unfolding str_eq
  extension_for content_type = extension_in (to_lowercase content_type) asset_types

  unfoldable pub asset_key : Str → Str → Str → Option Str
  asset_key workspace_id sha256 content_type = elim (extension_for content_type) [
    | none ↦ none
    | some extension ↦ some (
        codes "assets/"
        ++ (workspace_id ++ (codes "/" ++ (to_lowercase sha256 ++ (codes "." ++ extension)))))
  ]

  -- `rsplit('/').next().unwrap_or(key)`, and then the name without its extension.
  unfoldable pub hash_of : Str → Str
  hash_of key =
      let name = unwrap_or (after_last b'/' key) key in
      to_lowercase (unwrap_or (before_last b'.' name) name)

  abbrev pub lower_all : List Str → List Str
  lower_all [] = []
  lower_all (hash ∷ more) = to_lowercase hash ∷ lower_all more

  abbrev pub is_orphan : List Str → ℤ → StoredObject → Bool
  is_orphan referenced written_before_ms object =
      not (any (λ hash. str_eq hash (hash_of object.key)) (lower_all referenced))
      && ltb_ℤ object.modified_ms written_before_ms

  unfoldable pub orphans : List StoredObject → List Str → ℤ → List Str
  orphans objects referenced written_before_ms =
      map (λ (o : StoredObject). o.key) (keep (is_orphan referenced written_before_ms) objects)
