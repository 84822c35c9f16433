-- ===== src/Chart/ChordPro.antt =====
-- crates/core/src/chart/chordpro.rs: the parser of the charts that are stored. The two searches for a
-- bracket in a line are one walk over its characters.
pub mod Segments
pub mod Body
pub mod Line
pub mod Kept
pub mod Warned
use aurum_presenter.Prelude.{
  ℕ, zero, suc, ◌+◌, ◌-◌, ◌*◌, ◌/◌, ◌%◌, ◌≤◌, ◌<◌, min, max, ◌≡◌, refl, sym, ap, ◌∙◌, subst, ◌≢◌,
  ◌↔◌, ◌⊎◌, inl, inr, Bool, true, false, ◌&&◌, ◌||◌, not, Option, none, some, List, [], ◌∷◌, ◌++◌,
  map, arith, ltb, leb, ◌==◌, if◌then◌else◌, ltb→lt, lt→ltb, ==_iff, Bool-cases, Option-cases,
  unwrap_or, all_below, all_below_sound, length, get_elem?, get_or, take, drop, get_last?, keep,
  find, any, all, position, All, length-append, take-append-drop, length-take, length-drop,
  All-append, All-map,
}
use aurum_presenter.Prelude.Text.{
  Str, codes, str_eq, str_ltb, is_empty, str_eq-true, str_eq_refl, str_eq_iff, str_ltb_irrefl,
  str_ltb_trans, str_ltb_total, is_whitespace, trim_start, trim_end, trim, ascii_upper, ascii_lower,
  lowercase, strip_prefix, repeat,
}
use aurum_presenter.Prelude.Int.{
  ℤ, pos, negsuc, pos_part, neg_part, sub_ℕ, ◌+ℤ◌, ◌-ℤ◌, ◌≤ℤ◌, ltb_ℤ, leb_ℤ, eqb_ℤ, rem12,
  div_euclid, rem_euclid, +ℤ_parts, -ℤ_parts, eq_of_parts, int_laws, rem12-lt, rem12-add, +ℤ_assoc,
}
use mathlib.Core.Option
use aurum_presenter.Chart.Notes.{◌>>=◌}
use aurum_presenter.Chart.Chord.{ChordToken, read}
use aurum_presenter.Present.Slides.{Segment, ChartLine}
use aurum_presenter.Present.Repeats.{
  SectionKind, verse, chorus, bridge, prechorus, tag, intro, outro, plain, Section,
}

pub record ChartWarning : Type 0 where
  pub line : ℕ
  pub token : Str

pub record ChartError : Type 0 where
  pub line : ℕ
  pub message : Str

pub record ChartMeta : Type 0 where
  pub title : Option Str
  pub subtitle : Option Str
  pub artist : Option Str
  pub key : Option Str
  pub tempo : Option Str
  pub time : Option Str
  pub capo : Option Str

pub record Chart : Type 0 where
  pub meta : ChartMeta
  pub sections : List Section
  pub warnings : List ChartWarning
  pub error : Option ChartError

abbrev among : Str → List Str → Bool
among name names = any (str_eq name) names

unfoldable pub section_kind : Str → Option SectionKind
unfolding str_eq
section_kind name =
    if among name (codes "verse" ∷ codes "sov" ∷ codes "start_of_verse" ∷ [])
    then some verse
    else if among name (codes "chorus" ∷ codes "soc" ∷ codes "start_of_chorus" ∷ [])
    then some chorus
    else if among name (codes "bridge" ∷ codes "sob" ∷ codes "start_of_bridge" ∷ [])
    then some bridge
    else if among name (codes "prechorus" ∷ codes "pre_chorus" ∷ [])
    then some prechorus
    else if str_eq name (codes "tag")
    then some tag
    else if str_eq name (codes "intro")
    then some intro
    else if among name (codes "outro" ∷ codes "ending" ∷ [])
    then some outro
    else none

abbrev pub section_ends : List Str
section_ends =
    codes "eov"
    ∷ codes "eoc"
    ∷ codes "eob"
    ∷ codes "end_of_verse"
    ∷ codes "end_of_chorus"
    ∷ codes "end_of_bridge"
    ∷ []

-- The field that a `&mut meta.…` points at.
pub data MetaField : Type 0 where
  title subtitle artist key tempo time capo : MetaField

unfoldable pub meta_field : Str → Option MetaField
unfolding str_eq
meta_field name =
    if among name (codes "title" ∷ codes "t" ∷ [])
    then some title
    else if among name (codes "subtitle" ∷ codes "st" ∷ [])
    then some subtitle
    else if among name (codes "artist" ∷ codes "composer" ∷ [])
    then some artist
    else if str_eq name (codes "key")
    then some key
    else if among name (codes "tempo" ∷ codes "bpm" ∷ [])
    then some tempo
    else if str_eq name (codes "time")
    then some time
    else if str_eq name (codes "capo")
    then some capo
    else none

-- `*field = value`
abbrev pub write_field : MetaField → Option Str → ChartMeta → ChartMeta
write_field title value meta = record meta { title = value }
write_field subtitle value meta = record meta { subtitle = value }
write_field artist value meta = record meta { artist = value }
write_field key value meta = record meta { key = value }
write_field tempo value meta = record meta { tempo = value }
write_field time value meta = record meta { time = value }
write_field capo value meta = record meta { capo = value }

abbrev is_plain : SectionKind → Bool
is_plain plain = true
is_plain _ = false

abbrev is_nil : {A : Type 0} → List A → Bool
is_nil [] = true
is_nil (x ∷ xs) = false

unfoldable pub flush : List Section → Section → List Section
flush sections current =
    if not (is_nil current.lines) || not (is_plain current.kind)
    then sections ++ current ∷ []
    else sections

-- `strip_suffix('}')`
unfoldable pub strip_brace : Str → Option Str
strip_brace [] = none
strip_brace (c ∷ []) = if c == b'}' then some [] else none
strip_brace (c ∷ d ∷ s) = Option.map (λ r. c ∷ r) (strip_brace (d ∷ s))

unfoldable pub directive_body : Str → Option Str
unfolding strip_brace trim strip_prefix
directive_body text = strip_prefix (codes "{") (trim text) >>= λ rest. strip_brace rest

abbrev onto_first : ℕ → List Str → List Str
onto_first c [] = (c ∷ []) ∷ []
onto_first c (part ∷ parts) = (c ∷ part) ∷ parts

-- `split` at each character that the test accepts.
unfoldable pub split_where : (ℕ → Bool) → Str → List Str
split_where p [] = [] ∷ []
split_where p (c ∷ s) = let rest = split_where p s in if p c then [] ∷ rest else onto_first c rest

-- `join("_")`
unfoldable pub join_names : List Str → Str
join_names [] = []
join_names (part ∷ []) = part
join_names (part ∷ next ∷ parts) = part ++ b'_' ∷ join_names (next ∷ parts)

-- `to_lowercase` of a name that is then compared with ASCII names: of the code points beyond ASCII only
-- the Kelvin sign becomes an ASCII letter.
abbrev pub name_lowercase : Str → Str
name_lowercase [] = []
name_lowercase (c ∷ s) = (if c == 0x212a then b'k' else ascii_lower c) ∷ name_lowercase s

-- What stands before and after the first colon.
unfoldable pub split_colon : Str → Str × Option Str
split_colon [] = ([], none)
split_colon (c ∷ s) =
    let (name, value) = split_colon s in if c == b':' then ([], some s) else (c ∷ name, value)

abbrev filled : Option Str → Option Str
filled none = none
filled (some text) = if is_empty text then none else some text

unfoldable pub split_directive : Str → Str × Option Str
unfolding split_where split_colon trim is_whitespace ascii_lower join_names
split_directive inner =
    let (name, value) = split_colon inner in
    (
      join_names (
          keep (λ part. not (is_empty part))
            (split_where (λ c. is_whitespace c || (c == b'-')) (name_lowercase (trim name)))),
      filled (Option.map trim value),
    )

abbrev pub count_of : ℕ → Str → ℕ
count_of c [] = 0
count_of c (d ∷ s) = if d == c then suc (count_of c s) else count_of c s

unfoldable pub unbalanced : Str → Bool
unbalanced text = not (count_of b'[' text == count_of b']' text)

abbrev is_some : {A : Type 0} → Option A → Bool
is_some none = false
is_some (some a) = true
