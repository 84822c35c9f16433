-- ===== src/Present/Snapshot.antt =====
-- crates/core/src/present/slides.rs: what a session freezes of a set, and its slides. How many lines
-- fit on a slide, which the program computes in floating point, is an argument.
pub mod Lines
use aurum_presenter.Prelude.{
  ℕ, zero, suc, ◌+◌, ◌-◌, ◌*◌, ◌/◌, ◌%◌, ◌≤◌, ◌<◌, min, max, ◌≡◌, refl, sym, ap, ◌∙◌, subst, ◌≢◌,
  ◌↔◌, ◌⊎◌, inl, inr, Bool, true, false, ◌&&◌, ◌||◌, not, Option, none, some, List, [], ◌∷◌, ◌++◌,
  map, arith, ltb, leb, ◌==◌, if◌then◌else◌, ltb→lt, lt→ltb, ==_iff, Bool-cases, Option-cases,
  unwrap_or, all_below, all_below_sound, length, get_elem?, get_or, take, drop, get_last?, keep,
  find, any, all, position, All, length-append, take-append-drop, length-take, length-drop,
  All-append, All-map,
}
use aurum_presenter.Prelude.Text.{
  Str, codes, str_eq, str_ltb, is_empty, str_eq-true, str_eq_refl, str_eq_iff, str_ltb_irrefl,
  str_ltb_trans, str_ltb_total, is_whitespace, trim_start, trim_end, trim, ascii_upper, ascii_lower,
  lowercase, strip_prefix, repeat, decimal,
}
use aurum_presenter.Prelude.Int.{
  ℤ, pos, negsuc, pos_part, neg_part, sub_ℕ, ◌+ℤ◌, ◌-ℤ◌, ◌≤ℤ◌, ltb_ℤ, leb_ℤ, eqb_ℤ, rem12,
  div_euclid, rem_euclid, +ℤ_parts, -ℤ_parts, eq_of_parts, int_laws, rem12-lt, rem12-add, +ℤ_assoc,
}
use mathlib.Core.Option
use aurum_presenter.Present.Slides.{ChartLine, split_lines}
use aurum_presenter.Present.Texts.{SlideKind, lyrics, text, blank, sheet, title, split_text}
use aurum_presenter.Present.Repeats.{Section, label_of, is_blank, expand_repeats}
use aurum_presenter.Chart.ChordPro.Body.{parse}

pub record Slide : Type 0 where
  pub id : Str
  pub item_id : Str
  pub kind : SlideKind
  pub song_title : Str
  pub label : Option Str
  pub lines : List ChartLine
  pub text : Option Str
  pub sheet_id : Option Str
  pub page : Option ℕ
  pub written_key : Option Str
  pub set_key : Option Str
  pub capo : ℤ

pub record SnapshotItem : Type 0 where
  pub item_id : Str
  pub song_id : Option Str
  pub title : Str
  pub body : Option Str
  pub written_key : Option Str
  pub set_key : Option Str
  pub capo : ℤ
  pub item_type : Option Str
  pub content : Option Str
  pub note : Option Str
  pub sheet_id : Option Str
  pub sheet_pages : Option ℕ

pub record Snapshot : Type 0 where
  pub set_id : Option Str
  pub set_name : Str
  pub items : List SnapshotItem
  pub taken_at : Str

abbrev pub base_of : SnapshotItem → Slide
base_of item = record {
  id = [];
  item_id = item.item_id;
  kind = lyrics;
  song_title = item.title;
  label = none;
  lines = [];
  text = none;
  sheet_id = none;
  page = none;
  written_key = item.written_key;
  set_key = item.set_key;
  capo = item.capo;
}

-- `format!("{a}{b}…")` with hyphens
abbrev pub id_of : ℕ → Str → Str
id_of index rest = decimal index ++ b'-' ∷ rest

abbrev pub text_slides : Slide → ℕ → ℕ → List Str → List Slide
text_slides base index part [] = []
text_slides base index part (t ∷ more) =
    (record base { id = id_of index (codes "text-" ++ decimal part); kind = text; text = some t })
    ∷ text_slides base index (part + 1) more

abbrev pub is_word : Str → Option Str → Bool
is_word word none = false
is_word word (some other) = str_eq other word

abbrev pub filled : Option Str → Option Str
filled none = none
filled (some s) = if is_empty (trim s) then none else some (trim s)

abbrev content_slides : Slide → ℕ → ℕ → Option Str → List Slide
content_slides base per_slide index (some content) =
    text_slides base index 0 (split_text content per_slide)
content_slides base per_slide index none =
    (record base { id = id_of index (codes "title"); kind = title }) ∷ []

-- An item without a song.
unfoldable pub plain_slides : ℕ → ℕ → SnapshotItem → List Slide
unfolding split_text trim str_eq decimal
plain_slides per_slide index item =
    if is_word (codes "blank") item.item_type
    then (record (base_of item) { id = id_of index (codes "blank"); kind = blank }) ∷ []
    else content_slides (base_of item) per_slide index (filled item.content)

-- The pages from one on, as many as there are.
unfoldable pub sheet_slides : Slide → ℕ → Str → ℕ → ℕ → List Slide
unfolding decimal
sheet_slides base index sheet_id page zero = []
sheet_slides base index sheet_id page (suc pages) =
    (record base {
      id = id_of index (codes "sheet-" ++ decimal page);
      kind = sheet;
      sheet_id = some sheet_id;
      page = some page;
    })
    ∷ sheet_slides base index sheet_id (page + 1) pages

abbrev pub group_slides : Slide → Str → ℕ → List (List ChartLine) → List Slide
group_slides base prefix part [] = []
group_slides base prefix part (group ∷ more) =
    (record base { id = prefix ++ decimal part; lines = group })
    ∷ group_slides base prefix (part + 1) more

abbrev pub shown_lines : Section → List ChartLine
shown_lines section = keep (λ line. not (is_blank line)) section.lines

-- The slides of some lines, whose split could be without an answer: none where there is no line.
abbrev pub lines_slides : ℕ → Slide → Str → List ChartLine → Option (List Slide)
lines_slides per_slide base prefix [] = some []
lines_slides per_slide base prefix (line ∷ more) =
    Option.map (group_slides base prefix 0) (split_lines (line ∷ more) per_slide)

unfoldable pub section_slides : ℕ → Slide → ℕ → ℕ → Section → Option (List Slide)
unfolding is_blank split_lines label_of decimal
section_slides per_slide base index section_index section =
    lines_slides per_slide (record base { kind = lyrics; label = label_of section })
      (id_of index (decimal section_index ++ b'-' ∷ [])) (shown_lines section)

abbrev pub both : Option (List Slide) → Option (List Slide) → Option (List Slide)
both (some front) (some back) = some (front ++ back)
both _ _ = none

unfoldable pub song_slides : ℕ → Slide → ℕ → ℕ → List Section → Option (List Slide)
unfolding section_slides
song_slides per_slide base index section_index [] = some []
song_slides per_slide base index section_index (section ∷ more) =
    both (section_slides per_slide base index section_index section)
      (song_slides per_slide base index (section_index + 1) more)

abbrev pub charted : ℕ → ℕ → SnapshotItem → Option Str → Option (List Slide)
charted per_slide index item (some sheet_id) =
    some (sheet_slides (base_of item) index sheet_id 1 (unwrap_or item.sheet_pages 1))
charted per_slide index item none =
    song_slides per_slide (base_of item) index 0
      (expand_repeats (parse (unwrap_or item.body [])).sections)

-- One round of the loop over the items.
unfoldable pub item_slides : ℕ → ℕ → SnapshotItem → Option (List Slide)
unfolding trim plain_slides sheet_slides song_slides expand_repeats parse
item_slides per_slide index item =
    if is_empty (trim (unwrap_or item.body []))
    then some (plain_slides per_slide index item)
    else charted per_slide index item item.sheet_id

unfoldable pub slides_from : ℕ → ℕ → List SnapshotItem → Option (List Slide)
unfolding item_slides
slides_from per_slide index [] = some []
slides_from per_slide index (item ∷ more) =
    both (item_slides per_slide index item) (slides_from per_slide (index + 1) more)

unfoldable pub slides : ℕ → Snapshot → Option (List Slide)
unfolding slides_from
slides per_slide snapshot = slides_from per_slide 0 snapshot.items
