-- ===== src/Present/Session.antt =====
-- crates/core/src/present/session.rs: the one object that every screen renders from. The types of a
-- slide, of a set's snapshot and of a theme are parameters: the session only carries them. An index
-- is a `usize` and a delta an `i64`; their sums are on exact integers, which is what the machine
-- computes as long as they stay below 2^63. The revision is a `u64`, which counts up from 1.
pub mod Moves
pub mod Order
use aurum_presenter.Prelude.{
  ℕ, zero, suc, ◌+◌, ◌-◌, ◌*◌, ◌/◌, ◌%◌, ◌≤◌, ◌<◌, min, max, ◌≡◌, refl, sym, ap, ◌∙◌, subst, ◌≢◌,
  ◌↔◌, ◌⊎◌, inl, inr, Bool, true, false, ◌&&◌, ◌||◌, not, Option, none, some, List, [], ◌∷◌, ◌++◌,
  map, arith, ltb, leb, ◌==◌, if◌then◌else◌, ltb→lt, lt→ltb, ==_iff, Bool-cases, Option-cases,
  unwrap_or, all_below, all_below_sound, length, get_elem?, get_or, take, drop, get_last?, keep,
  find, any, all, position, All, length-append, take-append-drop, length-take, length-drop,
  All-append, All-map,
}
use aurum_presenter.Prelude.Text.{
  Str, codes, str_eq, str_ltb, is_empty, str_eq-true, str_eq_refl, str_eq_iff, str_ltb_irrefl,
  str_ltb_trans, str_ltb_total, is_whitespace, trim_start, trim_end, trim, ascii_upper, ascii_lower,
  lowercase, strip_prefix, repeat,
}
use aurum_presenter.Prelude.Int.{
  ℤ, pos, negsuc, pos_part, neg_part, sub_ℕ, ◌+ℤ◌, ◌-ℤ◌, ◌≤ℤ◌, ltb_ℤ, leb_ℤ, eqb_ℤ, rem12,
  div_euclid, rem_euclid, +ℤ_parts, -ℤ_parts, eq_of_parts, int_laws, rem12-lt, rem12-add, +ℤ_assoc,
}

pub data BlankMode : Type 0 where
  showing black logo freeze : BlankMode

pub data OutputKind : Type 0 where
  audience stage paired_stage : OutputKind

pub record OutputStatus : Type 0 where
  pub output_id : Str
  pub kind : OutputKind
  pub label : Str
  pub joined_at : Str
  pub last_ack_revision : ℕ
  pub responding : Bool
  pub can_advance : Bool

pub record SessionState (Slide Snapshot Theme : Type 0) : Type 0 where
  pub session_id : Str
  pub workspace_id : Str
  pub set_snapshot : Snapshot
  pub slides : List Slide
  pub index : ℕ
  pub blank_mode : BlankMode
  pub message : Option Str
  pub stage_message : Option Str
  pub theme : Theme
  pub started_at : Str
  pub revision : ℕ
  pub ended : Bool

-- Messages on the wire.
pub data SessionMessage (Slide Snapshot Theme : Type 0) : Type 0 where
  state : SessionState Slide Snapshot Theme → SessionMessage Slide Snapshot Theme
  ack : Str → OutputKind → Str → ℕ → SessionMessage Slide Snapshot Theme
  hello : Str → OutputKind → Str → SessionMessage Slide Snapshot Theme
  request_state : Str → SessionMessage Slide Snapshot Theme
  advance : Str → ℤ → SessionMessage Slide Snapshot Theme
  bye : Str → SessionMessage Slide Snapshot Theme

-- `==` on `BlankMode`.
unfoldable pub same_mode : BlankMode → BlankMode → Bool
same_mode showing showing = true
same_mode black black = true
same_mode logo logo = true
same_mode freeze freeze = true
same_mode _ _ = false

-- `(i as i64).clamp(0, last as i64) as usize`
unfoldable pub clamp : ℤ → ℕ → ℕ
clamp (negsuc n) last = 0
clamp (pos n) last = if ltb last n then last else n

unfoldable pub non_empty : Option Str → Option Str
non_empty none = none
non_empty (some text) = if is_empty text then none else some text

unfoldable pub channel_name : Str → Str
channel_name session_id = codes "aurum-session-" ++ session_id

-- `match self.blank_mode { Black | Logo => None, _ => … }`
abbrev pub unless_blank : {Slide : Type 0} → BlankMode → Option Slide → Option Slide
unless_blank black slide = none
unless_blank logo slide = none
unless_blank _ slide = slide

module _ {Slide Snapshot Theme : Type 0} where
  -- `self.slides.len().saturating_sub(1)`
  unfoldable pub last_index : SessionState Slide Snapshot Theme → ℕ
  last_index s = length s.slides - 1

  unfoldable pub advanced :
      SessionState Slide Snapshot Theme → ℤ → SessionState Slide Snapshot Theme
  unfolding last_index clamp ◌+ℤ◌
  advanced s delta =
      let index = clamp (pos s.index +ℤ delta) (last_index s) in
      if index == s.index then s else record s { index = index; revision = s.revision + 1 }

  unfoldable pub jumped : SessionState Slide Snapshot Theme → ℤ → SessionState Slide Snapshot Theme
  unfolding last_index clamp
  jumped s index = record s { index = clamp index (last_index s); revision = s.revision + 1 }

  unfoldable pub blanked :
      SessionState Slide Snapshot Theme → BlankMode → SessionState Slide Snapshot Theme
  unfolding same_mode
  blanked s mode = record s {
    blank_mode = if same_mode s.blank_mode mode then showing else mode;
    revision = s.revision + 1;
  }

  unfoldable pub with_message :
      SessionState Slide Snapshot Theme → Option Str → SessionState Slide Snapshot Theme
  unfolding non_empty
  with_message s message = record s { message = non_empty message; revision = s.revision + 1 }

  unfoldable pub with_stage_message :
      SessionState Slide Snapshot Theme → Option Str → SessionState Slide Snapshot Theme
  unfolding non_empty
  with_stage_message s message = record s {
    stage_message = non_empty message;
    revision = s.revision + 1;
  }

  unfoldable pub audience_slide : SessionState Slide Snapshot Theme → Option Slide
  audience_slide s = unless_blank s.blank_mode (get_elem? s.slides s.index)

  unfoldable pub stage_slide : SessionState Slide Snapshot Theme → Option Slide
  stage_slide s = get_elem? s.slides s.index

  unfoldable pub next_slide : SessionState Slide Snapshot Theme → Option Slide
  next_slide s = get_elem? s.slides (s.index + 1)
