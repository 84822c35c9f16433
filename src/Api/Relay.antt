-- ===== src/Api/Relay.antt =====
-- crates/api/src/signal.rs: the relay's rooms and rate limit. The state behind the mutex is passed
-- from one locked operation to the next; a peer is the channel of its socket, a type parameter.
-- `i64` seconds are exact integers.
pub mod Pairs
pub mod Sweep
pub mod Attempts
use aurum_presenter.Prelude.{
  ℕ, zero, suc, ◌+◌, ◌-◌, ◌*◌, ◌/◌, ◌%◌, ◌≤◌, ◌<◌, min, max, ◌≡◌, refl, sym, ap, ◌∙◌, subst, ◌≢◌,
  ◌↔◌, ◌⊎◌, inl, inr, Bool, true, false, ◌&&◌, ◌||◌, not, Option, none, some, List, [], ◌∷◌, ◌++◌,
  map, arith, ltb, leb, ◌==◌, if◌then◌else◌, ltb→lt, lt→ltb, ==_iff, Bool-cases, Option-cases,
  unwrap_or, all_below, all_below_sound, length, get_elem?, get_or, take, drop, get_last?, keep,
  find, any, all, position, All, length-append, take-append-drop, length-take, length-drop,
  All-append, All-map,
}
use aurum_presenter.Prelude.Text.{
  Str, codes, str_eq, str_ltb, is_empty, str_eq-true, str_eq_refl, str_eq_iff, str_ltb_irrefl,
  str_ltb_trans, str_ltb_total, is_whitespace, trim_start, trim_end, trim, ascii_upper, ascii_lower,
  lowercase, strip_prefix, repeat,
}
use aurum_presenter.Prelude.Int.{
  ℤ, pos, negsuc, pos_part, neg_part, sub_ℕ, ◌+ℤ◌, ◌-ℤ◌, ◌≤ℤ◌, ltb_ℤ, leb_ℤ, eqb_ℤ, rem12,
  div_euclid, rem_euclid, +ℤ_parts, -ℤ_parts, eq_of_parts, int_laws, rem12-lt, rem12-add, +ℤ_assoc,
}
use aurum_presenter.Prelude.Dict.{lookup, insert, remove}
use aurum_presenter.Sync.Json.{Value, Fields, get}

pub record Room (Peer : Type 0) : Type 0 where
  pub workspace_id : Str
  pub host : Peer
  pub guest : Option Peer
  pub opened_at : ℤ

-- Code to room, and user to recent handshake times.
pub record Rooms (Peer : Type 0) : Type 0 where
  pub open_rooms : List (Str × Room Peer)
  pub attempts : List (Str × List ℤ)

abbrev pub room_ttl_seconds : ℤ
room_ttl_seconds = pos 120

abbrev pub max_attempts_per_minute : ℕ
max_attempts_per_minute = 20

-- `now - *at < 60`
abbrev pub is_recent : ℤ → ℤ → Bool
is_recent now at_time = ltb_ℤ (now -ℤ at_time) (pos 60)

module _ {Peer : Type 0} where
  -- `recent.retain(…); recent.push(now);`
  abbrev pub recent_of : Str → ℤ → Rooms Peer → List ℤ
  recent_of user_id now rooms =
      keep (is_recent now) (unwrap_or (lookup user_id rooms.attempts) []) ++ (now ∷ [])

  unfoldable pub allow_attempt : Str → ℤ → Rooms Peer → Bool × Rooms Peer
  allow_attempt user_id now rooms =
      let recent = recent_of user_id now rooms in
      (
        leb (length recent) max_attempts_per_minute,
        record { open_rooms = rooms.open_rooms; attempts = insert user_id recent rooms.attempts },
      )

  -- The rooms with other entries, and the attempts kept.
  abbrev pub with_rooms : List (Str × Room Peer) → Rooms Peer → Rooms Peer
  with_rooms open_rooms rooms = record { open_rooms = open_rooms; attempts = rooms.attempts }

  unfoldable pub workspace_of : Str → Rooms Peer → Option Str
  workspace_of code rooms = elim (lookup code rooms.open_rooms) [
    | none ↦ none
    | some room ↦ some room.workspace_id
  ]

  unfoldable pub open_room : Str → Str → Peer → ℤ → Rooms Peer → Rooms Peer
  open_room code workspace_id host now rooms =
      with_rooms
        (insert code
          (record { workspace_id = workspace_id; host = host; guest = none; opened_at = now })
          rooms.open_rooms)
        rooms

  abbrev pub seated : Peer → Room Peer → Room Peer
  seated guest room = record {
    workspace_id = room.workspace_id;
    host = room.host;
    guest = some guest;
    opened_at = room.opened_at;
  }

  -- `match rooms.open.get_mut(code)`
  abbrev pub join_room : Str → Peer → Rooms Peer → Option (Room Peer) → Bool × Rooms Peer
  join_room code guest rooms none = (false, rooms)
  join_room code guest rooms (some room) = elim room.guest [
    | none ↦ (true, with_rooms (insert code (seated guest room) rooms.open_rooms) rooms)
    | some other ↦ (false, rooms)
  ]

  unfoldable pub join : Str → Peer → Rooms Peer → Bool × Rooms Peer
  join code guest rooms = join_room code guest rooms (lookup code rooms.open_rooms)

  abbrev pub other_end : Bool → Option (Room Peer) → Option Peer
  other_end is_host none = none
  other_end true (some room) = room.guest
  other_end false (some room) = some room.host

  unfoldable pub peer_of : Str → Bool → Rooms Peer → Option Peer
  peer_of code is_host rooms = other_end is_host (lookup code rooms.open_rooms)

  unfoldable pub close : Str → Rooms Peer → Rooms Peer
  close code rooms = with_rooms (remove code rooms.open_rooms) rooms

  abbrev pub is_expired : ℤ → Room Peer → Bool
  is_expired now room = leb_ℤ room_ttl_seconds (now -ℤ room.opened_at)

  unfoldable pub expired_in : ℤ → List (Str × Room Peer) → List Str
  expired_in now [] = []
  expired_in now ((code, room) ∷ rest) =
      let later = expired_in now rest in if is_expired now room then code ∷ later else later

  unfoldable pub expired : ℤ → Rooms Peer → List Str
  unfolding expired_in
  expired now rooms = expired_in now rooms.open_rooms

  unfoldable pub close_all : List Str → Rooms Peer → Rooms Peer
  close_all [] rooms = rooms
  close_all (code ∷ more) rooms = close_all more (close code rooms)

  -- The loop of `serve` that wakes up every five seconds, where no other connection takes the lock
  -- between the reading of the expired codes and the closing of their rooms.
  unfoldable pub sweep : ℤ → Rooms Peer → Rooms Peer
  unfolding expired close_all
  sweep now rooms = close_all (expired now rooms) rooms

-- `is_ascii_alphabetic() || ('2'..='9').contains(…)`
abbrev is_path_char : ℕ → Bool
is_path_char c =
    ((leb b'A' c && leb c b'Z') || (leb b'a' c && leb c b'z')) || (leb b'2' c && leb c b'9')

-- `strip_suffix`: what stands before the suffix, if the text ends with it.
unfoldable pub strip_suffix : Str → Str → Option Str
unfolding str_eq
strip_suffix suffix [] = if is_empty suffix then some [] else none
strip_suffix suffix (c ∷ s) =
    let rest = strip_suffix suffix s in
    if str_eq (c ∷ s) suffix
    then some []
    else elim rest [ none ↦ none | some front ↦ some (c ∷ front) ]

-- The code in the path of a request. The texts that it takes are ASCII, so a byte is a character, and
-- `to_uppercase` changes letter by letter.
unfoldable pub code_of : Str → Option Str
unfolding strip_prefix strip_suffix ascii_upper
code_of path = elim (strip_prefix (codes "/api/v1/sessions/") path) [
  | none ↦ none
  | some rest ↦ elim (strip_suffix (codes "/signal") rest) [
    | none ↦ none
    | some code ↦
        if (length code == 6) && all is_path_char code then some (map ascii_upper code) else none
  ]
]

-- `str::len`: the bytes of the text in UTF-8.
unfoldable pub bytes_of : Str → ℕ
bytes_of [] = 0
bytes_of (c ∷ s) =
    (if ltb c 128 then 1 else if ltb c 2_048 then 2 else if ltb c 65_536 then 3 else 4) + bytes_of s

abbrev pub max_payload : ℕ
max_payload = 16 * 1_024

module _ {Number Structured : Type 0}
    (from_str : Str → Option (Fields (Value Number Structured))) where
  abbrev is_string : Option (Value Number Structured) → Bool
  is_string (some (Value.string text)) = true
  is_string _ = false

  abbrev is_structured : Option (Value Number Structured) → Bool
  is_structured (some (Value.structured value)) = true
  is_structured _ = false

  abbrev is_signal_kind : Option (Value Number Structured) → Fields (Value Number Structured) → Bool
  is_signal_kind (some (Value.string kind)) fields =
      if str_eq kind (codes "offer") || str_eq kind (codes "answer")
      then is_string (get (codes "sdp") fields)
      else str_eq kind (codes "ice") && is_structured (get (codes "candidate") fields)
  is_signal_kind _ fields = false

  -- `from_str` is serde_json's: the fields of the object that the text holds, `none` for a text that is
  -- not JSON, and no fields for JSON of another kind.
  unfoldable pub is_signal : Str → Bool
  unfolding bytes_of get str_eq
  is_signal payload =
      if ltb max_payload (bytes_of payload) then false else elim (from_str payload) [
        | none ↦ false
        | some decoded ↦ is_signal_kind (get (codes "kind") decoded) decoded
      ]
