-- ===== src/Api/Relay/Pairs.antt =====
-- Who may sit in a room of signal.rs, and where its messages go.
use aurum_presenter.Prelude.{
  ◌≡◌, refl, ◌∙◌, inl, inr, Bool, true, false, ◌&&◌, Option, none, some, if◌then◌else◌,
  Option-cases,
}
use aurum_presenter.Prelude.Text.{Str, str_eq, str_eq_refl}
use aurum_presenter.Prelude.Int.{ℤ}
use aurum_presenter.Prelude.Dict.{lookup, insert, lookup-insert}
use aurum_presenter.Api.Relay.{
  Room, Rooms, with_rooms, open_room, seated, join_room, join, other_end, peer_of,
}

-- The rooms that a code names.
abbrev pub room_of : {Peer : Type 0} → Str → Rooms Peer → Option (Room Peer)
room_of code rooms = lookup code rooms.open_rooms

join_lem :
    {Peer : Type 0} (code : Str) (guest : Peer) (rooms : Rooms Peer) (o : Option (Room Peer))
    → room_of code rooms ≡ o
    → join code guest rooms ≡ join_room code guest rooms o
unfolding join
join_lem code guest rooms o e = rw e refl

peer_of_lem :
    {Peer : Type 0} (code : Str) (is_host : Bool) (rooms : Rooms Peer) (o : Option (Room Peer))
    → room_of code rooms ≡ o
    → peer_of code is_host rooms ≡ other_end is_host o
unfolding peer_of
peer_of_lem code is_host rooms o e = rw e refl

inserted :
    {Peer : Type 0} (code : Str) (room : Room Peer) (rooms : Rooms Peer)
    → room_of code (with_rooms (insert code room rooms.open_rooms) rooms) ≡ some room
inserted code room rooms = rw (lookup-insert code code room rooms.open_rooms, str_eq_refl code) refl

elsewhere :
    {Peer : Type 0} (code other : Str) (room : Room Peer) (rooms : Rooms Peer)
    → str_eq code other ≡ false
    → room_of other (with_rooms (insert code room rooms.open_rooms) rooms) ≡ room_of other rooms
elsewhere code other room rooms e = rw (lookup-insert other code room rooms.open_rooms, e) refl

abbrev fresh_room : {Peer : Type 0} → Str → Peer → ℤ → Room Peer
fresh_room workspace_id host now = record {
  workspace_id = workspace_id;
  host = host;
  guest = none;
  opened_at = now;
}

open_room_lem :
    {Peer : Type 0} (code workspace_id : Str) (host : Peer) (now : ℤ) (rooms : Rooms Peer)
    → open_room code workspace_id host now rooms
      ≡ with_rooms (insert code (fresh_room workspace_id host now) rooms.open_rooms) rooms
unfolding open_room
open_room_lem code workspace_id host now rooms = refl

-- The rooms once the host has opened one and the guest has joined it.
paired :
    {Peer : Type 0} (code workspace_id : Str) (host guest : Peer) (now : ℤ) (rooms : Rooms Peer)
    → join code guest (open_room code workspace_id host now rooms) ≡ (
      true,
      with_rooms
          (insert code
            (seated guest (fresh_room workspace_id host now))
            (open_room code workspace_id host now rooms).open_rooms)
          (open_room code workspace_id host now rooms),
    )
paired code workspace_id host guest now rooms =
    join_lem code guest (open_room code workspace_id host now rooms)
      (some (fresh_room workspace_id host now))
      (rw (open_room_lem code workspace_id host now rooms)
        (inserted code (fresh_room workspace_id host now) rooms))

-- A guest who joins a room that a host has just opened is the one the host writes to, and writes to
-- that host; a third peer is refused and changes nothing; and the room of any other code is as it
-- was.
pub open_room-join :
    {Peer : Type 0} (code workspace_id : Str) (host guest third : Peer) (now : ℤ)
    (rooms : Rooms Peer)
    → (join code guest (open_room code workspace_id host now rooms)).0 ≡ true
      × (peer_of code true (join code guest (open_room code workspace_id host now rooms)).1
          ≡ some guest)
      × (peer_of code false (join code guest (open_room code workspace_id host now rooms)).1
          ≡ some host)
      × (join code third (join code guest (open_room code workspace_id host now rooms)).1
          ≡ (false, (join code guest (open_room code workspace_id host now rooms)).1))
      × ((other : Str)
          → str_eq code other ≡ false
          → room_of other (join code guest (open_room code workspace_id host now rooms)).1
            ≡ room_of other rooms)
open_room-join code workspace_id host guest third now rooms =
    let opened = open_room code workspace_id host now rooms in
    let room = seated guest (fresh_room workspace_id host now) in
    let after = with_rooms (insert code room opened.open_rooms) opened in
    let here = inserted code room opened in
    rw (paired code workspace_id host guest now rooms) (
      refl,
      peer_of_lem code true after (some room) here,
      peer_of_lem code false after (some room) here,
      join_lem code third after (some room) here,
      λ other e.
          elsewhere code other room opened e
          ∙ (rw (open_room_lem code workspace_id host now rooms)
              (elsewhere code other (fresh_room workspace_id host now) rooms e)),
    )

abbrev pub seat : {Peer : Type 0} → Peer → Option (Room Peer) → Option (Room Peer)
seat guest none = none
seat guest (some room) = some (seated guest room)

abbrev pub has_seat : {Peer : Type 0} → Option (Room Peer) → Bool
has_seat none = false
has_seat (some room) = elim room.guest [ none ↦ true | some other ↦ false ]

-- A guest is let in exactly where the code names a room whose seat is empty; it then takes that
-- seat, and every other room, or every room where it is refused, stays as it was.
pub join-room_of :
    {Peer : Type 0} (code other : Str) (guest : Peer) (rooms : Rooms Peer)
    → (join code guest rooms).0 ≡ has_seat (room_of code rooms)
      × (room_of other (join code guest rooms).1 ≡ (
          if has_seat (room_of code rooms) && str_eq code other
          then seat guest (room_of code rooms)
          else room_of other rooms))
join-room_of code other guest rooms = elim (Option-cases (room_of code rooms)) [
  | inl e ↦ rw (join_lem code guest rooms none e, e) (refl, refl)
  | inr (room, e) ↦
      rw (join_lem code guest rooms (some room) e, e)
        (elim (Option-cases room.guest) [
          | inr (taken, t) ↦ rw t (refl, refl)
          | inl free ↦
              rw (free, lookup-insert other code (seated guest room) rooms.open_rooms) (refl, refl)
        ])
]
