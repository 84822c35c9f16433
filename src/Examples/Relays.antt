-- ===== src/Examples/Relays.antt =====
-- The relay of crates/api/src/signal.rs at concrete inputs. A peer is a number.
use aurum_presenter.Prelude.{◌↔◌, ℕ, ◌≡◌, refl, true, false, none, some, [], ◌∷◌}
use aurum_presenter.Prelude.Text.{Str, codes, str_eq}
use aurum_presenter.Prelude.Int.{pos, ◌+ℤ◌, ◌≤ℤ◌}
use aurum_presenter.Prelude.Dict.{Unique, lookup}
use aurum_presenter.Api.Relay.{Room, Rooms, open_room, join, peer_of, sweep, code_of}
use aurum_presenter.Api.Relay.Pairs.{room_of, open_room-join}
use aurum_presenter.Api.Relay.Sweep.{room_of-sweep}

abbrev nobody : Rooms ℕ
nobody = record { open_rooms = []; attempts = [] }

abbrev host_waits : Rooms ℕ
host_waits = record {
  open_rooms =
      (
        codes "ABC234",
        record { workspace_id = codes "w"; host = 1; guest = none; opened_at = pos 1_000 },
      )
      ∷ [];
  attempts = (codes "ann", pos 900 ∷ pos 995 ∷ []) ∷ [];
}

waits-Unique : Unique host_waits.open_rooms
unfolding lookup
waits-Unique = (refl, tt)

open_room-join_example :
    (join (codes "ABC234") 2 (open_room (codes "ABC234") (codes "w") 1 (pos 5) nobody)).0 ≡ true
    × (peer_of
          (codes "ABC234")
          true
          (join (codes "ABC234") 2 (open_room (codes "ABC234") (codes "w") 1 (pos 5) nobody)).1
        ≡ some 2)
    × (peer_of
          (codes "ABC234")
          false
          (join (codes "ABC234") 2 (open_room (codes "ABC234") (codes "w") 1 (pos 5) nobody)).1
        ≡ some 1)
    × (join
          (codes "ABC234")
          3
          (join (codes "ABC234") 2 (open_room (codes "ABC234") (codes "w") 1 (pos 5) nobody)).1
        ≡ (
          false,
          (join (codes "ABC234") 2 (open_room (codes "ABC234") (codes "w") 1 (pos 5) nobody)).1,
        ))
    × ((other : Str)
        → str_eq (codes "ABC234") other ≡ false
        → room_of other
            (join (codes "ABC234") 2 (open_room (codes "ABC234") (codes "w") 1 (pos 5) nobody)).1
          ≡ room_of other nobody)
open_room-join_example = open_room-join (codes "ABC234") (codes "w") 1 2 3 (pos 5) nobody

abbrev waiting_room : Room ℕ
waiting_room = record { workspace_id = codes "w"; host = 1; guest = none; opened_at = pos 1_000 }

-- A second before the room is two minutes old.
room_of-sweep_example :
    (room_of (codes "ABC234") (sweep (pos 1_119) host_waits) ≡ some waiting_room) ↔ (
      (room_of (codes "ABC234") host_waits ≡ some waiting_room)
      × (pos 1_119 +ℤ pos 1 ≤ℤ pos 1_000 +ℤ pos 120))
room_of-sweep_example =
    room_of-sweep (pos 1_119) host_waits (codes "ABC234") waiting_room waits-Unique

-- A code is read from its path in whatever case it was typed.
code_run : code_of (codes "/api/v1/sessions/abc234/signal") ≡ some (codes "ABC234")
unfolding code_of
code_run = refl
