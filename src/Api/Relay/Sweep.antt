-- ===== src/Api/Relay/Sweep.antt =====
-- What the sweep of signal.rs closes.
use aurum_presenter.Prelude.{
  ◌↔◌, arith, ◌≡◌, refl, ◌∙◌, inl, inr, Bool, true, false, ◌&&◌, ◌||◌, Option, none, some, List, [],
  ◌∷◌, if◌then◌else◌, Bool-cases, Option-cases, any,
}
use aurum_presenter.Prelude.Text.{Str, str_eq, str_eq-true}
use aurum_presenter.Prelude.Int.{ℤ, pos, ◌+ℤ◌, ◌-ℤ◌, ◌≤ℤ◌, leb_ℤ, int_laws}
use aurum_presenter.Prelude.Dict.{lookup, Unique, lookup-remove, insert-Unique, remove-Unique}
use aurum_presenter.Api.Relay.{
  Room, Rooms, open_room, seated, join_room, join, close, expired, expired_in, is_expired,
  close_all, sweep, allow_attempt,
}
use aurum_presenter.Api.Relay.Pairs.{room_of}

abbrev is_listed : Str → List Str → Bool
is_listed code closing = any (λ c. str_eq c code) closing

close_all_lem :
    {Peer : Type 0} (closing : List Str) (rooms : Rooms Peer) (code : Str)
    → room_of code (close_all closing rooms)
      ≡ (if is_listed code closing then none else room_of code rooms)
unfolding close_all close
close_all_lem [] rooms code = refl
close_all_lem (c ∷ more) rooms code =
    rw (close_all_lem more (close c rooms) code, lookup-remove code c rooms.open_rooms)
      (either (str_eq c code) (is_listed code more))
  where
    either :
        (a b : Bool)
        → (if b then none else (if a then none else room_of code rooms))
          ≡ (if a || b then none else room_of code rooms)
    either true true = refl
    either true false = refl
    either false true = refl
    either false false = refl

-- A room that is still open at a time.
abbrev still : {Peer : Type 0} → ℤ → Option (Room Peer) → Option (Room Peer)
still now none = none
still now (some room) = if is_expired now room then none else some room

expired_step :
    {Peer : Type 0} (now : ℤ) (code : Str) (c : Str) (room : Room Peer)
    (rest : List (Str × Room Peer))
    → is_listed code (expired_in now ((c, room) ∷ rest))
      ≡ ((is_expired now room && str_eq c code) || is_listed code (expired_in now rest))
unfolding expired_in
expired_step now code c room rest = elim (Bool-cases (is_expired now room)) [
  | inl e ↦ rw e refl
  | inr e ↦ rw e refl
]

lookup_step :
    {Peer : Type 0} (code c : Str) (room : Room Peer) (rest : List (Str × Room Peer))
    → lookup code ((c, room) ∷ rest) ≡ (if str_eq c code then some room else lookup code rest)
unfolding lookup
lookup_step code c room rest = refl

-- A code that names no room is not swept.
unlisted :
    {Peer : Type 0} (now : ℤ) (code : Str) (rooms : List (Str × Room Peer))
    → lookup code rooms ≡ none
    → is_listed code (expired_in now rooms) ≡ false
unfolding expired_in
unlisted now code [] n = refl
unlisted now code ((c, room) ∷ rest) n = elim (Bool-cases (str_eq c code)) [
  | inl e ↦ (let absurd : some room ≡ none = rw (lookup_step code c room rest, e) at n in cc)
  | inr e ↦
      (let later : lookup code rest ≡ none = rw (lookup_step code c room rest, e) at n in
        rw (expired_step now code c room rest, e, unlisted now code rest later)
          (never (is_expired now room)))
]
  where
    never : (b : Bool) → ((b && false) || false) ≡ false
    never true = refl
    never false = refl

listed_lem :
    {Peer : Type 0} (now : ℤ) (code : Str) (rooms : List (Str × Room Peer))
    → Unique rooms
    → (if is_listed code (expired_in now rooms) then none else lookup code rooms)
      ≡ still now (lookup code rooms)
unfolding expired_in lookup
listed_lem now code [] u = refl
listed_lem now code ((c, room) ∷ rest) (n, u) = elim (Bool-cases (str_eq c code)) [
  | inl e ↦
      (let gone : is_listed code (expired_in now rest) ≡ false =
          unlisted now code rest (rw (← str_eq-true c code e) n) in
        rw (expired_step now code c room rest, lookup_step code c room rest, e, gone)
          (here (is_expired now room)))
  | inr e ↦
      rw (expired_step now code c room rest, lookup_step code c room rest, e)
        (there (is_expired now room) (listed_lem now code rest u))
]
  where
    here :
        (b : Bool)
        → (if (b && true) || false then none else some room) ≡ (if b then none else some room)
    here true = refl
    here false = refl

    there :
        (b : Bool)
        → (if is_listed code (expired_in now rest) then none else lookup code rest)
          ≡ still now (lookup code rest)
        → (if (b && false) || is_listed code (expired_in now rest) then none else lookup code rest)
          ≡ still now (lookup code rest)
    there true h = h
    there false h = h

young_lem :
    (now opened_at : ℤ)
    → (leb_ℤ (pos 120) (now -ℤ opened_at) ≡ false) ↔ (now +ℤ pos 1 ≤ℤ opened_at +ℤ pos 120)
young_lem now opened_at = (
  λ e. (let late : ¬ (pos 120 ≤ℤ now -ℤ opened_at) = ground arith in omega int_laws),
  λ young. (let late : ¬ (pos 120 ≤ℤ now -ℤ opened_at) = omega int_laws in ground arith),
)

still_young :
    {Peer : Type 0} (now : ℤ) (found : Option (Room Peer)) (room : Room Peer)
    → (still now found ≡ some room)
      ↔ ((found ≡ some room) × (now +ℤ pos 1 ≤ℤ room.opened_at +ℤ pos 120))
still_young now none room = (λ e. cc, λ (e, young). cc)
still_young now (some other) room = elim (Bool-cases (is_expired now other)) [
  | inl e ↦ rw e (
    λ n. cc,
    λ (same, young).
        (let one : other ≡ room = cc in
          let late = (young_lem now other.opened_at).1 (rw (← one) at young) in cc),
  )
  | inr e ↦ rw e (
    λ same. (same, (let one : room ≡ other = cc in rw one ((young_lem now other.opened_at).0 e))),
    λ (same, young). same,
  )
]

-- After a sweep a code names a room if and only if it named this very room before, with all that the
-- room holds, and the room was opened less than 120 seconds ago; where a code names at most one room
-- and nothing else changes the rooms while the sweep closes them.
pub room_of-sweep :
    {Peer : Type 0} (now : ℤ) (rooms : Rooms Peer) (code : Str) (room : Room Peer)
    → Unique rooms.open_rooms
    → (room_of code (sweep now rooms) ≡ some room)
      ↔ ((room_of code rooms ≡ some room) × (now +ℤ pos 1 ≤ℤ room.opened_at +ℤ pos 120))
unfolding sweep expired
room_of-sweep now rooms code room u =
    rw
      (close_all_lem (expired_in now rooms.open_rooms) rooms code
        ∙ listed_lem now code rooms.open_rooms u)
      (still_young now (room_of code rooms) room)

-- The operations of the relay, in any order.
pub data Operation (Peer : Type 0) : Type 0 where
  attempted : Str → ℤ → Operation Peer
  opened : Str → Str → Peer → ℤ → Operation Peer
  joined : Str → Peer → Operation Peer
  closed : Str → Operation Peer
  swept : ℤ → Operation Peer

abbrev pub after : {Peer : Type 0} → Operation Peer → Rooms Peer → Rooms Peer
after (attempted user now) rooms = (allow_attempt user now rooms).1
after (opened code workspace host now) rooms = open_room code workspace host now rooms
after (joined code guest) rooms = (join code guest rooms).1
after (closed code) rooms = close code rooms
after (swept now) rooms = sweep now rooms

abbrev pub run : {Peer : Type 0} → List (Operation Peer) → Rooms Peer → Rooms Peer
run [] rooms = rooms
run (o ∷ more) rooms = run more (after o rooms)

close_all-Unique :
    {Peer : Type 0} (closing : List Str) (rooms : Rooms Peer)
    → Unique rooms.open_rooms
    → Unique (close_all closing rooms).open_rooms
unfolding close_all close
close_all-Unique [] rooms u = u
close_all-Unique (c ∷ more) rooms u =
    close_all-Unique more (close c rooms) (remove-Unique c rooms.open_rooms u)

join-Unique :
    {Peer : Type 0} (code : Str) (guest : Peer) (rooms : Rooms Peer) (o : Option (Room Peer))
    → Unique rooms.open_rooms
    → Unique (join_room code guest rooms o).1.open_rooms
join-Unique code guest rooms none u = u
join-Unique code guest rooms (some room) u = elim (Option-cases room.guest) [
  | inl free ↦ rw free (insert-Unique code (seated guest room) rooms.open_rooms u)
  | inr (other, taken) ↦ rw taken u
]

after-Unique :
    {Peer : Type 0} (o : Operation Peer) (rooms : Rooms Peer)
    → Unique rooms.open_rooms
    → Unique (after o rooms).open_rooms
unfolding allow_attempt open_room join close sweep
after-Unique (attempted user now) rooms u = u
after-Unique (opened code workspace host now) rooms u =
    insert-Unique code
      (record { workspace_id = workspace; host = host; guest = none; opened_at = now })
      rooms.open_rooms u
after-Unique (joined code guest) rooms u =
    join-Unique code guest rooms (lookup code rooms.open_rooms) u
after-Unique (closed code) rooms u = remove-Unique code rooms.open_rooms u
after-Unique (swept now) rooms u = close_all-Unique (expired now rooms) rooms u

-- Whatever operations the relay performs, a code names at most one room, if it did before them.
pub run-Unique :
    {Peer : Type 0} (operations : List (Operation Peer)) (rooms : Rooms Peer)
    → Unique rooms.open_rooms
    → Unique (run operations rooms).open_rooms
run-Unique [] rooms u = u
run-Unique (o ∷ more) rooms u = run-Unique more (after o rooms) (after-Unique o rooms u)
