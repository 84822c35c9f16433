-- ===== src/Api/Relay/Attempts.antt =====
-- The rate limit of signal.rs.
use aurum_presenter.Prelude.{
  ◌≤◌, ◌≡◌, refl, ◌↔◌, true, false, List, [], ◌∷◌, ◌++◌, arith, unwrap_or, length, keep,
}
use aurum_presenter.Prelude.Text.{Str, str_eq, str_eq_refl}
use aurum_presenter.Prelude.Int.{ℤ}
use aurum_presenter.Prelude.Dict.{lookup, lookup-insert}
use aurum_presenter.Api.Relay.{Rooms, is_recent, recent_of, allow_attempt}

-- The handshakes that are remembered of a user.
abbrev pub attempts_of : {Peer : Type 0} → Str → Rooms Peer → List ℤ
attempts_of user rooms = unwrap_or (lookup user rooms.attempts) []

-- An attempt is refused exactly where the user has made more than twenty in the last minute, this
-- one included; what is remembered of the user is this attempt and those of the last minute, and
-- nothing changes for another user or for the rooms.
pub allow_attempt_lem :
    {Peer : Type 0} (user other : Str) (now : ℤ) (rooms : Rooms Peer)
    → (((allow_attempt user now rooms).0 ≡ true)
        ↔ (length (attempts_of user (allow_attempt user now rooms).1) ≤ 20))
      × (attempts_of user (allow_attempt user now rooms).1
          ≡ keep (is_recent now) (attempts_of user rooms) ++ (now ∷ []))
      × (str_eq user other ≡ false
          → attempts_of other (allow_attempt user now rooms).1 ≡ attempts_of other rooms)
      × ((allow_attempt user now rooms).1.open_rooms ≡ rooms.open_rooms)
unfolding allow_attempt
allow_attempt_lem user other now rooms =
    rw (lookup-insert user user (recent_of user now rooms) rooms.attempts, str_eq_refl user)
      (
        ground arith,
        refl,
        λ e. rw (lookup-insert other user (recent_of user now rooms) rooms.attempts, e) refl,
        refl,
      )
