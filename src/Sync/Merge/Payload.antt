-- ===== src/Sync/Merge/Payload.antt =====
-- What `plan` writes: only columns of the allowlist, structured values as text, and one default
-- arrangement for a song.
use aurum_presenter.Prelude.{
  ◌≡◌, refl, ◌∙◌, ◌≢◌, ◌⊎◌, inl, inr, Bool, true, false, not, Option, none, some, [], ◌∷◌, arith,
  if◌then◌else◌, Bool-cases,
}
use aurum_presenter.Prelude.Text.{Str, codes, str_eq, str_eq-true}
use mathlib.Core.Option
use aurum_presenter.Sync.Json.{
  Value, structured, null, bool, number, string, Fields, get, get-map_fields, map_fields, string,
  bool, number,
}
use aurum_presenter.Sync.Schema.{allowed, filter, contains, sync_columns}
use aurum_presenter.Sync.Schema.Allowed.{get-filter, owned_column}
use aurum_presenter.Sync.Merge.{
  Op, Existing, insert, update, as_text, encode_value, writable, demoted_song, song_id_of, or_else,
  plan, ◌>>=◌, song_of,
}

if-map :
    {A B : Type 0} (f : A → B) (b : Bool) (o : Option A)
    → Option.map f (if b then o else none) ≡ (if b then Option.map f o else none)
if-map f true o = refl
if-map f false o = refl

module _ {Number Structured : Type 0} (number_text : Number → Str)
    (json_text : Structured → Str) where
  writable_lem :
      (op : Op (Value Number Structured))
      → writable number_text json_text op
        ≡ map_fields (encode_value number_text json_text) (filter op.table op.payload)
  unfolding writable
  writable_lem op = refl

  -- What is written to a column is the value sent for it, a structured one as its JSON text, if the
  -- table lists the column; no other column is written.
  pub get-writable :
      (op : Op (Value Number Structured)) (name : Str)
      → get name (writable number_text json_text op) ≡ (
          if allowed op.table name
          then Option.map (encode_value number_text json_text) (get name op.payload)
          else none)
  get-writable op name = rw (writable_lem op) (
      get-map_fields (encode_value number_text json_text) name (filter op.table op.payload)
      ∙ rw (get-filter op.table name op.payload) (
          if-map (encode_value number_text json_text) (allowed op.table name)
            (get name op.payload)))

  insert_inj : (a b : Fields (Value Number Structured)) → insert a ≡ insert b → b ≡ a
  insert_inj a b h = cc

  written_lem :
      (op : Op (Value Number Structured)) (row : Option (Existing (Value Number Structured)))
      (written : Fields (Value Number Structured))
      → ((plan number_text json_text op row).action ≡ insert written)
        ⊎ ((plan number_text json_text op row).action ≡ update written)
      → written ≡ writable number_text json_text op
  unfolding plan
  written_lem op none written h = ground arith
  written_lem op (some row) written h = ground arith

  -- Whether it creates the row or updates it, and whatever was pushed, a plan writes no column that
  -- the server owns.
  pub plan_owned :
      (op : Op (Value Number Structured)) (row : Option (Existing (Value Number Structured)))
      (written : Fields (Value Number Structured)) (name : Str)
      → contains sync_columns name ≡ true
      → ((plan number_text json_text op row).action ≡ insert written)
        ⊎ ((plan number_text json_text op row).action ≡ update written)
      → get name written ≡ none
  plan_owned op row written name owned h =
      rw (written_lem op row written h, get-writable op name)
        (rw (owned_column op.table name owned))

  song_id_of_named :
      (v : Value Number Structured) (id : Str)
      → song_id_of number_text json_text v ≡ some id
      → id ≢ []
  unfolding song_id_of
  song_id_of_named (string []) id h e = cc
  song_id_of_named (string (c ∷ s)) id h e = cc
  song_id_of_named null id h e = cc
  song_id_of_named (bool b) id h e = cc
  song_id_of_named (number n) id h e = cc
  song_id_of_named (structured s) id h e = cc

  song_of_named :
      (payload : Fields (Value Number Structured))
      (row : Option (Existing (Value Number Structured))) (id : Str)
      → song_of number_text json_text payload row ≡ some id
      → id ≢ []
  unfolding song_of
  song_of_named payload row id h =
      bound (or_else (get (codes "song_id") payload) (row >>= λ r. get (codes "song_id") r.fields))
        h
    where
      bound :
          (o : Option (Value Number Structured))
          → (o >>= song_id_of number_text json_text) ≡ some id
          → id ≢ []
      bound none k = λ e. cc
      bound (some v) k = song_id_of_named v id k

  chain :
      (t : Bool) (o : Option (Value Number Structured)) (s : Option Str) (id : Str)
      → (if not t
          then none
          else (o >>= λ flag.
              if not (str_eq (as_text number_text json_text flag) (codes "1")) then none else s))
        ≡ some id
      → (t ≡ true)
        × ((flag : Value Number Structured) × (o ≡ some flag)
            × (as_text number_text json_text flag ≡ codes "1"))
        × (s ≡ some id)
  chain false o s id h = cc
  chain true none s id h = cc
  chain true (some flag) s id h =
      let now = as_text number_text json_text flag in
      elim (Bool-cases (str_eq now (codes "1"))) [
        | inl one ↦ (refl, (flag, refl, str_eq-true now (codes "1") one), (rw one at h))
        | inr other ↦ (let gone : ◌≡◌ {A = Option Str} none (some id) = rw other at h in cc)
      ]

  -- A plan that demotes the other defaults of a song is for an arrangement that becomes the default,
  -- and the song, which has a name, is the one that the payload gives, or else the stored row.
  pub demoted_song_lem :
      (table id : Str) (payload : Fields (Value Number Structured))
      (row : Option (Existing (Value Number Structured)))
      → demoted_song number_text json_text table payload row ≡ some id
      → (table ≡ codes "arrangements")
        × ((flag : Value Number Structured) × (get (codes "is_default") payload ≡ some flag)
            × (as_text number_text json_text flag ≡ codes "1"))
        × (song_of number_text json_text payload row ≡ some id)
        × (id ≢ [])
  unfolding demoted_song
  demoted_song_lem table id payload row h =
      let (t, flag, song) =
        chain (str_eq table (codes "arrangements")) (get (codes "is_default") payload)
          (song_of number_text json_text payload row) id h in
      (str_eq-true table (codes "arrangements") t, flag, song, song_of_named payload row id song)
