-- ===== src/Sync/Merge/Conflicts.antt =====
-- Nothing is silently destroyed: the conflicts that `plan` records are exactly the stored values
-- that its write displaces on a row that moved on.
use aurum_presenter.Prelude.{
  ◌≡◌, refl, sym, ap, ◌∙◌, subst, ◌≢◌, ◌↔◌, ◌⊎◌, inl, inr, true, false, Option, none, some, List,
  [], ◌∷◌, arith, Bool-cases, Bool, not,
}
use aurum_presenter.Prelude.Text.{Str, str_eq, str_eq-true, str_eq_iff, str_ltb}
use mathlib.Core.List.{Memᴰ}
use aurum_presenter.Sync.Json.{Value, Fields}
use aurum_presenter.Sync.Merge.{
  Op, upsert, Existing, Conflict, update, as_text, not_moved, current_of, displaced, conflicts,
  writable, plan,
}

-- The row was written after the time that the client claims.
abbrev pub moved_on : Option Str → Str → Bool
moved_on none updated_at = false
moved_on (some base) updated_at = str_ltb base updated_at

module _ {Number Structured : Type 0} (number_text : Number → Str)
    (json_text : Structured → Str) where
  abbrev text : Value Number Structured → Str
  text = as_text number_text json_text

  -- The record that keeps what a write to `field` displaces.
  abbrev pub kept : Existing (Value Number Structured) → Str → Conflict (Value Number Structured)
  kept existing field = record {
    field = field;
    losing_value = current_of number_text json_text existing field;
    losing_user = existing.updated_by;
  }

  -- One field of the payload: whether its conflict is recorded in front of the others'.
  recorded :
      (existing : Existing (Value Number Structured)) (f : Str) (v : Value Number Structured)
      (payload : Fields (Value Number Structured))
      → ((text (current_of number_text json_text existing f) ≡ text v)
          × (displaced number_text json_text existing ((f, v) ∷ payload)
              ≡ displaced number_text json_text existing payload))
        ⊎ ((text (current_of number_text json_text existing f) ≢ text v)
            × (displaced number_text json_text existing ((f, v) ∷ payload)
                ≡ kept existing f ∷ displaced number_text json_text existing payload))
  unfolding displaced
  recorded existing f v payload =
      let now = as_text number_text json_text (current_of number_text json_text existing f) in
      let new = as_text number_text json_text v in
      elim (Bool-cases (str_eq now new)) [
        | inl same ↦ inl (str_eq-true now new same, rw same)
        | inr differ ↦ inr (str_ne now new differ, rw differ)
      ]
    where
      str_ne : (s t : Str) → str_eq s t ≡ false → s ≢ t
      str_ne s t h e = ground (arith, str_eq_iff s t)

  displaced_complete :
      (existing : Existing (Value Number Structured)) (payload : Fields (Value Number Structured))
      (field : Str) (incoming : Value Number Structured)
      → Memᴰ (field, incoming) payload
      → text (current_of number_text json_text existing field) ≢ text incoming
      → Memᴰ (kept existing field) (displaced number_text json_text existing payload)
  displaced_complete existing [] field incoming m n = elim m [ ]
  displaced_complete existing ((f, v) ∷ payload) field incoming (Memᴰ.head e) n =
      elim (recorded existing f v payload) [
        | inl (same, _) ↦ absurd (
            n (
              ap (λ p. text (current_of number_text json_text existing p.0)) e
              ∙ same
              ∙ sym (ap (λ p. text p.1) e)))
        | inr (_, list) ↦ rw list (Memᴰ.head (ap (λ p. kept existing p.0) e))
      ]
  displaced_complete existing ((f, v) ∷ payload) field incoming (Memᴰ.tail m) n =
      let ih = displaced_complete existing payload field incoming m n in
      elim (recorded existing f v payload) [
        | inl (_, list) ↦ rw list ih
        | inr (_, list) ↦ rw list (Memᴰ.tail ih)
      ]

  -- What a recorded conflict says.
  abbrev pub Displaces :
      Existing (Value Number Structured)
      → Fields (Value Number Structured)
      → Conflict (Value Number Structured)
      → Type 0
  Displaces existing payload c =
      (incoming : Value Number Structured) × (Memᴰ (c.field, incoming) payload)
      × (c ≡ kept existing c.field)
      × (text (current_of number_text json_text existing c.field) ≢ text incoming)

  further :
      (existing : Existing (Value Number Structured)) (p : Str × Value Number Structured)
      (payload : Fields (Value Number Structured)) (c : Conflict (Value Number Structured))
      → Displaces existing payload c
      → Displaces existing (p ∷ payload) c
  further existing p payload c (v, m, e, n) = (v, Memᴰ.tail m, e, n)

  displaced_sound :
      (existing : Existing (Value Number Structured)) (payload : Fields (Value Number Structured))
      (c : Conflict (Value Number Structured))
      → Memᴰ c (displaced number_text json_text existing payload)
      → Displaces existing payload c
  displaced_sound existing [] c m = unfold displaced in elim m [ ]
  displaced_sound existing ((f, v) ∷ payload) c m = elim (recorded existing f v payload) [
    | inl (_, list) ↦
        further existing (f, v) payload c (displaced_sound existing payload c (rw list at m))
    | inr (differ, list) ↦
        first c (displaced number_text json_text existing payload)
          (displaced_sound existing payload c) differ (rw list at m)
  ]
    where
      first :
          (c : Conflict (Value Number Structured))
          (rest : List (Conflict (Value Number Structured)))
          → (Memᴰ c rest → Displaces existing payload c)
          → text (current_of number_text json_text existing f) ≢ text v
          → Memᴰ c (kept existing f ∷ rest)
          → Displaces existing ((f, v) ∷ payload) c
      first c rest ih differ (Memᴰ.head e) =
          subst (λ d. Displaces existing ((f, v) ∷ payload) d) (sym e)
            (v, Memᴰ.head refl, refl, differ)
      first c rest ih differ (Memᴰ.tail m) = further existing (f, v) payload c (ih m)

  plan_live :
      (op : Op (Value Number Structured)) (row : Existing (Value Number Structured))
      → op.kind ≡ upsert
      → row.deleted_at ≡ none
      → ((plan number_text json_text op (some row)).conflicts
          ≡ conflicts number_text json_text
              (writable number_text json_text op)
              op.base_updated_at
              row)
        × ((plan number_text json_text op (some row)).action
            ≡ update (writable number_text json_text op))
  unfolding plan
  plan_live op row k d = (ground arith, ground arith)

  not_moved_lem :
      (base : Option Str) (row : Existing (Value Number Structured))
      → not_moved number_text json_text base row ≡ not (moved_on base row.updated_at)
  unfolding not_moved
  not_moved_lem none row = refl
  not_moved_lem (some base) row = refl

  conflicts_moved :
      (base : Option Str) (row : Existing (Value Number Structured))
      (payload : Fields (Value Number Structured))
      → ((moved_on base row.updated_at ≡ false)
          × (conflicts number_text json_text payload base row ≡ []))
        ⊎ ((moved_on base row.updated_at ≡ true)
            × (conflicts number_text json_text payload base row
                ≡ displaced number_text json_text row payload))
  unfolding conflicts
  conflicts_moved base row payload = elim (Bool-cases (moved_on base row.updated_at)) [
    | inl moved ↦ inr (moved, rw (not_moved_lem base row, moved) refl)
    | inr still ↦ inl (still, rw (not_moved_lem base row, still) refl)
  ]

  -- An upsert of a live row writes every column of the payload that the table accepts. If the client
  -- claims a base, and the row was written after it, the conflicts recorded are exactly, for each field
  -- whose stored value differs as text from the one arriving, that stored value with who wrote it;
  -- otherwise there are none.
  pub plan_conflicts :
      (op : Op (Value Number Structured)) (row : Existing (Value Number Structured))
      → op.kind ≡ upsert
      → row.deleted_at ≡ none
      → ((plan number_text json_text op (some row)).action
          ≡ update (writable number_text json_text op))
        × (((moved_on op.base_updated_at row.updated_at ≡ false)
              × ((plan number_text json_text op (some row)).conflicts ≡ []))
            ⊎ ((moved_on op.base_updated_at row.updated_at ≡ true)
                × ((c : Conflict (Value Number Structured))
                    → (Memᴰ c (plan number_text json_text op (some row)).conflicts
                        ↔ Displaces row (writable number_text json_text op) c))))
  plan_conflicts op row k d =
      let (same, action) = plan_live op row k d in
      (
        action,
        rw same (elim (conflicts_moved op.base_updated_at row (writable number_text json_text op)) [
          | inl (still, none_there) ↦ inl (still, none_there)
          | inr (moved, all_there) ↦ inr (moved, λ c. rw all_there (exactly c))
        ]),
      )
    where
      exactly :
          (c : Conflict (Value Number Structured))
          → Memᴰ c (displaced number_text json_text row (writable number_text json_text op))
            ↔ Displaces row (writable number_text json_text op) c
      exactly c = (
        displaced_sound row (writable number_text json_text op) c,
        λ (v, m, e, n).
            subst
              (λ x.
                Memᴰ x (displaced number_text json_text row (writable number_text json_text op)))
              (sym e) (displaced_complete row (writable number_text json_text op) c.field v m n),
      )
