-- ===== src/Library/Importer/Outcomes.antt =====
-- What comes of an import, after `import_file` of crates/core/src/library/importer.rs.
use aurum_presenter.Prelude.{
  ◌≢◌, ◌≡◌, refl, sym, ap, ◌∙◌, subst, ◌⊎◌, inl, inr, true, false, not, Option, none, some, ◌++◌,
  if◌then◌else◌, Bool-cases, unwrap_or, take, any, all,
}
use aurum_presenter.Prelude.Text.{Str, codes, is_empty, trim}
use aurum_presenter.Library.Importer.Texts.{is_plain, is_blank_text, odd_lem, blank_lem}
use aurum_presenter.Chart.ChordPro.{Chart, ChartError}
use aurum_presenter.Chart.ChordPro.Body.{parse}
use aurum_presenter.Chart.OverLyrics.{
  Notation, chord_pro, over_lyrics, ambiguous, detect_notation, to_chord_pro,
}
use aurum_presenter.Library.Importer.{
  ImportedSong, ImportResult, is_odd_control, body_of, failed, song_of, titled, charted,
  title_from_filename, import_file, decimal,
}

-- The title that a chart has, or that is taken from the name of its file.
abbrev pub given_title : Str → Chart → Str
given_title filename chart = unwrap_or chart.meta.title (title_from_filename filename)

-- A song that is made of a text: the text has letters and looks like a text, what is kept as the body
-- is read as a chart again, with the fields of the song, and no text is lost.
abbrev pub Imported : Str → Str → ImportedSong → Type 0
Imported filename text song =
    (is_blank_text text ≡ false)
    × (all is_plain (take 2_000 text) ≡ true)
    × ((parse song.body).error ≡ none)
    × (is_empty song.title ≡ false)
    × (song.title ≡ trim (given_title filename (parse song.body)))
    × (song.artist ≡ (parse song.body).meta.artist)
    × (song.time_signature ≡ (parse song.body).meta.time)
    × (((detect_notation text ≡ chord_pro)
          × (song.source_notation ≡ chord_pro)
          × (song.body ≡ text)
          × (song.source_text ≡ none))
        ⊎ ((detect_notation text ≢ chord_pro)
            × (song.source_notation ≡ over_lyrics)
            × (song.body ≡ to_chord_pro text)
            × (song.source_text ≡ some text)))

-- Why a text is refused, in the words of the sentence.
abbrev pub Refused : Str → Str → Str → Type 0
Refused filename text sentence =
    ((is_blank_text text ≡ true) × (sentence ≡ codes "The file is empty."))
    ⊎ (((all is_plain (take 2_000 text) ≡ false) × (sentence ≡ codes "This is not a text file."))
        ⊎ (((error : ChartError) × ((parse (body_of text)).error ≡ some error)
              × (sentence ≡ codes "Line " ++ decimal error.line ++ codes ": " ++ error.message))
            ⊎ ((is_blank_text (given_title filename (parse (body_of text))) ≡ true)
                × (sentence
                    ≡ codes "No title in the file, and none could be taken from its name."))))

abbrev pub Outcome : Str → Str → ImportResult → Type 0
Outcome filename text result =
    ((song : ImportedSong) × (result
        ≡ record { filename = filename; song = some song; error = none })
      × Imported filename text song)
    ⊎ ((sentence : Str) × (result
          ≡ record { filename = filename; song = none; error = some sentence })
        × Refused filename text sentence)

module _ (filename text : Str) where
  -- The body and its source, by the notation.
  kept_text :
      let song =
        song_of text (given_title filename (parse (body_of text))) (parse (body_of text)) in
      ((detect_notation text ≡ chord_pro)
        × (song.source_notation ≡ chord_pro)
        × (song.body ≡ text)
        × (song.source_text ≡ none))
      ⊎ ((detect_notation text ≢ chord_pro)
          × (song.source_notation ≡ over_lyrics)
          × (song.body ≡ to_chord_pro text)
          × (song.source_text ≡ some text))
  unfolding body_of
  kept_text = by_notation (detect_notation text) refl
    where
      by_notation :
          (notation : Notation)
          → detect_notation text ≡ notation
          → let song =
              song_of text (given_title filename (parse (body_of text))) (parse (body_of text)) in
            ((detect_notation text ≡ chord_pro)
              × (song.source_notation ≡ chord_pro)
              × (song.body ≡ text)
              × (song.source_text ≡ none))
            ⊎ ((detect_notation text ≢ chord_pro)
                × (song.source_notation ≡ over_lyrics)
                × (song.body ≡ to_chord_pro text)
                × (song.source_text ≡ some text))
      by_notation chord_pro e = inl (e, rw e refl, rw e refl, rw e refl)
      by_notation over_lyrics e = inr (
        λ f. (let bad : chord_pro ≡ over_lyrics = sym f ∙ e in cc),
        rw e refl,
        rw e refl,
        rw e refl,
      )
      by_notation ambiguous e = inr (
        λ f. (let bad : chord_pro ≡ ambiguous = sym f ∙ e in cc),
        rw e refl,
        rw e refl,
        rw e refl,
      )

  titled_outcome :
      is_blank_text text ≡ false
      → all is_plain (take 2_000 text) ≡ true
      → (parse (body_of text)).error ≡ none
      → Outcome filename text (
          titled filename text (given_title filename (parse (body_of text))) (parse (body_of text)))
  titled_outcome h k l =
      let title = given_title filename (parse (body_of text)) in
      elim (Bool-cases (is_empty (trim title))) [
        | inl untitled ↦ inr (
          codes "No title in the file, and none could be taken from its name.",
          rw untitled refl,
          inr (inr (inr (sym (blank_lem title) ∙ untitled, refl))),
        )
        | inr named ↦ inl (
          song_of text title (parse (body_of text)),
          rw named refl,
          (h, k, l, named, refl, refl, refl, kept_text),
        )
      ]

  charted_outcome :
      is_blank_text text ≡ false
      → all is_plain (take 2_000 text) ≡ true
      → (error : Option ChartError) → (parse (body_of text)).error ≡ error
      → Outcome filename text (charted filename text (parse (body_of text)) error)
  charted_outcome h k none l = titled_outcome h k l
  charted_outcome h k (some error) l = inr (_, refl, inr (inr (inl (error, l, refl))))

  import_file_clauses : import_file filename text ≡ (
      if is_empty (trim text)
      then failed filename (codes "The file is empty.")
      else if any is_odd_control (take 2_000 text)
      then failed filename (codes "This is not a text file.")
      else charted filename text (parse (body_of text)) (parse (body_of text)).error)
  unfolding import_file
  import_file_clauses = refl

  of_plain :
      is_empty (trim text) ≡ false
      → all is_plain (take 2_000 text) ≡ true
      → import_file filename text
        ≡ charted filename text (parse (body_of text)) (parse (body_of text)).error
  of_plain filled plain =
      let even : any is_odd_control (take 2_000 text) ≡ false =
        odd_lem (take 2_000 text) ∙ ap (λ b. not b) plain in
      rw (import_file_clauses, filled, even)

  of_odd :
      is_empty (trim text) ≡ false
      → all is_plain (take 2_000 text) ≡ false
      → import_file filename text ≡ failed filename (codes "This is not a text file.")
  of_odd filled odd =
      let found : any is_odd_control (take 2_000 text) ≡ true =
        odd_lem (take 2_000 text) ∙ ap (λ b. not b) odd in
      rw (import_file_clauses, filled, found)

  outcome_of :
      {result : ImportResult}
      → import_file filename text ≡ result
      → Outcome filename text result
      → Outcome filename text (import_file filename text)
  outcome_of e o = subst (Outcome filename text) (sym e) o

  -- An import either gives a song and no error, or no song and an error. A song has a title that is not
  -- empty, the one of its chart or the one taken from the name of the file; its body is read as a chart
  -- again without an error, with the artist and the time signature of the song; and the body is the
  -- text itself where that is ChordPro, while any other text is kept beside its conversion. A text is
  -- refused with the sentence for it if it is blank, if its first 2000 characters have a control
  -- character other than a tab or the end of a line, if its chart has an error, or if there is no title.
  pub import_file-Outcome : Outcome filename text (import_file filename text)
  import_file-Outcome = elim (Bool-cases (is_empty (trim text))) [
    | inl blank ↦
        outcome_of (rw (import_file_clauses, blank))
          (inr (codes "The file is empty.", refl, inl (sym (blank_lem text) ∙ blank, refl)))
    | inr filled ↦ elim (Bool-cases (all is_plain (take 2_000 text))) [
      | inr odd ↦
          outcome_of (of_odd filled odd)
            (inr (codes "This is not a text file.", refl, inr (inl (odd, refl))))
      | inl plain ↦
          outcome_of (of_plain filled plain) (
            charted_outcome (sym (blank_lem text) ∙ filled) plain (parse (body_of text)).error refl)
    ]
  ]
