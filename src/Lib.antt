-- ===== src/Lib.antt =====
-- The rules of Aurum Presenter, a chart library and a presenter for bands: the core that its server
-- and its web client share, the synchronisation between the two, and the signalling relay of the
-- server. Each module models one source file, with the names of its functions.
--
-- * Sets/Rank models crates/core/src/sets/rank.rs: an item of a set list is ordered by a text, its
--   rank, and a new rank is grown between two neighbours. The loop takes len low + len high + 2
--   rounds of fuel, `rounds`; a run that used them up would be the outcome `unreachable`.
-- * Chart/Notes, Chart/Chord and Chart/EffectiveKey model crates/core/src/chart/notes.rs, chord.rs and
--   effective_key.rs: notes, keys, chords, transposition, and the key that a chart is shown in. A
--   pitch is a number of the octave. An alteration is an exact integer where the source has an i8,
--   and a pitch where it has an i16. `is_quality` takes one round of fuel more than the text is
--   long, and each round eats a character.
-- * Present/Session and Present/Pairing model crates/core/src/present/session.rs: the state that every
--   screen renders from, the moves of the operator, and the code that pairs two devices. A slide,
--   the snapshot and the theme are type parameters, since no move looks inside them. Times are exact
--   integers where the source has an i64, and so is the revision where it has a u64.
-- * Chart/ChordPro, with its Segments and Body, models the parser in crates/core/src/chart/chordpro.rs. A
--   line is read in one walk over its characters, where the source searches for the next bracket.
--   Chart/Render models crates/core/src/chart/render.rs, and Chart/OverLyrics models over_lyrics.rs.
-- * Present/Slides models the splitting of a section in crates/core/src/present/slides.rs. The loop
--   takes one round more than there are lines. Present/Repeats and Present/Texts model its sections
--   that repeat an earlier one, their labels, and the splitting of plain text, and Present/Snapshot
--   the way from a set to its slides. How many lines fit on a slide is an argument there.
-- * Library/Validation and Library/Importer model crates/core/src/library/validation.rs and importer.rs.
--   The walk over the folders takes as many rounds as there are folders and two more.
-- * Sync/Json, Sync/Schema and Sync/Merge model crates/core/src/sync/schema.rs and merge.rs: the columns
--   that a client may write, and what one operation of its outbox does to one row. The types of JSON
--   numbers and of arrays and objects, and the texts that serde_json prints for them, are parameters.
-- * Sheets/Selection models crates/core/src/sheets/selection.rs: the sheet that a musician gets for a
--   key and a part. It reads keys by Chart/Notes. Of crates/core/src/blobs/policy.rs, Blobs/Policy models the
--   sheets that a device wants, by that choice, and Blobs/Pins the sets and songs that it keeps on
--   purpose, with the dates of Time.
-- * Storage/Keys models crates/core/src/storage/keys.rs: content-addressed keys, and the files that are
--   swept. Rust's to_lowercase is a parameter, of which the theorems ask what it does to ASCII; so
--   is to_uppercase in Present/Pairing.
-- * Api/Relay models the state of crates/api/src/signal.rs: the rooms in which two devices find each
--   other, and the rate limit. Each function that takes the lock is a step on the state; a sweep,
--   which takes it once to read the expired codes and once to close each, is one step, with nothing in
--   between. It also has the code in a request's path and the check of a message, with serde_json's
--   reading a parameter.
-- * Api/Store, Api/Request, Api/Push and Api/Pull model crates/api/src/handlers/sync.rs, with the batch
--   of crates/api/src/db.rs: the checks of an operation, what it does to the tables by the plan of
--   Sync/Merge, a batch of them, and the rows that a pull brings. A table is a list of rows, and a
--   statement replaces it by what it makes of it, or fails: which tables SQLite admits, and the
--   defaults of columns, are a parameter, as serde_json is. Ids models crates/core/src/ids.rs,
--   and Time models crates/core/src/time.rs.
-- * Web/Outbox and Web/Engine model crates/web/src/sync/engine.rs: the stores of a device, a local change,
--   the drain of the outbox and the loop of a pull, which is proved to end on two rounds of fuel. The
--   answers of the server, the time and fresh ids are arguments. Web/Engine/Pulls runs that loop
--   against Api/Pull.
-- * Prelude has what the parts share: tests on numbers, texts as lists of code points, integers, lists,
--   and the maps of the standard library as association lists (Prelude/Dict).
-- * Examples applies the theorems at concrete inputs and runs the models.
--
-- Not modelled: search; the sockets of the server, its other HTTP handlers and its queries, which are
-- calls of libraries around these rules; the pages and the file cache of the web client; the theme of a
-- presenter and lines_per_slide, which use floating point.
pub mod Prelude
pub mod Sets
pub mod Chart
pub mod Present
pub mod Sync
pub mod Sheets
pub mod Storage
pub mod Blobs
pub mod Api
pub mod Examples
pub mod Ids
pub mod Web
pub mod Time
pub mod Library
