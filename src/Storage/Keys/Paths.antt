-- ===== src/Storage/Keys/Paths.antt =====
-- The hash that a key of keys.rs carries is the one it was made from.
use aurum_presenter.Prelude.{
  ℕ, ◌<◌, ◌≡◌, refl, ◌∙◌, inl, inr, Bool, true, false, ◌&&◌, none, some, List, [], ◌∷◌, ◌++◌, map,
  arith, ◌==◌, Bool-cases, Option-cases, length, all, All, All-append,
}
use aurum_presenter.Prelude.Text.{Str, codes, str_eq, ascii_lower}
use aurum_presenter.Storage.Keys.{
  after_last, before_last, is_hex_digit, is_valid_sha256, sheet_key, asset_key, extension_for,
  hash_of, extension_in, asset_types,
}

-- What the code relies on: lower-casing changes an ASCII text letter by letter.
abbrev pub LowerAscii : (Str → Str) → Type 0
LowerAscii to_lowercase = (s : Str) → All (λ c. c < 128) s → to_lowercase s ≡ map ascii_lower s

abbrev Free : ℕ → Str → Type 0
Free mark s = All (λ c. (c == mark) ≡ false) s

after_last-Free : (mark : ℕ) (s : Str) → Free mark s → after_last mark s ≡ none
unfolding after_last
after_last-Free mark [] h = refl
after_last-Free mark (c ∷ s) (n, h) = rw (after_last-Free mark s h, n) refl

after_last-append :
    (mark : ℕ) (s t : Str) → Free mark t → after_last mark (s ++ (mark ∷ t)) ≡ some t
unfolding after_last
after_last-append mark [] t h =
    rw (after_last-Free mark t h) (let e : (mark == mark) ≡ true = ground arith in rw e refl)
after_last-append mark (c ∷ s) t h = rw (after_last-append mark s t h) refl

before_last-Free : (mark : ℕ) (s : Str) → Free mark s → before_last mark s ≡ none
unfolding before_last
before_last-Free mark [] h = refl
before_last-Free mark (c ∷ s) (n, h) = rw (before_last-Free mark s h, n) refl

before_last-append :
    (mark : ℕ) (s t : Str) → Free mark t → before_last mark (s ++ (mark ∷ t)) ≡ some s
unfolding before_last
before_last-append mark [] t h =
    rw (before_last-Free mark t h) (let e : (mark == mark) ≡ true = ground arith in rw e refl)
before_last-append mark (c ∷ s) t h = rw (before_last-append mark s t h) refl

-- A lower-case hexadecimal digit.
abbrev Hash : Str → Type 0
Hash s = All (λ c. (is_hex_digit c ≡ true) × (ascii_lower c ≡ c)) s

hex :
    (c : ℕ)
    → is_hex_digit c ≡ true
    → (c < 128)
      × (is_hex_digit (ascii_lower c) ≡ true)
      × (ascii_lower (ascii_lower c) ≡ ascii_lower c)
unfolding ascii_lower
hex c h = ground arith

both : (a b : Bool) → (a && b) ≡ true → (a ≡ true) × (b ≡ true)
both a b h = ground arith

lower-Hash : (s : Str) → all is_hex_digit s ≡ true → All (λ c. c < 128) s × Hash (map ascii_lower s)
lower-Hash [] h = (tt, tt)
lower-Hash (c ∷ s) h =
    let (d, ds) = both (is_hex_digit c) (all is_hex_digit s) h in
    let (l, r, q) = hex c d in let (ls, rs) = lower-Hash s ds in ((l, ls), ((r, q), rs))

no_slash : (c : ℕ) → is_hex_digit c ≡ true → (c == b'/') ≡ false
no_slash c h = ground arith

Hash-Free : (s : Str) → Hash s → (Free b'/' s × (map ascii_lower s ≡ s)) × All (λ c. c < 128) s
Hash-Free [] h = ((tt, refl), tt)
Hash-Free (c ∷ s) ((d, e), hs) =
    let ((f, q), l) = Hash-Free s hs in (((no_slash c d, f), cc), ((hex c d).0, l))

Free-append : (mark : ℕ) (s t : Str) → Free mark s → Free mark t → Free mark (s ++ t)
Free-append mark s t = All-append (λ c. (c == mark) ≡ false) s t

-- The name of a file is its hash, under any directory and extension.
hash_of-name :
    (to_lowercase : Str → Str) (dir hash extension : Str)
    → LowerAscii to_lowercase
    → Hash hash
    → Free b'/' extension × Free b'.' extension
    → hash_of to_lowercase (dir ++ (b'/' ∷ (hash ++ (b'.' ∷ extension)))) ≡ hash
unfolding hash_of
hash_of-name to_lowercase dir hash extension low h (slash, dot) =
    let ((f, q), l) = Hash-Free hash h in
    rw
      (
        after_last-append b'/' dir (hash ++ (b'.' ∷ extension))
            (Free-append b'/' hash (b'.' ∷ extension) f (refl, slash)),
        before_last-append b'.' hash extension dot,
      )
      (low hash l ∙ q)

valid-Hash :
    (to_lowercase : Str → Str) (sha256 : Str)
    → LowerAscii to_lowercase
    → is_valid_sha256 sha256 ≡ true
    → Hash (to_lowercase sha256)
unfolding is_valid_sha256
valid-Hash to_lowercase sha256 low v =
    let (l, h) = lower-Hash sha256 (both (length sha256 == 64) (all is_hex_digit sha256) v).1 in
    rw (low sha256 l) h

-- The key of a sheet carries the content hash of the sheet, in lower case, whatever the workspace
-- is called.
pub hash_of-sheet_key :
    (to_lowercase : Str → Str) (workspace_id sha256 : Str)
    → LowerAscii to_lowercase
    → is_valid_sha256 sha256 ≡ true
    → hash_of to_lowercase (sheet_key to_lowercase workspace_id sha256) ≡ to_lowercase sha256
unfolding sheet_key
hash_of-sheet_key to_lowercase workspace_id sha256 low v =
    hash_of-name to_lowercase (codes "sheets/" ++ workspace_id) (to_lowercase sha256) (codes "pdf")
      low (valid-Hash to_lowercase sha256 low v)
      ((refl, (refl, (refl, tt))), (refl, (refl, (refl, tt))))

extension_known :
    (to_lowercase : Str → Str) (content_type : Str) (table : List (Str × Str)) (extension : Str)
    → All (λ x. Free b'/' x.1 × Free b'.' x.1) table
    → extension_in to_lowercase content_type table ≡ some extension
    → Free b'/' extension × Free b'.' extension
extension_known low content_type [] extension h e = cc
extension_known low content_type ((mime, ext) ∷ more) extension (f, h) e =
    elim (Bool-cases (str_eq mime content_type)) [
      | inl is ↦
          (let here : some ext ≡ some extension = rw is at e in
            let same : ext ≡ extension = cc in rw (← same) f)
      | inr un ↦ extension_known low content_type more extension h (rw un at e)
    ]

extension-Free :
    (to_lowercase : Str → Str) (content_type extension : Str)
    → extension_for to_lowercase content_type ≡ some extension
    → Free b'/' extension × Free b'.' extension
unfolding extension_for
extension-Free low content_type extension e =
    extension_known low (low content_type) asset_types extension
      ((
        ((refl, (refl, (refl, tt))), (refl, (refl, (refl, tt)))),
        (
          ((refl, (refl, (refl, tt))), (refl, (refl, (refl, tt)))),
          (
            ((refl, (refl, (refl, (refl, tt)))), (refl, (refl, (refl, (refl, tt))))),
            (((refl, (refl, (refl, (refl, tt)))), (refl, (refl, (refl, (refl, tt))))), tt),
          ),
        ),
      ))
      e

-- The key of a background carries its content hash, in lower case, for every content type that has
-- one.
pub hash_of-asset_key :
    (to_lowercase : Str → Str) (workspace_id sha256 content_type key : Str)
    → LowerAscii to_lowercase
    → is_valid_sha256 sha256 ≡ true
    → asset_key to_lowercase workspace_id sha256 content_type ≡ some key
    → hash_of to_lowercase key ≡ to_lowercase sha256
unfolding asset_key extension_for
hash_of-asset_key to_lowercase workspace_id sha256 content_type key low v e =
    elim (Option-cases (extension_for to_lowercase content_type)) [
      | inl un ↦ (let absurd : none ≡ some key = rw un at e in cc)
      | inr (ext, is) ↦ named ext is (rw is at e)
    ]
  where
    named :
        (ext : Str)
        → extension_for to_lowercase content_type ≡ some ext
        → some (
            codes "assets/"
            ++ (workspace_id ++ (codes "/" ++ (to_lowercase sha256 ++ (codes "." ++ ext)))))
          ≡ some key
        → hash_of to_lowercase key ≡ to_lowercase sha256
    named ext is q =
        let same : (codes "assets/"
              ++ (workspace_id ++ (codes "/" ++ (to_lowercase sha256 ++ (codes "." ++ ext)))))
            ≡ key =
          cc in
        rw (← same) (
          hash_of-name to_lowercase (codes "assets/" ++ workspace_id) (to_lowercase sha256) ext low
            (valid-Hash to_lowercase sha256 low v)
            (extension-Free to_lowercase content_type ext is))
