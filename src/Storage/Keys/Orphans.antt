-- ===== src/Storage/Keys/Orphans.antt =====
-- Which files the sweep of keys.rs deletes, and that it deletes no file a row names.
use aurum_presenter.Prelude.{
  ◌≡◌, refl, sym, ap, subst, ◌↔◌, true, ◌&&◌, not, List, [], ◌∷◌, map, arith, keep, any,
}
use aurum_presenter.Prelude.Text.{Str, str_eq, str_eq_refl}
use aurum_presenter.Prelude.Int.{ℤ, ltb_ℤ}
use mathlib.Core.List.{Memᴰ}
use aurum_presenter.Prelude.Members.{keep_mem, mem_keep}
use aurum_presenter.Storage.Keys.{
  StoredObject, is_valid_sha256, sheet_key, hash_of, lower_all, is_orphan, orphans,
}
use aurum_presenter.Storage.Keys.Paths.{LowerAscii, hash_of-sheet_key}

abbrev key_of : StoredObject → Str
key_of o = o.key

map_mem :
    (key : Str) (os : List StoredObject)
    → Memᴰ key (map key_of os)
    → (o : StoredObject) × Memᴰ o os × (o.key ≡ key)
map_mem key [] m = elim m [ ]
map_mem key (o ∷ os) (Memᴰ.head e) = (o, Memᴰ.head refl, sym e)
map_mem key (o ∷ os) (Memᴰ.tail m) = let (p, n, e) = map_mem key os m in (p, Memᴰ.tail n, e)

mem_map : (o : StoredObject) (os : List StoredObject) → Memᴰ o os → Memᴰ o.key (map key_of os)
mem_map o [] m = elim m [ ]
mem_map o (p ∷ os) (Memᴰ.head e) = Memᴰ.head (ap key_of e)
mem_map o (p ∷ os) (Memᴰ.tail m) = Memᴰ.tail (mem_map o os m)

listed :
    (to_lowercase : Str → Str) (sha256 : Str) (referenced : List Str)
    → Memᴰ sha256 referenced
    → any (λ hash. str_eq hash (to_lowercase sha256)) (lower_all to_lowercase referenced) ≡ true
listed to_lowercase sha256 [] m = elim m [ ]
listed to_lowercase sha256 (r ∷ referenced) (Memᴰ.head e) =
    rw (e, str_eq_refl (to_lowercase r)) refl
listed to_lowercase sha256 (r ∷ referenced) (Memᴰ.tail m) =
    rw (listed to_lowercase sha256 referenced m) (ground arith)

-- A key is swept exactly where it is the key of a stored object that is older than the bound and
-- whose hash no row names.
pub orphans_lem :
    (to_lowercase : Str → Str) (objects : List StoredObject) (referenced : List Str) (before : ℤ)
    (key : Str)
    → Memᴰ key (orphans to_lowercase objects referenced before) ↔ (
        (o : StoredObject) × Memᴰ o objects
        × (o.key ≡ key)
        × (is_orphan to_lowercase referenced before o ≡ true))
unfolding orphans
orphans_lem to_lowercase objects referenced before key =
    (λ m. forth m, λ (o, m, e, p). back o m e p)
  where
    forth :
        Memᴰ key (map key_of (keep (is_orphan to_lowercase referenced before) objects))
        → (o : StoredObject) × Memᴰ o objects
          × (o.key ≡ key)
          × (is_orphan to_lowercase referenced before o ≡ true)
    forth m =
        let (o, n, e) = map_mem key (keep (is_orphan to_lowercase referenced before) objects) m in
        let (k, p) = keep_mem (is_orphan to_lowercase referenced before) objects o n in (o, k, e, p)

    back :
        (o : StoredObject)
        → Memᴰ o objects
        → o.key ≡ key
        → is_orphan to_lowercase referenced before o ≡ true
        → Memᴰ key (map key_of (keep (is_orphan to_lowercase referenced before) objects))
    back o m e p =
        subst (λ k. Memᴰ k (map key_of (keep (is_orphan to_lowercase referenced before) objects))) e
          (mem_map o (keep (is_orphan to_lowercase referenced before) objects)
            (mem_keep (is_orphan to_lowercase referenced before) objects o m p))

-- No sheet whose hash a row names is swept, in whatever case the row writes it.
pub orphans_referenced :
    (to_lowercase : Str → Str) (objects : List StoredObject) (referenced : List Str) (before : ℤ)
    (workspace_id sha256 : Str)
    → LowerAscii to_lowercase
    → is_valid_sha256 sha256 ≡ true
    → Memᴰ sha256 referenced
    → ¬ (
        Memᴰ
          (sheet_key to_lowercase workspace_id sha256)
          (orphans to_lowercase objects referenced before))
orphans_referenced to_lowercase objects referenced before workspace_id sha256 low v r m =
    let (o, k, e, p) =
      (orphans_lem to_lowercase objects referenced before
          (sheet_key to_lowercase workspace_id sha256)).0
        m in
    let hash : hash_of to_lowercase o.key ≡ to_lowercase sha256 =
      rw e (hash_of-sheet_key to_lowercase workspace_id sha256 low v) in
    let found = listed to_lowercase sha256 referenced r in
    let absurd : (not true && ltb_ℤ o.modified_ms before) ≡ true = rw (hash, found) at p in cc
