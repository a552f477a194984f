-- ===== src/Sync/Client/Marking.antt =====
-- The marking of the pending files after an upload.
use stardustfs.Prelude.{
  Text, Bool, true, false, List, [], ◌∷◌, map, ◌≡◌, refl, arith, ◌∙◌, ap, sym, subst, ◌==◌, nat_eq,
  text_eq, eq_refl, if◌then◌else◌, any, filter, All, Bool-cases, inl, inr, ◌||◌,
}
use stardustfs.Models.{FileMetadata, sync_status_beq, pending, synced}
use stardustfs.Table.{update_rows}
use stardustfs.Metadata.{Db, Row, mark, path_of, with_status}
use stardustfs.Metadata.Status.{get_pending_files}
use stardustfs.Sync.Client.{mark_synced}

-- What marking the files of a list does to one row.
abbrev touch : List FileMetadata → Row → Row
touch [] r = r
touch (m ∷ files) r = touch files (if path_of r == m.virtual_path then with_status synced r else r)

abbrev is_named : List FileMetadata → Row → Bool
is_named files r = any (λ m. path_of r == m.virtual_path) files

update_rows-eq-map :
    (p : Text) (f : Row → Row) (rows : List Row)
    → update_rows path_of p f rows ≡ map (λ r. if path_of r == p then f r else r) rows
unfolding update_rows
update_rows-eq-map p f [] = refl
update_rows-eq-map p f (r ∷ rows) = rw (update_rows-eq-map p f rows)

map-map : (f g : Row → Row) (rows : List Row) → map g (map f rows) ≡ map (λ r. g (f r)) rows
map-map f g [] = refl
map-map f g (r ∷ rows) = ap (λ l. g (f r) ∷ l) (map-map f g rows)

map_same : (rows : List Row) → rows ≡ map (λ r. r) rows
map_same [] = refl
map_same (r ∷ rows) = ap (λ l. r ∷ l) (map_same rows)

mark_synced-eq-map :
    (files : List FileMetadata) (db : Db)
    → (mark_synced files db).files ≡ map (touch files) db.files
unfolding mark_synced mark
mark_synced-eq-map [] db = map_same db.files
mark_synced-eq-map (m ∷ files) db =
    mark_synced-eq-map files (mark m.virtual_path synced db)
    ∙ rw (update_rows-eq-map m.virtual_path (with_status synced) db.files) (
        map-map (λ r. if path_of r == m.virtual_path then with_status synced r else r) (touch files)
          db.files)

abbrev IsSettled : Row → Type 0
IsSettled r = sync_status_beq r.sync_status pending ≡ false

-- A row that is not pending stays so, and a row of the list is not pending in the end.
IsSettled-if :
    (b : Bool) (r : Row) → IsSettled r → IsSettled (if b then with_status synced r else r)
unfolding sync_status_beq
IsSettled-if true r h = refl
IsSettled-if false r h = h

touch-IsSettled : (files : List FileMetadata) (r : Row) → IsSettled r → IsSettled (touch files r)
touch-IsSettled [] r h = h
touch-IsSettled (m ∷ files) r h =
    touch-IsSettled files (if path_of r == m.virtual_path then with_status synced r else r)
      (IsSettled-if (path_of r == m.virtual_path) r h)

touch_if :
    (b : Bool) (files : List FileMetadata) (r : Row)
    → (is_named files r ≡ true → IsSettled (touch files r))
    → b || is_named files r ≡ true
    → IsSettled (touch files (if b then with_status synced r else r))
unfolding sync_status_beq
touch_if true files r ih h = touch-IsSettled files (with_status synced r) refl
touch_if false files r ih h = ih h

touch_named :
    (files : List FileMetadata) (r : Row) → is_named files r ≡ true → IsSettled (touch files r)
touch_named [] r h = ground arith
touch_named (m ∷ files) r h = touch_if (path_of r == m.virtual_path) files r (touch_named files r) h

abbrev Covered : List FileMetadata → Row → Type 0
Covered files r = sync_status_beq r.sync_status pending ≡ true → is_named files r ≡ true

Covered-more :
    (m : FileMetadata) (files : List FileMetadata) (rows : List Row)
    → All (Covered files) rows
    → All (Covered (m ∷ files)) rows
Covered-more m files [] h = tt
Covered-more m files (r ∷ rows) h = ((λ e. ground (arith, h.0 e)), Covered-more m files rows h.1)

abbrev pending_of : List Row → List FileMetadata
pending_of rows =
    map (λ r. r.file) (filter (λ (r : Row). sync_status_beq r.sync_status pending) rows)

covered : (rows : List Row) → All (Covered (pending_of rows)) rows
covered [] = tt
covered (r ∷ rows) = elim (Bool-cases (sync_status_beq r.sync_status pending)) [
  | inl waiting ↦
      let e : pending_of (r ∷ rows) ≡ r.file ∷ pending_of rows = rw waiting refl in
      subst (λ files. All (Covered files) (r ∷ rows)) (sym e)
        (
          (λ e'. ground (arith, eq_refl (path_of r))),
          Covered-more r.file (pending_of rows) rows (covered rows),
        )
  | inr settled ↦
      let e : pending_of (r ∷ rows) ≡ pending_of rows = rw settled refl in
      subst (λ files. All (Covered files) (r ∷ rows)) (sym e)
        ((λ e'. ground (arith, settled, e')), covered rows)
]

touched_rows :
    (files : List FileMetadata) (rows : List Row)
    → All (Covered files) rows
    → pending_of (map (touch files) rows) ≡ []
touched_rows files [] h = refl
touched_rows files (r ∷ rows) h = elim (Bool-cases (sync_status_beq r.sync_status pending)) [
  | inl waiting ↦ rw (touch_named files r (h.0 waiting)) (touched_rows files rows h.1)
  | inr settled ↦ rw (touch-IsSettled files r settled) (touched_rows files rows h.1)
]

-- After the pending files have been marked, none is pending.
pub mark_synced_all : (db : Db) → get_pending_files (mark_synced (get_pending_files db) db) ≡ []
unfolding get_pending_files
mark_synced_all db =
    rw (mark_synced-eq-map (pending_of db.files) db)
      (touched_rows (pending_of db.files) db.files (covered db.files))
