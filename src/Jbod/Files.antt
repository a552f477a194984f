-- ===== src/Jbod/Files.antt =====
-- The file operations of JBODManager: routing of reads, writes as a transaction with clean-up, the
-- takeover of another device's file, deletion, move and copy. The database itself does not fail.
use stardustfs.Prelude.{
  ℕ, Text, Bytes, true, false, Option, none, some, text_eq, option_text_eq, if◌then◌else◌, Result,
  ok, err, ◌>>=◌, ◌||◌, Error, os_error, file_not_found, insufficient_space, insufficient_storage,
  length, not,
}
use stardustfs.Models.{FileMetadata}
use stardustfs.Table.{find_row}
use stardustfs.Metadata.{Db, lookup, insert, update, delete, rename_path}
use stardustfs.Source
use stardustfs.Source.{Source, Fault}
use stardustfs.Jbod.{
  Jbod, Env, device_of, select_source, get_source_by_id, set_source, generate_physical_path,
  is_local_owner,
}

abbrev pub Outcome : Type 0 → Type 0
Outcome A = Result A × Jbod

abbrev pub with_db : Db → Jbod → Jbod
with_db db j = record j { metadata_store = db }

-- `except OSError as e: if "insufficient space" in str(e).lower(): ...`
abbrev pub as_storage_error : Error → Error
as_storage_error insufficient_space = insufficient_storage
as_storage_error e = e

-- `if source.exists(p): source.delete(p)` in a handler: what it raises replaces the exception.
unfoldable pub clean_up : Fault → Text → Error → Source → Error × Source
clean_up fault path e s = elim (Source.exists path s) [
  | err e' ↦ (e', s)
  | ok false ↦ (e, s)
  | ok true ↦ let (r, s') = Source.delete fault path s in (elim r [ err e' ↦ e' | ok u ↦ e ], s')
]

-- How a new physical file gets into the metadata: a new file, and a file that is taken over.
abbrev pub record_new : Env → Text → ℕ → Option Text → Text → Text → Db → Result Db
record_new env path size device source physical =
    insert path source physical size env.now env.now device

abbrev pub record_taken : Env → Text → ℕ → Option Text → Text → Text → Db → Result Db
record_taken env path size device source physical db =
    ok (update path size env.now device (some source) (some physical) db)

module _ (encrypt : Bytes → Bytes) (decrypt : Bytes → Result Bytes) (env : Env) where
  unfoldable pub read_local : FileMetadata → Jbod → Outcome Bytes
  read_local m j = elim (get_source_by_id m.source_id j) [
    | none ↦ (err os_error, j)
    | some s ↦
        if not s.is_active
        then (err os_error, j)
        else let (r, s') = Source.read env.read_fault m.physical_path s in
          (r >>= decrypt, set_source s' j)
  ]

  -- An inactive proxy is renegotiated once.
  unfoldable pub read_remote : Text → FileMetadata → Jbod → Outcome Bytes
  read_remote owner m j = elim (find_row device_of owner j.remote_devices) [
    | none ↦ (err os_error, j)
    | some r ↦
        if r.is_active || r.active_after_refresh
        then (r.read_from_source m.physical_path m.source_id >>= decrypt, j)
        else (err os_error, j)
  ]

  -- `_read_local` for an own or ownerless file, `_read_remote` for another device's.
  unfoldable pub read_owned : FileMetadata → Jbod → Outcome Bytes
  read_owned m j =
      if is_local_owner m.device_id j.device_id
      then read_local m j
      else (elim m.device_id [ none ↦ read_local m j | some owner ↦ read_remote owner m j ])

  unfoldable pub read_file : Text → Jbod → Outcome Bytes
  read_file path j = elim (lookup path j.metadata_store) [
    | none ↦ (err file_not_found, j)
    | some m ↦ read_owned m j
  ]

  -- The own file is there already: its physical file is overwritten.
  unfoldable pub overwrite : Text → ℕ → Bytes → FileMetadata → Jbod → Outcome (Unit {0})
  overwrite path plain_size encrypted m j = elim (get_source_by_id m.source_id j) [
    | none ↦ (err os_error, j)
    | some s ↦
        if not s.is_active
        then (err os_error, j)
        else let (r, s') = Source.write env.write_fault m.physical_path encrypted s in
          let j' = set_source s' j in
          elim r [
            | err e ↦ (err (as_storage_error e), j')
            | ok u ↦ (
              ok tt,
              with_db (update path plain_size env.now j.device_id none none j.metadata_store) j',
            )
          ]
  ]

  -- A new physical file, recorded by `record_in`; where the write fails, its rest is removed.
  unfoldable pub place :
      Text → Bytes → (Error → Error) → (Text → Text → Db → Result Db) → Jbod → Outcome (Unit {0})
  place path encrypted raised record_in j = elim (select_source (length encrypted) j) [
    | err e ↦ (err e, j)
    | ok s ↦
        let physical = generate_physical_path env.uuid_hex path in
        let (r, s') = Source.write env.write_fault physical encrypted s in
        elim r [
          | err e ↦
              let (e', cleaned) = clean_up env.delete_fault physical e s' in
              (err (raised e'), set_source cleaned j)
          | ok u ↦
              let j' = set_source s' j in
              elim (record_in s.source_id physical j.metadata_store) [
                | err e ↦ (err e, j')
                | ok db ↦ (ok tt, with_db db j')
              ]
        ]
  ]

  unfoldable pub create : Text → ℕ → Bytes → Jbod → Outcome (Unit {0})
  create path plain_size encrypted j =
      place path encrypted (λ e. e) (record_new env path plain_size j.device_id) j

  unfoldable pub takeover_write : Text → ℕ → Bytes → Jbod → Outcome (Unit {0})
  takeover_write path plain_size encrypted j =
      let (r, j') =
        place path encrypted as_storage_error (record_taken env path plain_size j.device_id) j in
      elim r [ err e ↦ (err e, j') | ok u ↦ (ok tt, record j' { gc_needed = true }) ]

  unfoldable pub write_file : Text → Bytes → Jbod → Outcome (Unit {0})
  write_file path content j =
      let encrypted = encrypt content in
      elim (lookup path j.metadata_store) [
        | none ↦ create path (length content) encrypted j
        | some m ↦
            if is_local_owner m.device_id j.device_id
            then overwrite path (length content) encrypted m j
            else takeover_write path (length content) encrypted j
      ]

  -- The physical file goes first, if its source is active; that it is missing is no error.
  unfoldable pub delete_physical : Text → Text → Jbod → Outcome (Unit {0})
  delete_physical source physical j = elim (get_source_by_id source j) [
    | none ↦ (ok tt, j)
    | some s ↦
        if not s.is_active
        then (ok tt, j)
        else let (r, s') = Source.delete env.delete_fault physical s in
          (elim r [ err file_not_found ↦ ok tt | err e ↦ err e | ok u ↦ ok tt ], set_source s' j)
  ]

  unfoldable pub delete_file : Text → Jbod → Outcome (Unit {0})
  delete_file path j = elim (lookup path j.metadata_store) [
    | none ↦ (err file_not_found, j)
    | some m ↦
        if is_local_owner m.device_id j.device_id
        then (let (r, j') = delete_physical m.source_id m.physical_path j in
            elim r [
              | err e ↦ (err e, j')
              | ok u ↦ (ok tt, with_db (delete path env.now j'.metadata_store) j')
            ])
        else (ok tt, with_db (delete path env.now j.metadata_store) j)
  ]

  unfoldable pub move_file : Text → Text → Jbod → Outcome (Unit {0})
  move_file src dst j = elim (lookup src j.metadata_store) [
    | none ↦ (err file_not_found, j)
    | some m ↦ elim (rename_path src dst j.metadata_store) [
      | err e ↦ (err e, j)
      | ok db ↦ (ok tt, with_db db j)
    ]
  ]

  unfoldable pub copy_file : Text → Text → Jbod → Outcome (Unit {0})
  copy_file src dst j =
      let (r, j') = read_file src j in
      elim r [ err e ↦ (err e, j') | ok content ↦ write_file dst content j' ]
