-- ===== src/Source/Folders.antt =====
-- stardustlib/storage_source.py: mkdir and list_dir. What `os.listdir` gives and whether the path is a
-- directory are given with the call.
use stardustfs.Prelude.{
  Text, Bool, List, [], if◌then◌else◌, not, Result, ok, err, os_error, permission_error,
}
use stardustfs.Source.{
  Source, Fault, fine, denied, failed, directory, remote, loopback, deactivated_by_fault,
}

unfoldable pub mkdir : Fault → Source → Result (Unit {0}) × Source
mkdir fault s = if not s.is_active then (err os_error, s) else elim fault [
  | fine ↦ (ok tt, s)
  | denied ↦ (err permission_error, deactivated_by_fault s)
  | failed part ↦ (err os_error, deactivated_by_fault s)
]

-- A loopback source lists nothing where there is no directory.
unfoldable pub list_dir : Fault → Bool → List Text → Source → Result (List Text) × Source
list_dir fault is_dir entries s = if not s.is_active then (err os_error, s) else elim fault [
  | fine ↦ (
    ok (elim s.kind [
      | directory ↦ entries
      | remote ↦ []
      | loopback size ↦ if is_dir then entries else []
    ]),
    s,
  )
  | denied ↦ (err permission_error, deactivated_by_fault s)
  | failed part ↦ (err os_error, deactivated_by_fault s)
]
