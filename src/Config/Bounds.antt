-- ===== src/Config/Bounds.antt =====
-- What a configuration that passes the validation satisfies.
use stardustfs.Prelude.{
  ℕ, Text, Bool, true, false, none, some, List, [], ◌∷◌, ◌++◌, ◌&&◌, not, leb, length, pos, negsuc,
  ◌≡◌, ◌≢◌, ◌≤◌, refl, sym, ◌∙◌, ◌>>=◌, err, Result, arith, codes, ok, text_eq, text_beq, eq_iff,
  eq_refl, ap,
}
use stardustfs.Json.{
  Json, Fields, null, field, object, text, null, real, boolean, array, get_or, integer, end, field,
  find_field, get, set_field, pop_field, as_object,
}
use stardustfs.Config.{
  Disk, Complaint, interval_type, interval_range, port_type, port_range, complain,
  device_name_length, in_range, check_int, check_section, validate_server, validate_sync,
  validate_p2p, validate_v2, validate, validate_device_name, validate_url,
}
use stardustfs.Config.Migration.{migrated, sync_defaults, p2p_defaults}

find_field-set_field :
    (key other : Text) (v : Json) (fs : Fields)
    → (find_field key (set_field key v fs) ≡ some v)
      × (other ≢ key → find_field other (set_field key v fs) ≡ find_field other fs)
unfolding find_field set_field
find_field-set_field key other v end =
    (ground (arith, eq_refl key), λ ne. ground (arith, eq_iff key other))
find_field-set_field key other v (field k w fs) =
    let (here, there) = find_field-set_field key other v fs in
    (
      ground (arith, eq_refl key, eq_iff k key),
      λ ne. ground (arith, eq_iff k key, eq_iff key other, eq_iff k other),
    )

get-set_field :
    (key other : Text) (v : Json) (fs : Fields)
    → (get key (set_field key v fs) ≡ v)
      × (other ≢ key → get other (set_field key v fs) ≡ get other fs)
unfolding get
get-set_field key other v fs =
    let (here, there) = find_field-set_field key other v fs in
    (ap (get_or null) here, λ ne. ap (get_or null) (there ne))

append_nil_both {ℓ} : {A : Type ℓ} (xs ys : List A) → xs ++ ys ≡ [] → (xs ≡ []) × (ys ≡ [])
append_nil_both [] ys h = (refl, h)
append_nil_both (x ∷ xs) ys h = ground arith

complain_nil : (b : Bool) (c : Complaint) → complain b c ≡ [] → b ≡ false
complain_nil true c h = ground arith
complain_nil false c h = refl

check_int_nil :
    (no_int out : Complaint) (lo hi : ℕ) (v : Json)
    → 2 ≤ lo
    → check_int no_int out lo hi v ≡ []
    → (n : ℕ) × (v ≡ integer (pos n)) × (lo ≤ n) × (n ≤ hi)
check_int_nil no_int out lo hi (integer (pos n)) large h = (
  n,
  refl,
  ground (arith, complain_nil (not (in_range lo hi (pos n))) out h),
  ground (arith, complain_nil (not (in_range lo hi (pos n))) out h),
)
check_int_nil no_int out lo hi (integer (negsuc n)) large h = ground arith
check_int_nil no_int out lo hi (boolean true) large h =
    ground (arith, complain_nil (not (in_range lo hi (pos 1))) out h)
check_int_nil no_int out lo hi (boolean false) large h =
    ground (arith, complain_nil (not (in_range lo hi (pos 0))) out h)
check_int_nil no_int out lo hi null large h = ground arith
check_int_nil no_int out lo hi real large h = ground arith
check_int_nil no_int out lo hi (text t) large h = ground arith
check_int_nil no_int out lo hi (array xs) large h = ground arith
check_int_nil no_int out lo hi (object fs) large h = ground arith

check_section_nil :
    (name : Text) (check : Fields → List Complaint) (v : Json)
    → (check_section name check v).0 ≡ []
    → (check_section name check v).1 ≡ []
    → (fs : Fields) × (v ≡ object fs) × (check fs ≡ [])
check_section_nil name check (object fs) present h = (fs, refl, h)
check_section_nil name check (integer z) present h = ground arith
check_section_nil name check (boolean b) present h = ground arith
check_section_nil name check null present h = ground arith
check_section_nil name check real present h = ground arith
check_section_nil name check (text t) present h = ground arith
check_section_nil name check (array xs) present h = ground arith

device_name_nil :
    (v : Json)
    → validate_device_name v ≡ []
    → (name : Text) × (v ≡ text name) × (1 ≤ length name) × (length name ≤ 64)
unfolding validate_device_name
device_name_nil (text name) h =
    let fits =
      complain_nil (not (leb 1 (length name) && leb (length name) 64)) device_name_length h in
    (name, refl, ground arith, ground arith)
device_name_nil (object fs) h = ground arith
device_name_nil (integer z) h = ground arith
device_name_nil (boolean b) h = ground arith
device_name_nil null h = ground arith
device_name_nil real h = ground arith
device_name_nil (array xs) h = ground arith

all_nil :
    (sections key_file : List Complaint) (sources : Result (List Complaint))
    → (sources >>= λ found. ok (sections ++ (found ++ key_file))) ≡ ok []
    → (sections ≡ []) × (sources ≡ ok [])
all_nil sections key_file (err e) h = ground arith
all_nil sections key_file (ok found) h =
    let (a, b) = append_nil_both sections (found ++ key_file) (ground arith) in
    (a, ap ok (append_nil_both found key_file b).0)

validate_2 :
    (disk : Disk) (config : Fields)
    → get (codes "version") config ≡ integer (pos 2)
    → validate disk config ≡ validate_v2 disk config
unfolding validate
validate_2 disk config version = rw (version, validate) refl

-- The complaints about the sections are among those about the configuration.
sections_nil :
    (disk : Disk) (config : Fields)
    → get (codes "version") config ≡ integer (pos 2)
    → validate disk config ≡ ok []
    → ((check_section (codes "server") validate_server (get (codes "server") config)).0 ≡ [])
      × ((check_section (codes "sync") validate_sync (get (codes "sync") config)).0 ≡ [])
      × ((check_section (codes "p2p") validate_p2p (get (codes "p2p") config)).0 ≡ [])
      × ((check_section (codes "server") validate_server (get (codes "server") config)).1 ≡ [])
      × ((check_section (codes "sync") validate_sync (get (codes "sync") config)).1 ≡ [])
      × ((check_section (codes "p2p") validate_p2p (get (codes "p2p") config)).1 ≡ [])
unfolding validate validate_v2
sections_nil disk config version h =
    let (server, at_server) =
      (check_section (codes "server") validate_server (get (codes "server") config)) in
    let (sync, at_sync) =
      (check_section (codes "sync") validate_sync (get (codes "sync") config)) in
    let (p2p, at_p2p) = (check_section (codes "p2p") validate_p2p (get (codes "p2p") config)) in
    let (a, f) = all_nil _ _ _ (sym (validate_2 disk config version) ∙ h) in
    let (n1, r1) = append_nil_both server (sync ++ (p2p ++ (at_server ++ (at_sync ++ at_p2p)))) a in
    let (n2, r2) = append_nil_both sync (p2p ++ (at_server ++ (at_sync ++ at_p2p))) r1 in
    let (n3, r3) = append_nil_both p2p (at_server ++ (at_sync ++ at_p2p)) r2 in
    let (n4, r4) = append_nil_both at_server (at_sync ++ at_p2p) r3 in
    let (n5, r5) = append_nil_both at_sync at_p2p r4 in (n1, n2, n3, n4, n5, r5)

-- A version 2 configuration that passes the validation has the three sections, a device name of 1 to
-- 64 characters, an interval of 10 to 3600 seconds and a port from 1024 to 65535, as integers.
pub validate_bounds :
    (disk : Disk) (config : Fields)
    → get (codes "version") config ≡ integer (pos 2)
    → validate disk config ≡ ok []
    → ((server : Fields) × (name : Text) × (get (codes "server") config ≡ object server)
        × (get (codes "device_name") server ≡ text name)
        × (1 ≤ length name)
        × (length name ≤ 64))
      × ((sync : Fields) × (seconds : ℕ) × (get (codes "sync") config ≡ object sync)
          × (get (codes "interval_seconds") sync ≡ integer (pos seconds))
          × (10 ≤ seconds)
          × (seconds ≤ 3600))
      × ((p2p : Fields) × (port : ℕ) × (get (codes "p2p") config ≡ object p2p)
          × (get (codes "port") p2p ≡ integer (pos port))
          × (1024 ≤ port)
          × (port ≤ 65535))
unfolding validate_server validate_sync validate_p2p
validate_bounds disk config version h =
    let (a, b, c, at_a, at_b, at_c) = sections_nil disk config version h in
    let (server, is_server, server_ok) =
      check_section_nil (codes "server") validate_server (get (codes "server") config) a at_a in
    let (sync, is_sync, sync_ok) =
      check_section_nil (codes "sync") validate_sync (get (codes "sync") config) b at_b in
    let (p2p, is_p2p, p2p_ok) =
      check_section_nil (codes "p2p") validate_p2p (get (codes "p2p") config) c at_c in
    let (name, named, n1, n2) =
      device_name_nil (get (codes "device_name") server)
        (append_nil_both (validate_url (get (codes "url") server)) _ server_ok).1 in
    let (seconds, every, s1, s2) =
      check_int_nil interval_type interval_range 10 3600 (get (codes "interval_seconds") sync)
        (omega arith) (append_nil_both _ _ sync_ok).0 in
    let (port, opens, p1, p2) =
      check_int_nil port_type port_range 1024 65535 (get (codes "port") p2p) (omega arith)
        (append_nil_both _ _ p2p_ok).0 in
    (
      (server, name, is_server, named, n1, n2),
      (sync, seconds, is_sync, every, s1, s2),
      (p2p, port, is_p2p, opens, p1, p2),
    )

get-migrated :
    (config : Fields)
    → (get (codes "version") (migrated config) ≡ integer (pos 2))
      × (get (codes "server") (migrated config) ≡ object (field (codes "url") null end))
unfolding migrated
get-migrated config =
    let base = pop_field (codes "webdav") config in
    let url = object (field (codes "url") null end) in
    let versioned = set_field (codes "version") (integer (pos 2)) base in
    let served = set_field (codes "server") url versioned in
    let synced = set_field (codes "sync") sync_defaults served in
    (
      (get-set_field (codes "p2p") (codes "version") p2p_defaults synced).1 (ground arith)
          ∙ (get-set_field (codes "sync") (codes "version") sync_defaults served).1 (ground arith)
          ∙ (get-set_field (codes "server") (codes "version") url versioned).1 (ground arith)
          ∙ (get-set_field (codes "version") (codes "version") (integer (pos 2)) base).0,
      (get-set_field (codes "p2p") (codes "server") p2p_defaults synced).1 (ground arith)
          ∙ (get-set_field (codes "sync") (codes "server") sync_defaults served).1 (ground arith)
          ∙ (get-set_field (codes "server") (codes "server") url versioned).0,
    )

get_name : Text → Json → Json
get_name key v = elim (as_object v) [ none ↦ null | some fs ↦ get key fs ]

no_name :
    (fs : Fields) (name : Text)
    → object (field (codes "url") null end) ≡ object fs
    → get (codes "device_name") fs ≢ text name
unfolding get_name get find_field text_beq
no_name fs name same h =
    let at : null ≡ get (codes "device_name") fs = ap (get_name (codes "device_name")) same in
    ground arith

-- The configuration that the migration builds never passes the validation: its section `server` has
-- no device name.
pub migrated_refused : (disk : Disk) (config : Fields) → validate disk (migrated config) ≢ ok []
migrated_refused disk config h =
    let (version, server) = get-migrated config in
    let ((fs, name, is_server, named, n1, n2), sync, p2p) =
      validate_bounds disk (migrated config) version h in
    no_name fs name (sym server ∙ is_server) named
