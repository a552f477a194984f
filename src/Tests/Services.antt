-- ===== src/Tests/Services.antt =====
-- Tests of the scheduler, of the tokens and of the server for other devices.
use stardustfs.Prelude.{
  ℕ, inl, Text, true, false, Option, none, some, [], ◌∷◌, ◌+◌, codes, ok, err, file_not_found, ◌≡◌,
  ◌<◌, ◌⊎◌, refl, arith, text_beq, text_eq, ◌==◌, All,
}
use stardustfs.Network.{reply, lost, Run}
use stardustfs.Scheduler.{Manager, Scheduler, Settings, run_heal_cycle, run_backup_cycle}
use stardustfs.Scheduler.Grace.{run_heal_cycle-IsYoung, run_backup_cycle_starved}
use stardustfs.Auth
use stardustfs.Auth.{refresh_token, get_valid_token, absent}
use stardustfs.Auth.Tokens.{get_valid_token-refresh_token}
use stardustfs.Source.{fine, emptied}
use stardustfs.Table.{find_row}
use stardustfs.Parity
use stardustfs.Parity.{ParityStore}
use stardustfs.P2p.{
  Node, Request, System, refused, file_content, read, write, delete, run_op, replica_store,
  replica_fetch, Response, Body,
}
use stardustfs.P2p.Handlers.{
  Auth, Verified, Shared, handle, handle_replica, parse_and_verify_any_user, verify_token,
  op_replica_store, run_replica_op, dispatch, json,
}
use stardustfs.P2p.Dots.{dots_then, dots_below}
use stardustfs.P2p.Access.{on_first, handle_refused, run_op_confined, unknown_source}
use stardustfs.P2p.Replicas.{replica_round_trip}
use stardustfs.Remote
use stardustfs.Remote.{Peer, RemoteSource, endpoint_op}
use stardustfs.Remote.Worker.{Job, RelayServer, relay_peer}
use stardustfs.Remote.Worker.Relaying.{relayed, request-dispatch}
use stardustfs.Tests.{jbod, disk}

-- Every file is degraded, and the world counts the repairs.
abbrev manager : Manager ℕ
manager = record {
  paths_with = λ statuses w. codes "/a" ∷ codes "/b" ∷ [];
  replicate = λ p w. (err file_not_found, w);
  is_degraded = λ p w. (ok true, w);
  ensure_replicas = λ p w. (ok tt, w + 1);
  is_stopped = λ w. false;
}

abbrev settings : Settings
settings = record { max_files = 1; heal_grace = 10; backup_interval = 300 }

abbrev watching : Scheduler
watching = record {
  degraded_since = record { path = codes "/a"; since = 5 } ∷ [];
  skip_backup = codes "/a" ∷ [];
}

abbrev no_repair : Text → Run ℕ (Unit {0})
no_repair p w = (ok tt, w)

run_heal_cycle-IsYoung_example :
    (st' : Scheduler) × (w' : ℕ) × (run_heal_cycle settings manager 14 watching 0 ≡ (0, st', w'))
    × (run_heal_cycle settings (record manager { ensure_replicas = no_repair }) 14 watching 0
        ≡ (0, st', w'))
    × All (λ o. 14 < o.since + 10) st'.degraded_since
run_heal_cycle-IsYoung_example =
    run_heal_cycle-IsYoung settings manager no_repair 14 watching 0 (omega arith) (omega arith, tt)

run_backup_cycle_starved_example : run_backup_cycle settings manager watching 0 ≡ (0, watching, 0)
unfolding text_beq
run_backup_cycle_starved_example = run_backup_cycle_starved settings manager watching 0 (refl, tt)

abbrev old_client : Auth.Client
old_client = record {
  access_token = some (codes "x");
  refresh_token_value = some (codes "r");
  token_expires_at = 0;
  offline = false;
  user_id = none;
  email = none;
  key_password = none;
}

abbrev payload : Text → Option (ℕ × Option Text)
payload t = some (100, some (codes "u"))

-- The server takes a refresh token once; later it is out of reach.
get_valid_token-refresh_token_example :
    (get_valid_token payload
      (λ t. lost)
      true
      10
      (
        old_client,
        (refresh_token payload
            (λ t. reply 200 (codes "y", codes "q"))
            (old_client, some absent)).1.1,
      )).0
    ≡ ok (codes "y")
get_valid_token-refresh_token_example =
    get_valid_token-refresh_token payload (λ t. reply 200 (codes "y", codes "q")) (λ t. lost) 10
      old_client old_client absent (codes "r") (codes "x") 200 100 (codes "y") (codes "q")
      (some (codes "u")) refl refl refl refl (omega arith) refl refl

abbrev node : Node
node = record {
  jbod = jbod;
  parity_store = some (record { index = []; files = []; max_bytes = some 100 });
  user_id = some (codes "u");
}

abbrev auth : Auth
auth = record {
  verify = λ t. reply 200 (record { valid = t == codes "good"; user_id = some (codes "v") });
  verify_share = λ t p. lost;
}

abbrev request : Request
request = record {
  source_id = codes "nowhere";
  physical_path = codes "a/../b";
  content = some (7 ∷ []);
  chunk_id = codes "c";
  auth_token = codes "good";
  share_token = [];
}

abbrev system : System
system = record {
  fault = fine;
  removal = emptied;
  is_dir = λ p. false;
  list_entries = λ p. [];
  data_root = λ s. codes "/data";
}

abbrev IsRefusal : ℕ → Type 0
IsRefusal status = (status ≡ 400) ⊎ (status ≡ 401) ⊎ (status ≡ 403) ⊎ (status ≡ 503)

-- The token is that of another user, so this is the first case.
handle_refused_example :
    ((status : ℕ) × (handle auth system delete (json request) node ≡ ((status, refused), node))
      × IsRefusal status)
    ⊎ ((v : Verified) × (auth.verify (codes "good") ≡ reply 200 v)
        × (v.valid ≡ true)
        × (v.user_id ≡ some (codes "u")))
    ⊎ ((delete ≡ read)
        × ((v : Shared) × (auth.verify_share [] (codes "a/../b") ≡ reply 200 v) × (v.valid ≡ true)))
handle_refused_example = handle_refused auth system delete request node

run_op_confined_example :
    (status : ℕ) × (run_op write system request node ≡ (ok (status, refused), node))
    × ((status ≡ 400) ⊎ (status ≡ 404))
run_op_confined_example =
    run_op_confined write system request node (λ same. ground arith)
      (dots_below (codes "a") 47 (codes "../b") (inl refl) (dots_then 47 (codes "b") (inl refl)))

unknown_source_example :
    (run_op read system request node ≡ (ok (404, refused), node))
    × (run_op write system request node ≡ run_op write system (on_first request disk) node)
    × (run_op delete system request node ≡ run_op delete system (on_first request disk) node)
unfolding find_row text_beq
unknown_source_example = unknown_source system request node disk [] (λ same. ground arith) refl refl

abbrev hosting : Node
hosting = (handle_replica auth replica_store (json request) node).1

replica_round_trip_example :
    handle_replica auth replica_fetch (json request) hosting
    ≡ ((200, file_content (7 ∷ [])), hosting)
unfolding handle_replica parse_and_verify_any_user verify_token run_replica_op op_replica_store
    Parity.store Parity.keep_chunk Parity.used_bytes Parity.total Parity.is_valid_chunk_id
    Parity.has_dots find_row text_beq
replica_round_trip_example = replica_round_trip auth request node hosting (7 ∷ []) 1 refl refl

-- The relay keeps one request and one answer.
record Mailbox : Type 0 where
  job : Option Job
  answer : Response

abbrev relay : RelayServer Mailbox
relay = record {
  enqueue = λ op payload token m. (
    reply 200 (codes "1"),
    record m { job = some (record { request_id = codes "1"; op = op; payload = payload }) },
  );
  poll =
      λ token m. elim m.job [ none ↦ (lost, m) | some j ↦ (reply 200 j, record m { job = none }) ];
  respond = λ id r token m. (reply 200 tt, record m { answer = r });
  wait = λ id token m. (reply 200 (record { status = m.answer.0; result = m.answer.1 }), m);
}

-- No direct connection is had.
abbrev cut_off : Peer (Node × Mailbox) Request Body
cut_off = record {
  get_valid_token = λ v. (ok (codes "t"), v);
  refresh_token = λ v. (ok tt, v);
  get_routing = λ token v. (lost, v);
  post = λ address endpoint payload token v. (lost, v);
  relay_request = λ op payload token v. (lost, v);
  relay_response = λ id token v. (lost, v);
}

abbrev remote : RemoteSource
remote = record {
  is_active = true;
  peer_address = codes "10.0.0.2:9090";
  last_refresh_at = 0;
  relay_enabled = true;
}

abbrev mailbox : Mailbox
mailbox = record { job = none; answer = (0, refused) }

abbrev local_request : Request
local_request = record request { source_id = []; physical_path = codes "a" }

request-dispatch_example :
    Remote.request
      (relay_peer relay system (λ m. (ok (codes "u"), m)) cut_off)
      remote
      (codes "/p2p/write")
      local_request
      (node, mailbox)
    ≡ (
      relayed (dispatch system (codes "write") local_request node).0,
      (
        (dispatch system (codes "write") local_request node).1,
        record { job = none; answer = (dispatch system (codes "write") local_request node).0 },
      ),
    )
unfolding endpoint_op text_beq
request-dispatch_example =
    request-dispatch relay system (λ m. (ok (codes "u"), m)) cut_off remote (codes "/p2p/write")
      (codes "write") (codes "t") (codes "u") local_request node mailbox
      (record mailbox {
        job = some (record { request_id = codes "1"; op = codes "write"; payload = local_request });
      })
      mailbox 49 [] (λ r. record { job = none; answer = r }) refl refl refl refl refl refl refl refl
      (λ r. refl) (λ r. refl)
