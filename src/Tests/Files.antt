-- ===== src/Tests/Files.antt =====
-- The theorems on file sessions at a concrete helper.
use connexin.Prelude.{
  ◌≡◌, refl, true, false, List, [], ◌∷◌, some, none, arith, ◌+◌, length, codes, ltb,
}
use connexin.Utf8.{Text}
use connexin.Numbers.{JsNumber, natural}
use connexin.FileSession.Entry.{RemoteFileEntry, fingerprint}
use connexin.FileSession.Lease.{
  to_delete, Grant, mkdir_grant, delete_grant, download_grant, Lease, find_lease,
  prune_expired_leases,
}
use connexin.FileSession.Run.{answered, done, threw, FileConfig, FileWorld, FileRun, get_helper}
use connexin.FileSession.Redeem.{mutate, download_buffer}
use connexin.FileSession.Confirmed.{Redeems}
use connexin.FileSession.Mutation.{mutate-Redeems}
use connexin.FileSession.Download.{IsWhole, download_buffer-IsWhole}
use connexin.FileSession.Connection.{connecting_stuck}
use connexin.FileSession.Overrun.{begin_all, end_all, lease_limit_overrun}

abbrev small_files : FileConfig
small_files = record {
  limits = record {
    max_file_path_bytes = 40;
    max_file_component_bytes = 20;
    max_file_path_depth = 4;
  };
  max_file_entries = 10;
  max_file_metadata_bytes = 1000;
  max_file_operation_leases = 2;
  max_transfer_bytes = 100;
  max_embedded_download_bytes = 50;
  file_operation_lease_ttl_ms = 60;
  file_root_confinement_enforced = true;
}

abbrev pub notes : RemoteFileEntry
notes = record {
  name = codes "notes";
  kind = codes "file";
  size = natural 5;
  modified = natural 1700;
  mode = natural 420;
}

-- The hash is the text itself.
abbrev pub helpful : FileWorld
helpful = record {
  config = small_files;
  now = 50;
  later = 51;
  fresh_token = codes "t1";
  hash = λ t. t;
  spawned = done 1;
  on_hello = λ n. answered true;
  on_root = λ n. answered (codes "/srv");
  on_realpath = λ n path. answered path;
  on_lstat = λ n path. answered notes;
  on_mutation = λ n. answered true;
  on_transfer = λ n. done (natural 5);
  delivered = codes "he" ∷ codes "llo" ∷ [];
  aborted_before = false;
  aborted_during = false;
  disposed_during = λ n. false;
}

abbrev broken : FileWorld
broken = record helpful { spawned = threw (codes "no such file") }

abbrev notes_lease : Grant → Lease
notes_lease grant = record { grant = grant; expires_at = 100 }

abbrev notes_delete : Grant
notes_delete = delete_grant (codes "/srv/notes") (fingerprint (λ t. t) notes) (codes "file")

abbrev notes_download : Grant
notes_download = download_grant (codes "/srv/notes") (fingerprint (λ t. t) notes) (natural 5)

abbrev pub two_leases : FileRun
two_leases = record {
  session = record {
    helper = none;
    connecting = none;
    root = [];
    disposed = false;
    leases = (codes "a", notes_lease notes_delete) ∷ (codes "b", notes_lease notes_download) ∷ [];
  };
  sent = [];
  effects = [];
}

mutate-Redeems_example :
    Redeems helpful
      (codes "a")
      to_delete
      two_leases
      (mutate helpful (codes "a") to_delete two_leases)
    × (find_lease (codes "a") (mutate helpful (codes "a") to_delete two_leases).1.session.leases
        ≡ none)
mutate-Redeems_example = mutate-Redeems helpful (codes "a") to_delete two_leases

-- The file is deleted.
removed : (mutate helpful (codes "a") to_delete two_leases).0 ≡ done true
unfolding mutate fingerprint
removed = refl

downloaded : (download_buffer helpful (codes "b") two_leases).0 ≡ done (codes "hello")
unfolding download_buffer fingerprint
downloaded = refl

download_buffer-IsWhole_example :
    (lease : Lease) × (path : Text) × (fingerprint : Text) × (bytes : JsNumber) × (find_lease
        (codes "b")
        two_leases.session.leases
      ≡ some lease)
    × (lease.grant ≡ download_grant path fingerprint bytes)
    × (ltb lease.expires_at 50 ≡ false)
    × IsWhole helpful bytes (codes "hello")
download_buffer-IsWhole_example =
    download_buffer-IsWhole helpful (codes "b") two_leases (codes "hello") downloaded

connecting_stuck_example :
    let r' = (get_helper broken two_leases).1 in
    ((get_helper broken two_leases).0 ≡ threw (codes "no such file"))
    × ((later : FileWorld) → get_helper later r' ≡ (threw (codes "no such file"), r'))
connecting_stuck_example =
    connecting_stuck broken two_leases (codes "no such file") refl refl refl refl

-- A session with one lease, where two are allowed.
abbrev one_lease : FileRun
one_lease = record two_leases {
  session = record two_leases.session { leases = (codes "a", notes_lease notes_delete) ∷ [] };
}

abbrev three_calls : List (FileWorld × Grant)
three_calls =
    (helpful, mkdir_grant (codes "/srv/x"))
    ∷ (record helpful { fresh_token = codes "t2" }, mkdir_grant (codes "/srv/y"))
    ∷ (record helpful { fresh_token = codes "t3" }, mkdir_grant (codes "/srv/z"))
    ∷ []

kept_leases : prune_expired_leases 50 one_lease.session.leases ≡ one_lease.session.leases
unfolding prune_expired_leases
kept_leases = refl

first_free : find_lease (codes "t1") one_lease.session.leases ≡ none
unfolding find_lease
first_free = refl

second_free : find_lease (codes "t2") one_lease.session.leases ≡ none
unfolding find_lease
second_free = refl

third_free : find_lease (codes "t3") one_lease.session.leases ≡ none
unfolding find_lease
third_free = refl

lease_limit_overrun_example :
    let (all_begun, waiting) = begin_all three_calls one_lease in
    (all_begun ≡ true) × (length (end_all three_calls waiting).session.leases ≡ 1 + 3)
lease_limit_overrun_example =
    lease_limit_overrun three_calls one_lease
      (
        record { enforced = refl; current = kept_leases; room = omega arith },
        (
          record { enforced = refl; current = kept_leases; room = omega arith },
          (record { enforced = refl; current = kept_leases; room = omega arith }, tt),
        ),
      )
      (first_free, (refl, (refl, tt)), (second_free, (refl, tt), (third_free, tt, tt)))
