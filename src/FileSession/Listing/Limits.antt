-- ===== src/FileSession/Listing/Limits.antt =====
-- What `list` of src/server/file-session.ts returns.
use connexin.Prelude.{
  ℕ, ◌+◌, ◌≤◌, ◌≡◌, refl, ap, subst, Bool, true, false, not, ◌||◌, List, [], ◌∷◌, arith,
  if◌then◌else◌, All, ltb, ltb-false→le, length, codes, map, sum,
}
use connexin.Utf8.{Text}
use connexin.FileSession.Entry.{RemoteFileEntry, is_safe_entry}
use connexin.FileSession.Run.{
  Request, Reply, answered, FileWorld, FileRun, Outcome, done, threw, M, then_run, ◌>>=◌, timed,
  get_helper, is_helper_loss, poison, list_request,
}
use connexin.FileSession.Resolve.{safe_or_throw, resolve_content}
use connexin.FileSession.Safety.{
  Holds, Anything, FromHelper, Anything-Safe, timed-Safe, is_mutation,
}
use connexin.FileSession.Gives.{Gives, bind-Gives, bind-Gives_both, refuse_if-Gives, catch-Gives}
use connexin.FileSession.Listing.{
  PublicFileEntry, ListWorld, compare_entries, public_entry, public_entries, list_with, retry,
  read_only, list,
}

module _ (w : FileWorld) (l : ListWorld) (relative : Text) where
  -- The entries before they are sorted: an answer of the helper, all of it, safe and within the two
  -- limits.
  pub record IsListing (listed : List PublicFileEntry) : Type 0 where
    pub request : ℕ
    pub entries : List RemoteFileEntry
    pub told : l.on_list request ≡ answered entries
    pub shown : listed ≡ map (public_entry w relative) entries
    pub safe : All (λ e. is_safe_entry e ≡ true) entries
    pub counted : length entries ≤ w.config.max_file_entries
    pub sized : sum (map l.json_bytes entries) ≤ w.config.max_file_metadata_bytes

  safe_or_throw-Gives :
      {B : Type 0} (P : B → Type 0) (e : RemoteFileEntry) (f : RemoteFileEntry → M B)
      → (is_safe_entry e ≡ true → Gives P (f e))
      → Gives P (safe_or_throw e >>= f)
  safe_or_throw-Gives {B} P e f k r = branch (is_safe_entry e) k
    where
      branch :
          (b : Bool)
          → (b ≡ true → Gives P (f e))
          → Holds P Anything
              (then_run (if b then (done e, r) else (threw (codes "invalid_metadata"), r)) f).0
      branch true k = k refl r
      branch false k = tt

  abbrev ArePublic : ℕ → List RemoteFileEntry → List PublicFileEntry → Type 0
  ArePublic bytes entries listed =
      (listed ≡ map (public_entry w relative) entries)
      × (All (λ e. is_safe_entry e ≡ true) entries
          × (bytes + sum (map l.json_bytes entries) ≤ w.config.max_file_metadata_bytes))

  public_entries-Gives :
      (bytes : ℕ) (entries : List RemoteFileEntry)
      → bytes ≤ w.config.max_file_metadata_bytes
      → Gives (ArePublic bytes entries) (public_entries w l relative bytes entries)
  unfolding public_entries
  public_entries-Gives bytes [] h = λ r. (refl, (tt, omega (arith, h)))
  public_entries-Gives bytes (e ∷ rest) h =
      let now = bytes + l.json_bytes e in
      let limit = w.config.max_file_metadata_bytes in
      safe_or_throw-Gives (ArePublic bytes (e ∷ rest)) e _ (λ safe.
        refuse_if-Gives (ArePublic bytes (e ∷ rest)) (ltb limit now) (codes "metadata_too_large") _
          (λ fits _.
            bind-Gives_both (ArePublic now rest) (ArePublic bytes (e ∷ rest))
              (public_entries w l relative now rest) _
              (public_entries-Gives now rest (ltb-false→le limit now fits))
              (λ others (same, (all, sum_fits)) r. (
                ap (◌∷◌ (public_entry w relative e)) same,
                ((safe, all), omega (arith, sum_fits)),
              ))))

  -- The result is a listing, sorted.
  abbrev IsSorted : List PublicFileEntry → Type 0
  IsSorted result =
      (listed : List PublicFileEntry) × ((result ≡ l.sort (compare_entries l.locale_compare) listed)
        × IsListing listed)

  timed-Gives :
      {A : Type 0} (h : ℕ) (mutation : Bool) (q : Request) (answer : ℕ → Reply A)
      → is_mutation q ≡ false
      → Gives (λ a. (n : ℕ) × (answer n ≡ answered a)) (timed w h mutation q answer)
  timed-Gives {A} h mutation q answer quiet r =
      (Anything-Safe Told (FromHelper answer) (timed w h mutation q answer)
        (timed-Safe w h mutation q answer quiet) r).1
    where
      Told : A → Type 0
      Told a = (n : ℕ) × (answer n ≡ answered a)

  list_with-IsSorted : (h : ℕ) → Gives IsSorted (list_with w l relative h)
  unfolding list_with
  list_with-IsSorted h = bind-Gives IsSorted (resolve_content w h relative) _ (λ content.
      bind-Gives_both (λ entries. (n : ℕ) × (l.on_list n ≡ answered entries)) IsSorted
        (timed w h false (list_request content.canonical (w.config.max_file_entries + 1)) l.on_list)
        _ (timed-Gives h false _ l.on_list refl)
        (λ entries (request, told).
          refuse_if-Gives IsSorted (ltb w.config.max_file_entries (length entries))
            (codes "directory_too_large") _
            (λ few _.
              bind-Gives_both (ArePublic 0 entries) IsSorted (public_entries w l relative 0 entries)
                _ (public_entries-Gives 0 entries (omega arith))
                (λ listed (same, (all, sum_fits)) r. (
                  listed,
                  (
                    refl,
                    record {
                      request = request;
                      entries = entries;
                      told = told;
                      shown = same;
                      safe = all;
                      counted = ltb-false→le w.config.max_file_entries (length entries) few;
                      sized = omega (arith, sum_fits);
                    },
                  ),
                )))))

  read_only-IsSorted : Gives IsSorted (read_only w l.respawned (list_with w l relative))
  unfolding read_only
  read_only-IsSorted = bind-Gives IsSorted (get_helper w) _ (λ h.
      catch-Gives IsSorted (list_with w l relative h)
        (retry w l.respawned (list_with w l relative) h) (list_with-IsSorted h)
        (λ message r.
          again message r (not (is_helper_loss message) || r.session.disposed)
            ((get_helper (record w { spawned = l.respawned }) >>= list_with w l relative)
              (poison h r))
            (bind-Gives IsSorted (get_helper (record w { spawned = l.respawned }))
              (list_with w l relative) list_with-IsSorted (poison h r))))
    where
      again :
          (message : Text) (r : FileRun) (b : Bool) (x : Outcome (List PublicFileEntry) × FileRun)
          → Holds IsSorted Anything x.0
          → Holds IsSorted Anything (if b then (threw message, r) else x).0
      again message r true x h = tt
      again message r false x h = h

  -- A listing that is returned is an answer of the helper to a request for a list, whole and sorted:
  -- each entry has safe metadata, and comes with its path and its fingerprint, there are at most
  -- `maxFileEntries`, and together they take at most `maxFileMetadataBytes` as JSON.
  pub list-IsListing :
      (r r' : FileRun) (result : List PublicFileEntry)
      → list w l relative r ≡ (done result, r')
      → (listed : List PublicFileEntry) × ((result
            ≡ l.sort (compare_entries l.locale_compare) listed)
          × IsListing listed)
  unfolding list
  list-IsListing r r' result e =
      subst (λ (x : Outcome (List PublicFileEntry) × FileRun). Holds IsSorted Anything x.0) e
        (refuse_if-Gives IsSorted (not w.config.file_root_confinement_enforced)
          (codes "file_root_confinement_not_enforced")
          (λ _. read_only w l.respawned (list_with w l relative)) (λ enforced b. read_only-IsSorted)
          r)
