-- ===== src/Tests/Listings.antt =====
-- The theorem on listings at a directory of two entries.
use connexin.Prelude.{◌≡◌, refl, List, [], ◌∷◌, reverse, codes, length}
use connexin.Utf8.{Text}
use connexin.Numbers.{natural}
use connexin.FilePolicy.{normalize_relative_path}
use connexin.FileSession.Entry.{RemoteFileEntry, fingerprint}
use connexin.FileSession.Run.{answered, done, FileRun}
use connexin.FileSession.Listing.{PublicFileEntry, ListWorld, compare_entries, list}
use connexin.FileSession.Listing.Limits.{IsListing, list-IsListing}
use connexin.Tests.Files.{helpful, notes, two_leases}

abbrev plans : RemoteFileEntry
plans = record notes { name = codes "plans"; kind = codes "directory" }

-- The answer to the fourth request is the directory; `sort` turns it round.
abbrev directory : ListWorld
directory = record {
  on_list = λ n. answered (notes ∷ plans ∷ []);
  json_bytes = λ e. length e.name;
  locale_compare = λ a b. natural 0;
  sort = λ before entries. reverse entries;
  respawned = done 2;
}

abbrev shown : RemoteFileEntry → Text → PublicFileEntry
shown e path = record { entry = e; path = path; fingerprint = fingerprint (λ t. t) e }

abbrev listing : List PublicFileEntry
listing = shown plans (codes "docs/plans") ∷ shown notes (codes "docs/notes") ∷ []

abbrev after_listing : FileRun
after_listing = (list helpful directory (codes "docs") two_leases).1

lists : list helpful directory (codes "docs") two_leases ≡ (done listing, after_listing)
unfolding list normalize_relative_path
lists = refl

list-IsListing_example :
    (listed : List PublicFileEntry) × ((listing
        ≡ directory.sort (compare_entries directory.locale_compare) listed)
      × IsListing helpful directory (codes "docs") listed)
list-IsListing_example =
    list-IsListing helpful directory (codes "docs") two_leases after_listing listing lists
