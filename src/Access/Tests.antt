-- ===== src/Access/Tests.antt =====
-- crates/ui/src/vault.rs at a concrete store and concrete answers.
use go_notes.Base.{ℕ, true, false, none, [], Text, codes, ok, err}
use go_notes.Sync.{offline, NoteMeta, already_exists}
use go_notes.Access.{Store, Answer}
use go_notes.Access.Accounted.{Accounted}

abbrev store : Store
store = record {
  notes = [];
  outbox = [];
  pending = [];
  tree = none;
  shown_tree = none;
  net = record { online = true; probing = false; probes = []; syncs = 0 };
}

abbrev at_path : Text
at_path = codes "Projects/a.md"

abbrev projects : Text
projects = codes "Projects"

abbrev unreachable : Answer (NoteMeta × Text)
unreachable = err (offline (codes "Failed to fetch"))

abbrev renamed_links : Answer (Text × ℕ)
renamed_links = ok (codes "Archive", 2)

abbrev there_already : Answer (Unit {0})
there_already = err (already_exists (codes "It is there."))
