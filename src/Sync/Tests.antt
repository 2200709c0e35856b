-- ===== src/Sync/Tests.antt =====
-- crates/ui/src/offline/sync.rs against a concrete server.
use go_notes.Base.{false, refl, true, none, [], ◌∷◌, Text, codes, ok, err}
use go_notes.Queue.{create_note, save_note, delete_note, move_note}
use go_notes.App.{editor, idle, Conflict, sync}
use go_notes.Outbox.{Queue}
use go_notes.Save.{fresh_slot}
use go_notes.Sync.Resolve.{Desk, kept_mine, take_theirs, kept_both}
use go_notes.Sync.Resolved.{IsSettled, resolutions-IsSettled}
use go_notes.Sync.{Api, not_found, changed, NoteMeta, Device}
use go_notes.Sync.Replayed.{Replayed}

abbrev meta_of : Text → NoteMeta
meta_of path = record { path = path; content_hash = codes "h1" }

-- A server that takes everything but a save, which finds another text.
abbrev stubborn : Api (Unit {0})
stubborn = record {
  post_note = λ path _ s. (ok (meta_of path), s);
  get_note = λ _ s. (err not_found, s);
  put_text = λ _ _ _ s. (err (changed (codes "h2") (codes "theirs")), s);
  remove = λ _ s. (ok tt, s);
  rename = λ _ _ s. (ok tt, s);
  post_folder = λ _ s. (ok tt, s);
  rename_folder = λ _ _ s. (ok tt, s);
  remove_folder = λ _ s. (ok tt, s);
}

abbrev waiting : Queue
waiting =
    record {
      id = 1;
      queued_at = 0;
      op = create_note (codes "a.md") (codes "one");
      last_error = none;
    }
    ∷ record {
      id = 2;
      queued_at = 0;
      op = move_note (codes "x.md") (codes "y.md");
      last_error = none;
    }
    ∷ record {
      id = 3;
      queued_at = 0;
      op = save_note (codes "b.md") (codes "mine") (codes "h0");
      last_error = none;
    }
    ∷ record { id = 4; queued_at = 0; op = delete_note (codes "c.md"); last_error = none }
    ∷ []

abbrev device : Device (Unit {0})
device = record {
  outbox = waiting;
  site = record {
    app = record {
      tabs = [];
      active = none;
      main_view = editor;
      drawer_open = false;
      conflicts = [];
      online = true;
      phase = idle;
      pending = [];
      refreshes = 0;
      reloads = 0;
    };
    notes = [];
    server = tt;
  };
}

-- A save of the note that was refused, with its conflict on the screen.
abbrev refused_save : Conflict
refused_save = record {
  path = codes "a.md";
  theirs = codes "b";
  their_hash = codes "h2";
  mine = codes "c";
  origin = sync 1;
}

abbrev desk : Desk
desk = record {
  world = record { slot = record fresh_slot { blocked = true }; app = device.site.app; tasks = [] };
  copy_slot = fresh_slot;
  notes = [];
  outbox = waiting;
  active_markdown = codes "c";
  starts = 0;
  losses = 0;
}

abbrev saved_meta : NoteMeta
saved_meta = record { path = codes "a.md"; content_hash = codes "h3" }

resolutions-IsSettled_example :
    IsSettled refused_save
      (codes "c")
      desk.starts
      (kept_mine refused_save (codes "c") (ok saved_meta) desk)
    × IsSettled refused_save refused_save.theirs desk.starts (take_theirs refused_save desk)
    × IsSettled refused_save refused_save.theirs desk.starts
        (kept_both refused_save (ok (saved_meta, codes "a")) desk)
resolutions-IsSettled_example =
    resolutions-IsSettled refused_save (codes "c") (codes "a") saved_meta desk refl
