-- ===== src/Lib.antt =====
-- The logic of go-notes: the rules for paths of the vault and their resolution on the server, the writes
-- of the interface, the offline queue and its replay, the saving of notes with the merge of conflicting
-- edits, the tree and the tabs, the scan and the chunking of notes, and the throttle of password logins.
--
-- The parts and the code they stand for:
--   Base      shared types and lemmas. A `&str` is a list of code points (`Text`); its length in bytes is
--             that of its UTF-8 encoding, and a slice inside a character is a panic.
--   Paths     crates/shared/src/paths.rs: validation, containment, renaming, and the making of legal names.
--   Queue     crates/ui/src/offline/queue.rs: the queued changes and `coalesce`. Queue.Replay says what
--             replaying a queue does to the notes of a vault.
--   Throttle  crates/server/src/auth/throttle.rs: the wait after failed logins.
--   Diff      crates/ui/src/offline/diff.rs: the alignment of two texts by lines.
--   Merge     crates/ui/src/offline/merge.rs: the three-way merge, over the alignments of Diff.
--   Net       crates/ui/src/offline/net.rs: the loop that probes an unreachable server, as steps of a state.
--   App       crates/ui/src/state.rs: tabs, which of them has the focus, conflicts and hash tokens.
--   Outbox    crates/ui/src/offline/cache.rs: the stored outbox, compacted by Queue, and the cached notes.
--   Save      crates/ui/src/save.rs: the writes of one note, which ask Merge about a conflict. The slot of
--             the note and its task are a state, and Save.Run has the steps between them.
--   Sync      crates/ui/src/offline/sync.rs: the replay of the outbox against a server, and in Sync.Resolve
--             the three ways in which a person settles a conflict, which end in Save, App and Outbox.
--   Tree      crates/ui/src/offline/tree.rs: the edits of the sidebar's tree. Nodes and lists of children
--             are two data types; a mutable reference is the function applied to the node it leads to.
--   Access    crates/ui/src/vault.rs: the writes, which go to the server or, through Tree, Outbox and Net, to
--             what the device holds.
--   Vault     crates/server/src/vault/path.rs: what the server resolves, by the rules of Paths and the walk
--             that refuses symbolic links. The file system is a parameter.
--   Markdown  crates/server/src/markdown.rs: the split of the YAML block from the body, and the scan of a
--             note for links and tags, which asks Links about a label.
--   Chunk     crates/server/src/chunk.rs: the passages of a note, over the events that a parser makes of
--             the body that Markdown leaves.
--   Links     crates/shared/src/links.rs: the label of a typed link.
--
-- Bounds: the failures of a login key wrap around at 2^32, as a `u32` in a release build does; the ids,
-- times, indices and lengths are natural numbers, since nothing in the code can count up to their widths.
-- A panic is `none`. Loops are structural recursion, but for two that count their rounds: the cut of an
-- overlong buffer (Chunk.cut_long) has as many as the buffer has characters, and is `none` if it is not at
-- its end by then; the scan for links (Markdown.Scan.scan) has as many as the body. Each round takes at
-- least one.
--
-- Parameters: the server is a record of requests, each of which takes the state of the server and gives
-- an answer with the next one (`Sync.Api`). The clock is an argument. The parser of Markdown is a function
-- from a text to its events, the tables of Unicode are tests of a character, and the file system a function
-- from a path to what `symlink_metadata` says of it.
--
-- Not modelled: the views, the editor, the HTTP handlers and the SQL of the server, the IndexedDB
-- plumbing, the messages shown to the user, the listeners of the browser, the offline index, and the
-- first pass of the Markdown scan, over the events of the parser.
pub mod App
pub mod Chunk
pub mod Markdown
pub mod Tree
pub mod Vault
pub mod Links
pub mod Access
pub mod Base
pub mod Paths
pub mod Queue
pub mod Throttle
pub mod Diff
pub mod Merge
pub mod Net
pub mod Outbox
pub mod Save
pub mod Sync
