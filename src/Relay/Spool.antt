-- ===== src/Relay/Spool.antt =====
-- serverwall-relay/src/queue/message.rs and spool.rs. The spool directory is two lists of files by
-- queue identifier, the `.meta` files and the `.msg` files; a metadata file is the value that it
-- encodes, and a message is its bytes. Reads and writes succeed where the file exists. The
-- identifier and the instant that `enqueue` makes up are arguments.
pub mod Files
pub mod Queries
use serverwall.Base.{ℕ, List, [], ◌∷◌, Option, none, some, Text, length, map}
use Files.{lookup, write, delete}

pub record Envelope : Type 0 where
  pub mail_from : Text
  pub rcpt_to : List Text

pub data QueueStatus : Type 0 where
  pending active deferred held : QueueStatus

-- Instants are seconds.
pub record MessageMetadata : Type 0 where
  pub created : ℕ
  pub next_retry : ℕ
  pub attempts : ℕ
  pub last_error : Option Text
  pub status : QueueStatus
  pub size : ℕ

pub record QueuedMessage : Type 0 where
  pub id : Text
  pub envelope : Envelope
  pub metadata : MessageMetadata

pub record Spool : Type 0 where
  pub metas : List (Text × QueuedMessage)
  pub msgs : List (Text × Text)

-- A message as it is first queued.
unfoldable pub fresh : Text → ℕ → Envelope → Text → QueuedMessage
fresh id now envelope message = record {
  id = id;
  envelope = envelope;
  metadata = record {
    created = now;
    next_retry = now;
    attempts = 0;
    last_error = none;
    status = pending;
    size = length message;
  };
}

unfoldable pub enqueue : Text → ℕ → Envelope → Text → Spool → Spool
unfolding fresh write
enqueue id now envelope message sp = record {
  metas = write id (fresh id now envelope message) sp.metas;
  msgs = write id message sp.msgs;
}

-- Both files are read.
abbrev pub both_files : Option QueuedMessage → Option Text → Option (QueuedMessage × Text)
both_files none message = none
both_files (some queued) none = none
both_files (some queued) (some message) = some (queued, message)

unfoldable pub dequeue : Text → Spool → Option (QueuedMessage × Text)
dequeue id sp = both_files (lookup id sp.metas) (lookup id sp.msgs)

unfoldable pub remove : Text → Spool → Spool
remove id sp = record { metas = delete id sp.metas; msgs = delete id sp.msgs }

rewrite_meta : Text → MessageMetadata → Spool → Option QueuedMessage → Option Spool
unfolding write
rewrite_meta id metadata sp none = none
rewrite_meta id metadata sp (some queued) =
    some (record sp { metas = write id (record queued { metadata = metadata }) sp.metas })

unfoldable pub update_metadata : Text → MessageMetadata → Spool → Option Spool
unfolding rewrite_meta
update_metadata id metadata sp = rewrite_meta id metadata sp (lookup id sp.metas)

-- The metadata files, in the order of the directory.
unfoldable pub list : Spool → List QueuedMessage
list sp = map (λ f. f.1) sp.metas
