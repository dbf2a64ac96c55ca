-- ===== src/Relay/Spool/Queries.antt =====
-- What the operations of the spool do to what can be read from it.
use serverwall.Base.{ℕ, ◌≡◌, refl, sym, ◌≢◌, none, some, arith, Text, Option-cases, inl, inr}
use serverwall.Relay.Spool.{
  Envelope, MessageMetadata, QueuedMessage, Spool, fresh, enqueue, dequeue, remove, update_metadata,
  rewrite_meta,
}
use serverwall.Relay.Spool.Files.{
  lookup, write, lookup-write, lookup-write_other, lookup-delete, lookup-delete_other,
}

pub dequeue-remove : (id : Text) (sp : Spool) → dequeue id (remove id sp) ≡ none
unfolding dequeue remove
dequeue-remove id sp = rw (lookup-delete id sp.metas) refl

pub dequeue-remove_other :
    (id other : Text) (sp : Spool) → id ≢ other → dequeue other (remove id sp) ≡ dequeue other sp
unfolding dequeue remove
dequeue-remove_other id other sp h =
    rw (lookup-delete_other id other sp.metas h, lookup-delete_other id other sp.msgs h) refl

pub dequeue-enqueue :
    (id : Text) (now : ℕ) (envelope : Envelope) (message : Text) (sp : Spool)
    → (dequeue id (enqueue id now envelope message sp)
        ≡ some (fresh id now envelope message, message))
      × ((other : Text)
          → id ≢ other
          → dequeue other (enqueue id now envelope message sp) ≡ dequeue other sp)
unfolding dequeue enqueue
dequeue-enqueue id now envelope message sp = (
  rw (lookup-write id (fresh id now envelope message) sp.metas, lookup-write id message sp.msgs)
      refl,
  λ other h.
      rw
        (
          lookup-write_other id other (fresh id now envelope message) sp.metas h,
          lookup-write_other id other message sp.msgs h,
        )
        refl,
)

pub dequeue-some :
    (id : Text) (sp : Spool) (q : QueuedMessage) (message : Text)
    → dequeue id sp ≡ some (q, message)
    → (lookup id sp.metas ≡ some q) × (lookup id sp.msgs ≡ some message)
unfolding dequeue
dequeue-some id sp q message h = elim (Option-cases (lookup id sp.metas)) [
  | inl e ↦ absurd (ground arith)
  | inr (p, e) ↦ elim (Option-cases (lookup id sp.msgs)) [
    | inl f ↦ absurd (ground arith)
    | inr (t, f) ↦ (ground arith, ground arith)
  ]
]

-- The metadata of a stored message are replaced and nothing else changes.
pub update_metadata-some :
    (id : Text) (metadata : MessageMetadata) (sp : Spool) (q : QueuedMessage) (message : Text)
    → dequeue id sp ≡ some (q, message)
    → (sp' : Spool) × (update_metadata id metadata sp ≡ some sp')
      × (dequeue id sp' ≡ some (record q { metadata = metadata }, message))
      × ((other : Text) → id ≢ other → dequeue other sp' ≡ dequeue other sp)
unfolding dequeue update_metadata rewrite_meta
update_metadata-some id metadata sp q message h =
    let (meta, msg) = dequeue-some id sp q message h in
    (
      record sp { metas = write id (record q { metadata = metadata }) sp.metas },
      rw (meta) refl,
      rw (lookup-write id (record q { metadata = metadata }) sp.metas, msg) refl,
      λ other o.
          rw (lookup-write_other id other (record q { metadata = metadata }) sp.metas o) refl,
    )

pub update_metadata_other :
    (id other : Text) (metadata : MessageMetadata) (sp sp' : Spool)
    → id ≢ other
    → update_metadata id metadata sp ≡ some sp'
    → dequeue other sp' ≡ dequeue other sp
unfolding dequeue update_metadata rewrite_meta
update_metadata_other id other metadata sp sp' h k = elim (Option-cases (lookup id sp.metas)) [
  | inl e ↦ absurd (ground arith)
  | inr (q, e) ↦
      let written = lookup-write_other id other (record q { metadata = metadata }) sp.metas h in
      let k' = rw (e, rewrite_meta) at k in
      let done : record sp { metas = write id (record q { metadata = metadata }) sp.metas } ≡ sp' =
        cc in
      rw (sym done, written) refl
]
