-- ===== src/Edge/Submit/Delivered.antt =====
-- Where a submission is after submit (oetp-edge/src/api.rs), and after a flush.
use oetp.Prelude.{
  ◌∙◌, sym, none, ◌≤◌, refl, ◌||◌, ◌∷◌, ◌≡◌, ◌⊎◌, inl, inr, Bool, true, List, arith, Bool-cases,
  length, any, Bytes,
}
use oetp.Result.{ok}
use oetp.Crates.{Crates, Codec, CodecLaw, AesLaw}
use oetp.Clock.{Clock}
use oetp.Api.{check_api_key, Headers}
use oetp.Edge.Queue.{
  read_queue, flush, encoded, write_queue, QueuedSubmission, enqueue, dequeue_all, same_leaf,
  send_all,
}
use oetp.Edge.Queue.File.{write-read, dequeue-push_new, push_new-any}
use oetp.Edge.Queue.Flush.{flush_lem}
use oetp.Edge.State.{AppState}
use oetp.Edge.Submit.{
  ap, some, ℕ, handle_system_flush, [], SubmitRequest, SubmitResponse, Drawn, post_or_enqueue,
  handle_submit,
}
use oetp.Edge.Submit.Accepted.{SubmitOk, submit-SubmitOk, submitted, after}

-- A ledger that takes every submission and keeps them.
abbrev pub take_all : List QueuedSubmission → QueuedSubmission → Bool × List QueuedSubmission
take_all taken q = (true, q ∷ taken)

send_all-take_all :
    (queue taken : List QueuedSubmission)
    → (send_all take_all queue taken).remaining ≡ []
      × ((send_all take_all queue taken).flushed ≡ length queue)
      × ((p : QueuedSubmission → Bool)
          → (any p queue || any p taken) ≡ true
          → any p (send_all take_all queue taken).ledger ≡ true)
unfolding send_all
send_all-take_all [] taken = (refl, refl, λ p h. h)
send_all-take_all (x ∷ queue) taken =
    let (none_left, number, all_there) = send_all-take_all queue (x ∷ taken) in
    (none_left, ground (arith, number), λ p h. all_there p (ground (arith, h)))

module _ (c : Crates) (bincode : Codec (List QueuedSubmission)) where
  -- The queue can be read, and has a submission with the leaf of this one.
  abbrev pub InQueue : AppState → QueuedSubmission → Type 0
  InQueue s q =
      (queue : List QueuedSubmission) × (dequeue_all c bincode s.queue.file s.queue.key ≡ ok queue)
      × (any (same_leaf q) queue ≡ true)

  module _ (aes : AesLaw c) (codec : CodecLaw bincode) where
    enqueued :
        (q : QueuedSubmission) (nonce : Bytes) (s : AppState)
        → length nonce ≡ 12
        → (enqueue c bincode s.queue.file q s.queue.key nonce).0 ≡ ok tt
        → (queue : List QueuedSubmission) × (dequeue_all c bincode
              (enqueue c bincode s.queue.file q s.queue.key nonce).1
              s.queue.key
            ≡ ok queue)
          × (any (same_leaf q) queue ≡ true)
    enqueued q nonce s size h = (
      _,
      dequeue-push_new c bincode s.queue.file q s.queue.key nonce aes codec size h,
      push_new-any _ q,
    )

    kept-InQueue :
        (post : QueuedSubmission → Bool) (q : QueuedSubmission) (nonce : Bytes) (s : AppState)
        → length nonce ≡ 12
        → (post_or_enqueue c bincode post q nonce s).0 ≡ ok tt
        → ((post q ≡ true) × ((post_or_enqueue c bincode post q nonce s).1 ≡ s))
          ⊎ InQueue (post_or_enqueue c bincode post q nonce s).1 q
    unfolding post_or_enqueue
    kept-InQueue post q nonce s size h = elim (Bool-cases (post q)) [
      | inl taken ↦ inl (taken, ground (arith, taken))
      | inr failed ↦
          let left : (post_or_enqueue c bincode post q nonce s).1 ≡ record s {
            queue = record s.queue {
              file = (enqueue c bincode s.queue.file q s.queue.key nonce).1;
            };
          } =
            ground (arith, failed) in
          let wrote : (enqueue c bincode s.queue.file q s.queue.key nonce).0 ≡ ok tt =
            ground (arith, failed, h) in
          inr (rw left (enqueued q nonce s size wrote))
    ]

    module _ (clock later : Clock) (drawn : Drawn) (headers : Headers) (req : SubmitRequest)
        (s : AppState) {r : SubmitResponse} where
      -- A submit that succeeds was made within the exam window, of an entry that was unlocked, its
      -- receipt is that of the submission, and the ledger took the submission, or its leaf is in the
      -- queue that the file then holds.
      pub submit-InQueue :
          (post : QueuedSubmission → Bool)
          → length drawn.queue_nonce ≡ 12
          → (handle_submit c bincode clock later drawn post headers req s).0 ≡ ok r
          → (o : SubmitOk c bincode clock later drawn post headers req s r) × ((post
                  (submitted c bincode clock later drawn post headers req s o.entry o.seed)
                ≡ true)
              ⊎ InQueue
                  (after c bincode clock later drawn post headers req s)
                  (submitted c bincode clock later drawn post headers req s o.entry o.seed))
      submit-InQueue post size h =
          let o = submit-SubmitOk c bincode clock later drawn post headers req s h in
          let q = submitted c bincode clock later drawn post headers req s o.entry o.seed in
          (
            o,
            elim (kept-InQueue post q drawn.queue_nonce s size o.kept) [
              | inl (taken, same) ↦ inl taken
              | inr queued ↦ inr (rw o.left queued)
            ],
          )

  module _ (aes : AesLaw c) (codec : CodecLaw bincode) (headers : Headers) (nonce : Bytes)
      (s : AppState) (q : QueuedSubmission) (taken : List QueuedSubmission) where
    -- The daemon and the ledger after the flush.
    abbrev pub flushed : AppState × List QueuedSubmission
    flushed = (handle_system_flush c bincode take_all headers nonce (s, taken)).1

    flush_ok :
        (queue : List QueuedSubmission) {empty : Bytes}
        → dequeue_all c bincode s.queue.file s.queue.key ≡ ok queue
        → any (same_leaf q) queue ≡ true
        → encoded c bincode [] s.queue.key nonce ≡ ok empty
        → flush take_all c bincode s.queue.file s.queue.key nonce taken
          ≡ (ok (length queue), some empty, (send_all take_all queue taken).ledger)
    unfolding dequeue_all write_queue
    flush_ok [] read there e = absurd (ground (arith, there))
    flush_ok (x ∷ rest) read there e =
        let (none_left, number, _) = send_all-take_all (x ∷ rest) taken in
        rw (flush_lem take_all c bincode aes codec s.queue.file s.queue.key nonce taken x rest read)
          (rw none_left (rw number (rw (write_queue, e) refl)))

    emptied :
        {empty : Bytes}
        → length nonce ≡ 12
        → encoded c bincode [] s.queue.key nonce ≡ ok empty
        → read_queue c bincode (some empty) s.queue.key ≡ ok []
    unfolding write_queue
    emptied {empty} size e =
        let written : write_queue c bincode none [] s.queue.key nonce ≡ (ok tt, some empty) =
          rw (write_queue, e) refl in
        let back =
          write-read c bincode none [] s.queue.key nonce aes codec size (ap (λ p. p.0) written) in
        ap (λ p. read_queue c bincode p.1 s.queue.key) (sym written) ∙ back

    some_queued :
        (queue : List QueuedSubmission) → any (same_leaf q) queue ≡ true → 1 ≤ length queue
    some_queued [] there = absurd (ground (arith, there))
    some_queued (x ∷ queue) there = omega arith

    -- A flush with the daemon's API key delivers a queued submission, where the ledger takes every
    -- submission and the empty queue can be encrypted: it replies with the number of the queued ones,
    -- the queue is empty afterwards, and the ledger has a submission with the leaf.
    pub flush-delivers :
        {empty : Bytes}
        → InQueue s q
        → check_api_key s.config.api_key headers ≡ ok tt
        → length nonce ≡ 12
        → encoded c bincode [] s.queue.key nonce ≡ ok empty
        → (n : ℕ) × ((handle_system_flush c bincode take_all headers nonce (s, taken)).0 ≡ ok n)
          × (1 ≤ n)
          × (dequeue_all c bincode flushed.0.queue.file flushed.0.queue.key ≡ ok [])
          × (any (same_leaf q) flushed.1 ≡ true)
    unfolding handle_system_flush dequeue_all
    flush-delivers {empty} (queue, read, there) key size e =
        let ran = flush_ok queue read there e in
        let (_, _, all_there) = send_all-take_all queue taken in
        let handled : handle_system_flush c bincode take_all headers nonce (s, taken) ≡ (
          ok (length queue),
          (
            record s { queue = record s.queue { file = some empty } },
            (send_all take_all queue taken).ledger,
          ),
        ) =
          rw key (rw ran refl) in
        (
          length queue,
          ap (λ p. p.0) handled,
          some_queued queue there,
          rw (ap (λ p. p.1) handled) (emptied size e),
          rw (ap (λ p. p.1) handled) (all_there (same_leaf q) (ground (arith, there))),
        )
