-- ===== src/Edge/Queue/Flush.antt =====
-- `flush` (oetp-edge/src/queue.rs), alone and with an `enqueue` during it.
use oetp.Prelude.{
  refl, Memᴰ-append_left, Memᴰ-append_cases, inr, inl, Bool-cases, ℕ, suc, ◌+◌, ◌≡◌, Bool, List, [],
  ◌∷◌, Memᴰ, arith, length, Bytes,
}
use oetp.Result.{ok, ◌>>◌}
use oetp.Crates.{Crates, Codec, AesLaw, CodecLaw}
use oetp.Edge.Queue.{
  false, any, same_leaf, enqueue, QueuedSubmission, File, read_queue, write_queue, enqueue,
  dequeue_all, send_all, flush_write, flush,
}
use oetp.Edge.Queue.File.{write-read}

module _ {L : Type 0} (send : L → QueuedSubmission → Bool × L) where
  -- Each submission is either sent with success or remains.
  send_all_total :
      (queue : List QueuedSubmission) (ledger : L)
      → (send_all send queue ledger).flushed + length (send_all send queue ledger).remaining
        ≡ length queue
  unfolding send_all
  send_all_total [] ledger = omega arith
  send_all_total (s ∷ rest) ledger = ground (arith, send_all_total rest (send ledger s).1)

  send_all-Memᴰ :
      (queue : List QueuedSubmission) (ledger : L) {s : QueuedSubmission}
      → Memᴰ s (send_all send queue ledger).remaining
      → Memᴰ s queue
  unfolding send_all
  send_all-Memᴰ [] ledger m = m
  send_all-Memᴰ (x ∷ rest) ledger {s} m = elim (Bool-cases (send ledger x).0) [
    | inl sent ↦ Memᴰ.tail (send_all-Memᴰ rest (send ledger x).1 (rw sent at m))
    | inr kept ↦ elim (Memᴰ-append_cases (x ∷ []) (rw kept at m)) [
      | inl here ↦ Memᴰ-append_left rest here
      | inr there ↦ Memᴰ.tail (send_all-Memᴰ rest (send ledger x).1 there)
    ]
  ]

  send_all-any :
      (p : QueuedSubmission → Bool) (queue : List QueuedSubmission) (ledger : L)
      → any p queue ≡ false
      → any p (send_all send queue ledger).remaining ≡ false
  unfolding send_all
  send_all-any p [] ledger h = refl
  send_all-any p (x ∷ rest) ledger h = ground (arith, h, send_all-any p rest (send ledger x).1)

  module _ (c : Crates) (bincode : Codec (List QueuedSubmission)) (aes : AesLaw c)
      (codec : CodecLaw bincode) where
    pub flush_lem :
        (file : File) (key nonce : Bytes) (ledger : L) (s : QueuedSubmission)
        (rest : List QueuedSubmission)
        → read_queue c bincode file key ≡ ok (s ∷ rest)
        → flush send c bincode file key nonce ledger ≡ (
          (write_queue c bincode file (send_all send (s ∷ rest) ledger).remaining key nonce).0
              >> ok (send_all send (s ∷ rest) ledger).flushed,
          (write_queue c bincode file (send_all send (s ∷ rest) ledger).remaining key nonce).1,
          (send_all send (s ∷ rest) ledger).ledger,
        )
    unfolding flush flush_write dequeue_all
    flush_lem file key nonce ledger s rest old = rw (flush, old) refl

    -- A `flush` that succeeds, of a queue that is not empty, with no `enqueue` during it, leaves in the
    -- file the submissions that the ledger did not take, and returns the number of the others.
    pub flush-dequeue :
        (file : File) (key nonce : Bytes) (ledger : L) (s : QueuedSubmission)
        (rest : List QueuedSubmission) {n : ℕ}
        → length nonce ≡ 12
        → read_queue c bincode file key ≡ ok (s ∷ rest)
        → (flush send c bincode file key nonce ledger).0 ≡ ok n
        → (dequeue_all c bincode (flush send c bincode file key nonce ledger).1 key
            ≡ ok (send_all send (s ∷ rest) ledger).remaining)
          × (n + length (send_all send (s ∷ rest) ledger).remaining ≡ suc (length rest))
    unfolding dequeue_all
    flush-dequeue file key nonce ledger s rest {n} size old h =
        let sent = send_all send (s ∷ rest) ledger in
        let w = write_queue c bincode file sent.remaining key nonce in
        let ran = flush_lem file key nonce ledger s rest old in
        let written : w.0 ≡ ok tt = ground (arith, ran, h) in
        let count : n ≡ sent.flushed = ground (arith, ran, h) in
        (
          rw ran (write-read c bincode file sent.remaining key nonce aes codec size written),
          rw count (send_all_total (s ∷ rest) ledger),
        )

    -- A submission that is enqueued with success after `flush` has read a queue that is not empty, and
    -- before it writes what remains, is not in the queue afterwards, where the queue that was read had
    -- none with its leaf.
    pub enqueue-flush_write :
        (file : File) (submission : QueuedSubmission) (key first second : Bytes) (ledger : L)
        (x : QueuedSubmission) (rest : List QueuedSubmission) {n : ℕ}
        → length second ≡ 12
        → read_queue c bincode file key ≡ ok (x ∷ rest)
        → any (same_leaf submission) (x ∷ rest) ≡ false
        → (enqueue c bincode file submission key first).0 ≡ ok tt
        → (flush_write send c bincode false
            (send_all send (x ∷ rest) ledger)
            (enqueue c bincode file submission key first).1
            key
            second).0
          ≡ ok n
        → (left : List QueuedSubmission) × (dequeue_all c bincode
              (flush_write send c bincode false
                (send_all send (x ∷ rest) ledger)
                (enqueue c bincode file submission key first).1
                key
                second).1
              key
            ≡ ok left)
          × (any (same_leaf submission) left ≡ false)
    unfolding flush_write dequeue_all
    enqueue-flush_write file submission key first second ledger x rest {n} size old new queued
          flushed =
        let sent = send_all send (x ∷ rest) ledger in
        let file' = (enqueue c bincode file submission key first).1 in
        (
          sent.remaining,
          write-read c bincode file' sent.remaining key second aes codec size
              (ground (arith, flushed)),
          send_all-any (same_leaf submission) (x ∷ rest) ledger new,
        )
