-- ===== src/Edge/Queue.antt =====
-- oetp-edge/src/queue.rs: the encrypted queue of submissions that wait for the ledger. The state is the
-- queue's file, `none` where there is none; reading and writing it does not fail. The ledger is a state
-- of its own, and `send` is the request to it: whether it answers with success, and its state after.
pub mod File
pub mod Toy
pub mod Flush
mod Tests
use oetp.Prelude.{
  ℕ, suc, ◌+◌, ◌-◌, ◌/◌, ◌%◌, ap, Bool, true, false, not, Option, none, some, List, [], ◌∷◌, ◌++◌,
  ltb, if◌then◌else◌, length, take, drop, any, all, is_empty, Bytes, utf8, beq,
}
use oetp.Result.{
  unwrap_or, crypto, serialization, offline_queue, io, Result, ok, err, panic, unfinished, ◌>>=◌,
  ◌>>◌, reject, ok_or,
}
use oetp.Crates.{Crates, Codec}

pub record QueuedSubmission : Type 0 where
  pub tenant_id : Bytes
  pub exam_id : Bytes
  pub student_uuid : Bytes
  pub packet_hash : Bytes
  pub answers_hash : Bytes
  pub merkle_leaf : Bytes
  pub timestamp : ℕ
  pub signature : Bytes
  pub receipt_id : Bytes

abbrev pub File : Type 0
File = Option Bytes

abbrev pub same_leaf : QueuedSubmission → QueuedSubmission → Bool
same_leaf submission s = beq s.merkle_leaf submission.merkle_leaf

-- Deduplication by the leaf's hash.
unfoldable pub push_new : List QueuedSubmission → QueuedSubmission → List QueuedSubmission
push_new queue submission =
    if any (same_leaf submission) queue then queue else queue ++ (submission ∷ [])

module _ (c : Crates) where
  open c use {hkdf, aes_encrypt, aes_decrypt, aes_error}

  -- The key that `OfflineQueue::new` derives from the device's.
  unfoldable pub queue_key : Bytes → Bytes
  queue_key private_key = hkdf (some (utf8 "oetp-queue-key")) private_key (utf8 "offline-queue")

  -- The nonce is the one that `OsRng` draws.
  unfoldable pub encrypt_bytes : Bytes → Bytes → Bytes → Result Bytes
  encrypt_bytes message key nonce = do
    ciphertext ← ok_or (aes_encrypt key nonce [] message) (crypto aes_error)
    ok (nonce ++ ciphertext)

  unfoldable pub decrypt_bytes : Bytes → Bytes → Result Bytes
  decrypt_bytes message key = do
    reject (ltb (length message) 12) (offline_queue "corrupt queue file")
    ok_or (aes_decrypt key (take 12 message) [] (drop 12 message))
        (offline_queue "decryption failed")

module _ (c : Crates) (bincode : Codec (List QueuedSubmission)) where
  unfoldable pub read_queue : File → Bytes → Result (List QueuedSubmission)
  unfolding decrypt_bytes
  read_queue none key = ok []
  read_queue (some []) key = ok []
  read_queue (some (b ∷ encrypted)) key = do
    plaintext ← decrypt_bytes c (b ∷ encrypted) key
    ok_or (bincode.deserialize plaintext) (serialization bincode.codec_error)

  -- The bytes that are written.
  unfoldable pub encoded : List QueuedSubmission → Bytes → Bytes → Result Bytes
  unfolding encrypt_bytes
  encoded queue key nonce = do
    plaintext ← ok_or (bincode.serialize queue) (serialization bincode.codec_error)
    encrypt_bytes c plaintext key nonce

  unfoldable pub write_queue :
      File → List QueuedSubmission → Bytes → Bytes → Result (Unit {0}) × File
  unfolding encoded
  write_queue file queue key nonce = elim (encoded queue key nonce) [
    | ok encrypted ↦ (ok tt, some encrypted)
    | err e ↦ (err e, file)
    | panic ↦ (panic, file)
    | unfinished ↦ (unfinished, file)
  ]

  -- A queue that cannot be read counts as empty.
  unfoldable pub enqueue : File → QueuedSubmission → Bytes → Bytes → Result (Unit {0}) × File
  unfolding read_queue write_queue push_new
  enqueue file submission key nonce =
      write_queue file (push_new (unwrap_or (read_queue file key) []) submission) key nonce

  unfoldable pub dequeue_all : File → Bytes → Result (List QueuedSubmission)
  unfolding read_queue
  dequeue_all file key = read_queue file key

-- What the loop of `flush` leaves: the number sent, the submissions that remain, and the ledger.
pub record Sent (L : Type 0) : Type 0 where
  pub flushed : ℕ
  pub remaining : List QueuedSubmission
  pub ledger : L

module _ {L : Type 0} (send : L → QueuedSubmission → Bool × L) where
  unfoldable pub send_all : List QueuedSubmission → L → Sent L
  send_all [] ledger = record { flushed = 0; remaining = []; ledger = ledger }
  send_all (sub ∷ rest) ledger =
      let (success, after) = send ledger sub in
      let later = send_all rest after in
      if success
      then record later { flushed = later.flushed + 1 }
      else record later { remaining = sub ∷ later.remaining }

  module _ (c : Crates) (bincode : Codec (List QueuedSubmission)) where
    -- The first part of `flush`: the queue is read, and each submission is sent once.
    unfoldable pub flush_send : File → Bytes → L → Result (Sent L)
    unfolding dequeue_all send_all
    flush_send file key ledger = do
      submissions ← dequeue_all c bincode file key
      ok (send_all submissions ledger)

    -- The last part: what remains is written over the file as it then is. An empty queue had returned
    -- before, without a write.
    unfoldable pub flush_write : Bool → Sent L → File → Bytes → Bytes → Result ℕ × File
    unfolding write_queue
    flush_write true sent file key nonce = (ok 0, file)
    flush_write false sent file key nonce =
        let (written, after) = write_queue c bincode file sent.remaining key nonce in
        (written >> ok sent.flushed, after)

    -- `flush` with nothing in between.
    unfoldable pub flush : File → Bytes → Bytes → L → Result ℕ × File × L
    unfolding dequeue_all send_all flush_write
    flush file key nonce ledger = elim (dequeue_all c bincode file key) [
      | ok submissions ↦
          (let sent = send_all submissions ledger in
            let (reply, after) = flush_write (is_empty submissions) sent file key nonce in
            (reply, after, sent.ledger))
      | err e ↦ (err e, file, ledger)
      | panic ↦ (panic, file, ledger)
      | unfinished ↦ (unfinished, file, ledger)
    ]
