-- ===== src/Edge/Queue/Tests.antt =====
-- Runs of the queue, and the queue's theorems at these runs.
use oetp.Prelude.{
  ◌⊎◌, inl, ℕ, ◌+◌, ◌%◌, ◌≡◌, refl, Bool, false, none, List, [], ◌∷◌, ◌==◌, length, any, Bytes, beq,
  be_bytes, length-be_bytes,
}
use oetp.Result.{ok}
use oetp.Crates.Toy.{toy, toy-AesLaw}
use oetp.Edge.Queue.{
  QueuedSubmission, File, same_leaf, encrypt_bytes, read_queue, encoded, write_queue, enqueue,
  dequeue_all, send_all, flush_write, flush,
}
use oetp.Edge.Queue.Toy.{toy_queue_codec, toy_queue_codec-CodecLaw}
use oetp.Edge.Queue.File.{HasLeaf, write-read, dequeue-enqueue}
use oetp.Edge.Queue.Flush.{flush-dequeue, enqueue-flush_write}

abbrev submission : ℕ → QueuedSubmission
submission n = record {
  tenant_id = b't' ∷ [];
  exam_id = b'e' ∷ [];
  student_uuid = n ∷ [];
  packet_hash = [];
  answers_hash = [];
  merkle_leaf = n ∷ [];
  timestamp = n;
  signature = [];
  receipt_id = n ∷ [];
}

abbrev nonce : Bytes
nonce = be_bytes 12 3

abbrev key : Bytes
key = 5 ∷ []

-- The ledger takes the submissions of odd students, and counts them all.
abbrev send : ℕ → QueuedSubmission → Bool × ℕ
send ledger s = (s.timestamp % 2 == 1, ledger + 1)

-- The file with two submissions.
abbrev file : File
file = (write_queue toy toy_queue_codec none (submission 1 ∷ submission 2 ∷ []) key nonce).1

file_written :
    (write_queue toy toy_queue_codec none (submission 1 ∷ submission 2 ∷ []) key nonce).0 ≡ ok tt
unfolding write_queue encoded encrypt_bytes
file_written = refl

file_read : read_queue toy toy_queue_codec file key ≡ ok (submission 1 ∷ submission 2 ∷ [])
file_read =
    write-read toy toy_queue_codec none (submission 1 ∷ submission 2 ∷ []) key nonce toy-AesLaw
      toy_queue_codec-CodecLaw (length-be_bytes 12 3) file_written

enqueued : (enqueue toy toy_queue_codec file (submission 3) key nonce).0 ≡ ok tt
unfolding enqueue write_queue encoded encrypt_bytes
enqueued = refl

dequeue-enqueue_example :
    (HasLeaf (submission 3) (submission 1 ∷ submission 2 ∷ [])
      × (dequeue_all toy toy_queue_codec
            (enqueue toy toy_queue_codec file (submission 3) key nonce).1
            key
          ≡ ok (submission 1 ∷ submission 2 ∷ [])))
    ⊎ (¬ HasLeaf (submission 3) (submission 1 ∷ submission 2 ∷ [])
        × (dequeue_all toy toy_queue_codec
              (enqueue toy toy_queue_codec file (submission 3) key nonce).1
              key
            ≡ ok (submission 1 ∷ submission 2 ∷ submission 3 ∷ [])))
unfolding dequeue_all
dequeue-enqueue_example =
    dequeue-enqueue toy toy_queue_codec file (submission 3) key nonce
      (submission 1 ∷ submission 2 ∷ []) toy-AesLaw toy_queue_codec-CodecLaw (length-be_bytes 12 3)
      (inl file_read) enqueued

flushed : (flush send toy toy_queue_codec file key nonce 0).0 ≡ ok 1
unfolding flush dequeue_all flush_write write_queue encoded encrypt_bytes send_all read_queue
flushed = rw (flush, file_read) refl

left_in_file :
    (dequeue_all toy toy_queue_codec (flush send toy toy_queue_codec file key nonce 0).1 key
      ≡ ok (send_all send (submission 1 ∷ submission 2 ∷ []) 0).remaining)
    × (1 + length (send_all send (submission 1 ∷ submission 2 ∷ []) 0).remaining ≡ 2)
left_in_file =
    flush-dequeue send toy toy_queue_codec toy-AesLaw toy_queue_codec-CodecLaw file key nonce 0
      (submission 1) (submission 2 ∷ []) (length-be_bytes 12 3) file_read flushed

rewritten :
    (flush_write send toy toy_queue_codec false
      (send_all send (submission 1 ∷ submission 2 ∷ []) 0)
      (enqueue toy toy_queue_codec file (submission 3) key nonce).1
      key
      nonce).0
    ≡ ok 1
unfolding flush_write write_queue encoded encrypt_bytes send_all
rewritten = refl

enqueue-flush_write_example :
    (left : List QueuedSubmission) × (dequeue_all toy toy_queue_codec
        (flush_write send toy toy_queue_codec false
          (send_all send (submission 1 ∷ submission 2 ∷ []) 0)
          (enqueue toy toy_queue_codec file (submission 3) key nonce).1
          key
          nonce).1
        key
      ≡ ok left)
    × (any (same_leaf (submission 3)) left ≡ false)
unfolding beq
enqueue-flush_write_example =
    enqueue-flush_write send toy toy_queue_codec toy-AesLaw toy_queue_codec-CodecLaw file
      (submission 3) key nonce nonce 0 (submission 1) (submission 2 ∷ []) (length-be_bytes 12 3)
      file_read refl enqueued rewritten
