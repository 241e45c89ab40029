-- ===== src/Edge/Queue/File.antt =====
-- The queue's file (oetp-edge/src/queue.rs): writing, reading, and `enqueue`.
use oetp.Prelude.{
  Memᴰ, ◌⊎◌, ◌≢◌, ◌∙◌, ap, Bool-cases, beq_refl, beq_iff, ◌≤◌, ◌≡◌, refl, inl, inr, Bool, true,
  false, not, ◌&&◌, ◌||◌, some, List, [], ◌∷◌, ◌++◌, arith, ltb, Option-cases, length, take, drop,
  any, length-append, take-append-drop, length-take, Bytes, append_split,
}
use oetp.Result.{ok-cases, serialization, ok, ◌>>=◌, ok_or}
use oetp.Crates.{Crates, Codec, AesLaw, CodecLaw}
use oetp.Edge.Queue.{
  beq, unwrap_or, QueuedSubmission, File, same_leaf, push_new, encrypt_bytes, decrypt_bytes,
  read_queue, encoded, write_queue, enqueue, dequeue_all,
}

module _ (c : Crates) (bincode : Codec (List QueuedSubmission)) where
  take_nonce :
      (nonce ct : Bytes)
      → length nonce ≡ 12
      → (take 12 (nonce ++ ct) ≡ nonce) × (drop 12 (nonce ++ ct) ≡ ct)
  take_nonce nonce ct h =
      append_split (take 12 (nonce ++ ct)) nonce _ _
        (rw (length-take, length-append, h) (omega arith)) (take-append-drop 12 (nonce ++ ct))

  -- A non-empty file is decrypted and parsed.
  read_queue-some :
      (x key : Bytes)
      → 1 ≤ length x
      → read_queue c bincode (some x) key ≡ (
          decrypt_bytes c x key >>= λ plain.
          ok_or (bincode.deserialize plain) (serialization bincode.codec_error))
  unfolding read_queue
  read_queue-some [] key h = absurd (omega arith)
  read_queue-some (b ∷ x) key h = refl

  decrypt-append :
      (key nonce plain ct : Bytes)
      → AesLaw c
      → length nonce ≡ 12
      → c.aes_encrypt key nonce [] plain ≡ some ct
      → decrypt_bytes c (nonce ++ ct) key ≡ ok plain
  unfolding decrypt_bytes
  decrypt-append key nonce plain ct aes size sealed =
      let (n, m) = take_nonce nonce ct size in
      let long : ltb (length (nonce ++ ct)) 12 ≡ false =
        ground (arith, length-append nonce ct, size) in
      rw (long, n, m) (rw (aes.decrypt_encrypt key nonce [] plain ct sealed) refl)

  -- A queue that `write_queue` wrote is what `read_queue` reads under the same key, given that AES-GCM
  -- decrypts what it encrypts under the 12-byte nonce and bincode reads what it writes.
  pub write-read :
      (file : File) (queue : List QueuedSubmission) (key nonce : Bytes)
      → AesLaw c
      → CodecLaw bincode
      → length nonce ≡ 12
      → (write_queue c bincode file queue key nonce).0 ≡ ok tt
      → read_queue c bincode (write_queue c bincode file queue key nonce).1 key ≡ ok queue
  unfolding write_queue encoded encrypt_bytes
  write-read file queue key nonce aes codec size h = elim (Option-cases (bincode.serialize queue)) [
    | inl failed ↦ absurd (ground arith)
    | inr (plain, coded) ↦ elim (Option-cases (c.aes_encrypt key nonce [] plain)) [
      | inl failed ↦ absurd (ground arith)
      | inr (ct, sealed) ↦
          let opened = decrypt-append key nonce plain ct aes size sealed in
          let parsed = codec.deserialize_serialize queue plain coded in
          let written : (write_queue c bincode file queue key nonce).1 ≡ some (nonce ++ ct) =
            ground (arith, coded, sealed) in
          rw written (
            rw (read_queue-some (nonce ++ ct) key (omega (arith, length-append nonce ct)))
              (rw opened (rw parsed refl)))
    ]
  ]

  -- What `dequeue_all` reads after an `enqueue` that succeeds, by `push_new`.
  pub dequeue-push_new :
      (file : File) (submission : QueuedSubmission) (key nonce : Bytes)
      → AesLaw c
      → CodecLaw bincode
      → length nonce ≡ 12
      → (enqueue c bincode file submission key nonce).0 ≡ ok tt
      → dequeue_all c bincode (enqueue c bincode file submission key nonce).1 key
        ≡ ok (push_new (unwrap_or (read_queue c bincode file key) []) submission)
  unfolding enqueue dequeue_all
  dequeue-push_new file submission key nonce aes codec size h =
      write-read file _ key nonce aes codec size h

-- The submission's leaf is that of one of the queue.
abbrev pub HasLeaf : QueuedSubmission → List QueuedSubmission → Type 0
HasLeaf submission queue =
    (q : QueuedSubmission) × Memᴰ q queue × (q.merkle_leaf ≡ submission.merkle_leaf)

any-HasLeaf :
    (queue : List QueuedSubmission) (submission : QueuedSubmission)
    → any (same_leaf submission) queue ≡ true
    → HasLeaf submission queue
any-HasLeaf [] submission h = absurd (ground (arith, h))
any-HasLeaf (x ∷ rest) submission h = elim (Bool-cases (same_leaf submission x)) [
  | inl here ↦
      (x, Memᴰ.head refl, ground (arith, here, beq_iff x.merkle_leaf submission.merkle_leaf))
  | inr other ↦
      let (q, there, same) = any-HasLeaf rest submission (ground (arith, h, other)) in
      (q, Memᴰ.tail there, same)
]

HasLeaf-any :
    (queue : List QueuedSubmission) (submission q : QueuedSubmission)
    → Memᴰ q queue
    → q.merkle_leaf ≡ submission.merkle_leaf
    → any (same_leaf submission) queue ≡ true
HasLeaf-any [] submission q m same = elim m [ ]
HasLeaf-any (x ∷ rest) submission q (Memᴰ.head e) same =
    let here : beq x.merkle_leaf submission.merkle_leaf ≡ true =
      (beq_iff x.merkle_leaf submission.merkle_leaf).1 (rw (← e) same) in
    ground (arith, here)
HasLeaf-any (x ∷ rest) submission q (Memᴰ.tail there) same =
    ground (arith, HasLeaf-any rest submission q there same)

module _ (c : Crates) (bincode : Codec (List QueuedSubmission)) where
  -- The queue that `enqueue` starts from: what `dequeue_all` reads, or nothing where it fails.
  abbrev pub IsBefore : File → Bytes → List QueuedSubmission → Type 0
  IsBefore file key old =
      (dequeue_all c bincode file key ≡ ok old)
      ⊎ ((old ≡ []) × ((q : List QueuedSubmission) → dequeue_all c bincode file key ≢ ok q))

  IsBefore-unwrap_or :
      (file : File) (key : Bytes) (old : List QueuedSubmission)
      → IsBefore file key old
      → unwrap_or (read_queue c bincode file key) [] ≡ old
  unfolding dequeue_all
  IsBefore-unwrap_or file key old (inl read) = rw read refl
  IsBefore-unwrap_or file key old (inr (nothing, failed)) =
      elim (ok-cases (read_queue c bincode file key)) [
        | inl (q, read) ↦ absurd (failed q read)
        | inr bad ↦ ground (arith, bad, nothing)
      ]

  -- After an `enqueue` that succeeds, of a queue that could be read before it, or of one that could not
  -- and counts as empty, `dequeue_all` gives the same queue if a submission in it has the leaf of the new
  -- one, and else the same queue with the new one at its end, given that AES-GCM decrypts what it encrypts
  -- under the 12-byte nonce and bincode reads what it writes.
  pub dequeue-enqueue :
      (file : File) (submission : QueuedSubmission) (key nonce : Bytes)
      (old : List QueuedSubmission)
      → AesLaw c
      → CodecLaw bincode
      → length nonce ≡ 12
      → IsBefore file key old
      → (enqueue c bincode file submission key nonce).0 ≡ ok tt
      → (HasLeaf submission old
          × (dequeue_all c bincode (enqueue c bincode file submission key nonce).1 key ≡ ok old))
        ⊎ (¬ HasLeaf submission old
            × (dequeue_all c bincode (enqueue c bincode file submission key nonce).1 key
                ≡ ok (old ++ (submission ∷ []))))
  unfolding push_new
  dequeue-enqueue file submission key nonce old aes codec size before h =
      let read = dequeue-push_new c bincode file submission key nonce aes codec size h in
      let start = IsBefore-unwrap_or file key old before in
      let got : dequeue_all c bincode (enqueue c bincode file submission key nonce).1 key
          ≡ ok (push_new old submission) =
        read ∙ ap (λ q. ok (push_new q submission)) start in
      elim (Bool-cases (any (same_leaf submission) old)) [
        | inl there ↦ inl (any-HasLeaf old submission there, got ∙ ap ok (rw there refl))
        | inr new ↦ inr (
          (λ x.
              let (q, there, same) = x in
              ground (arith, new, HasLeaf-any old submission q there same)),
          got ∙ ap ok (rw new refl),
        )
      ]

-- No two submissions have one leaf.
abbrev pub distinct : List QueuedSubmission → Bool
distinct [] = true
distinct (s ∷ rest) = not (any (same_leaf s) rest) && distinct rest

any_append :
    (p : QueuedSubmission → Bool) (xs ys : List QueuedSubmission)
    → any p (xs ++ ys) ≡ (any p xs || any p ys)
any_append p [] ys = refl
any_append p (x ∷ xs) ys = ground (arith, any_append p xs ys)

distinct_append :
    (queue : List QueuedSubmission) (submission : QueuedSubmission)
    → distinct queue ≡ true
    → any (same_leaf submission) queue ≡ false
    → distinct (queue ++ (submission ∷ [])) ≡ true
distinct_append [] submission h new = refl
distinct_append (s ∷ rest) submission h new = ground (
  arith,
  distinct_append rest submission,
  any_append (same_leaf s) rest (submission ∷ []),
  beq_iff s.merkle_leaf submission.merkle_leaf,
  beq_iff submission.merkle_leaf s.merkle_leaf,
)

-- The new submission's leaf is among those of the queue afterwards.
pub push_new-any :
    (queue : List QueuedSubmission) (submission : QueuedSubmission)
    → any (same_leaf submission) (push_new queue submission) ≡ true
unfolding push_new
push_new-any queue submission = ground (
  arith,
  any_append (same_leaf submission) queue (submission ∷ []),
  beq_refl submission.merkle_leaf,
)

-- `push_new` keeps the leaves of a queue distinct, and the new submission's leaf is among them.
pub push_new-distinct :
    (queue : List QueuedSubmission) (submission : QueuedSubmission)
    → distinct queue ≡ true
    → (distinct (push_new queue submission) ≡ true)
      × (any (same_leaf submission) (push_new queue submission) ≡ true)
unfolding push_new
push_new-distinct queue submission h =
    (ground (arith, distinct_append queue submission), push_new-any queue submission)
