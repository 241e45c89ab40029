-- ===== src/Edge/Submit/Accepted.antt =====
-- What a submit that succeeds (oetp-edge/src/api.rs) has found and leaves behind.
use oetp.Prelude.{◌≤◌, ◌≡◌, inl, inr, Bool, some, List, arith, Option-cases, Bytes, lookup}
use oetp.Result.{ok-cases, ok}
use oetp.Crates.{Crates, Codec}
use oetp.Clock.{Clock, current_timestamp_secs}
use oetp.Api.{Headers}
use oetp.Receipt.{generate_receipt_id}
use oetp.Edge.Queue.{QueuedSubmission}
use oetp.Edge.State.{CachedExamData, AppState}
use oetp.Edge.Submit.{
  SubmitRequest, SubmitResponse, Drawn, submission, student_receipt, personal_copy, post_or_enqueue,
  handle_submit,
}

module _ (c : Crates) (bincode : Codec (List QueuedSubmission)) (clock later : Clock)
    (drawn : Drawn) (post : QueuedSubmission → Bool) (headers : Headers) (req : SubmitRequest)
    (s : AppState) where
  -- The submission of answers to an entry that was unlocked with the seed.
  abbrev pub submitted : CachedExamData → Bytes → QueuedSubmission
  submitted entry seed =
      submission c s.config s.device_key req entry seed (current_timestamp_secs later)
        (generate_receipt_id c drawn.receipt)

  abbrev pub after : AppState
  after = (handle_submit c bincode clock later drawn post headers req s).1

  -- The steps of a submit that succeeds, up to the post.
  pub record SubmitOk (r : SubmitResponse) : Type 0 where
    pub entry : CachedExamData
    pub seed : Bytes
    pub cached : lookup (c.uuid_to_string req.student_uuid) s.cache ≡ some entry
    pub unlocked : entry.variant_seed ≡ some seed
    pub begun : s.config.exam_window_start ≤ current_timestamp_secs clock
    pub not_over : current_timestamp_secs clock ≤ s.config.exam_window_end
    pub receipt : r.receipt ≡ student_receipt c req (submitted entry seed)
    pub kept : (post_or_enqueue c bincode post (submitted entry seed) drawn.queue_nonce s).0 ≡ ok tt
    pub left : after ≡ (post_or_enqueue c bincode post (submitted entry seed) drawn.queue_nonce s).1

  pub submit-SubmitOk :
      {r : SubmitResponse}
      → (handle_submit c bincode clock later drawn post headers req s).0 ≡ ok r
      → SubmitOk r
  unfolding handle_submit
  submit-SubmitOk {r} h = elim (Option-cases (lookup (c.uuid_to_string req.student_uuid) s.cache)) [
    | inl missing ↦ absurd (ground (arith, missing, h))
    | inr (entry, cached) ↦ elim (Option-cases entry.variant_seed) [
      | inl locked ↦ absurd (ground (arith, cached, locked, h))
      | inr (seed, unlocked) ↦
          elim (ok-cases
            (personal_copy c s.config req (generate_receipt_id c drawn.receipt) drawn.copy_nonce)) [
              | inr bad ↦ absurd (ground (arith, cached, unlocked, bad, h))
              | inl (copy, made) ↦ record {
                entry = entry;
                seed = seed;
                cached = cached;
                unlocked = unlocked;
                begun = ground (arith, cached, unlocked, made, h);
                not_over = ground (arith, cached, unlocked, made, h);
                receipt = ground (arith, cached, unlocked, made, h);
                kept = ground (arith, cached, unlocked, made, h);
                left = ground (arith, cached, unlocked, made, h);
              }
            ]
    ]
  ]
