-- ===== src/Scheduler/Leaving.antt =====
-- What the end of a sequence does to the places of the ids, and to the invariant.
use hetero_paged_infer.Prelude.{ℕ, ◌+◌, ◌≡◌, ◌∙◌, some, List, [], ◌∷◌, ◌++◌, arith}
use hetero_paged_infer.Prelude.Tests.{◌==◌, if◌then◌else◌}
use hetero_paged_infer.SeqMap.{lookup}
use hetero_paged_infer.SeqMap.Laws.{lookup-remove}
use hetero_paged_infer.SeqMap.Sums.{IsMap-remove}
use hetero_paged_infer.Types.Request.{Request, RequestState}
use hetero_paged_infer.Types.Sequences.{Sequence}
use hetero_paged_infer.KvCache.Release.{free_sequence-KvValid}
use hetero_paged_infer.KvCache.Release.{lookup-freed}
use hetero_paged_infer.KvCache.Shape.{free_sequence-SameShape}
use hetero_paged_infer.Scheduler.{
  Scheduler, PendingRequest, with_state, end_decode, end_prefill, find_pending, remove_pending,
}
use hetero_paged_infer.Scheduler.Invariant.{places, pending_count, completed_count, Valid}

pub completed_count-push :
    (i seq_id : ℕ) (r : Request) (rs : List (ℕ × Request))
    → completed_count i (rs ++ (seq_id, r) ∷ [])
      ≡ completed_count i rs + (if seq_id == i then 1 else 0)
completed_count-push i seq_id r [] = ground arith
completed_count-push i seq_id r (x ∷ rs) = omega (arith, completed_count-push i seq_id r rs)

pub completed_count-append :
    (i : ℕ) (rs ts : List (ℕ × Request))
    → completed_count i (rs ++ ts) ≡ completed_count i rs + completed_count i ts
completed_count-append i [] ts = omega arith
completed_count-append i (r ∷ rs) ts = omega (arith, completed_count-append i rs ts)

pub pending_count-push :
    (i : ℕ) (p : PendingRequest) (ps : List PendingRequest)
    → pending_count i (ps ++ p ∷ []) ≡ pending_count i ps + (if p.seq_id == i then 1 else 0)
pending_count-push i p [] = ground arith
pending_count-push i p (x ∷ ps) = omega (arith, pending_count-push i p ps)

module _ (s : Scheduler) (seq_id : ℕ) (st : RequestState) (q : Sequence) where
  pub places-end_decode :
      lookup seq_id s.decode_sequences ≡ some q
      → (i : ℕ) → places i (end_decode s seq_id st q) ≡ places i s
  unfolding end_decode
  places-end_decode e i = ground (
    arith,
    lookup-remove i seq_id s.decode_sequences,
    completed_count-push i seq_id (with_state st q.request) s.completed_requests,
  )

  pub places-end_prefill :
      lookup seq_id s.prefill_sequences ≡ some q
      → (i : ℕ) → places i (end_prefill s seq_id st q) ≡ places i s
  unfolding end_prefill
  places-end_prefill e i = ground (
    arith,
    lookup-remove i seq_id s.prefill_sequences,
    completed_count-push i seq_id (with_state st q.request) s.completed_requests,
  )

  pub end_decode-Valid :
      lookup seq_id s.decode_sequences ≡ some q → Valid s → Valid (end_decode s seq_id st q)
  unfolding end_decode
  end_decode-Valid e v = record {
    unique = λ i. omega (arith, places-end_decode e i, v.unique i);
    fresh = λ i h. omega (arith, places-end_decode e i, v.fresh i h);
    tables = λ i. ground (
      arith,
      v.tables i,
      v.unique seq_id,
      lookup-freed s.kv_cache seq_id i,
      lookup-remove i seq_id s.decode_sequences,
    );
    prefill_named = v.prefill_named;
    decode_named = λ i. ground (arith, v.decode_named i, lookup-remove i seq_id s.decode_sequences);
    prefill_map = v.prefill_map;
    decode_map = IsMap-remove seq_id s.decode_sequences v.decode_map;
    kv = free_sequence-KvValid s.kv_cache seq_id v.kv;
    num_blocks = (free_sequence-SameShape s.kv_cache seq_id).size ∙ v.num_blocks;
    block_size = (free_sequence-SameShape s.kv_cache seq_id).block_size ∙ v.block_size;
  }

  pub end_prefill-Valid :
      lookup seq_id s.prefill_sequences ≡ some q → Valid s → Valid (end_prefill s seq_id st q)
  unfolding end_prefill
  end_prefill-Valid e v = record {
    unique = λ i. omega (arith, places-end_prefill e i, v.unique i);
    fresh = λ i h. omega (arith, places-end_prefill e i, v.fresh i h);
    tables = λ i. ground (
      arith,
      v.tables i,
      v.unique seq_id,
      lookup-freed s.kv_cache seq_id i,
      lookup-remove i seq_id s.prefill_sequences,
    );
    prefill_named =
        λ i. ground (arith, v.prefill_named i, lookup-remove i seq_id s.prefill_sequences);
    decode_named = v.decode_named;
    prefill_map = IsMap-remove seq_id s.prefill_sequences v.prefill_map;
    decode_map = v.decode_map;
    kv = free_sequence-KvValid s.kv_cache seq_id v.kv;
    num_blocks = (free_sequence-SameShape s.kv_cache seq_id).size ∙ v.num_blocks;
    block_size = (free_sequence-SameShape s.kv_cache seq_id).block_size ∙ v.block_size;
  }

pub pending_count-remove :
    (i seq_id : ℕ) (ps : List PendingRequest) (p : PendingRequest)
    → find_pending seq_id ps ≡ some p
    → pending_count i (remove_pending seq_id ps) + (if seq_id == i then 1 else 0)
      ≡ pending_count i ps
unfolding find_pending remove_pending
pending_count-remove i seq_id [] p e = cc
pending_count-remove i seq_id (x ∷ ps) p e = ground (arith, pending_count-remove i seq_id ps p)

-- Two states with the same places and the same active sequences are valid together.
pub Valid-resp :
    (s s' : Scheduler)
    → ((i : ℕ) → places i s' ≡ places i s)
    → s'.config ≡ s.config
    → s'.kv_cache ≡ s.kv_cache
    → s'.prefill_sequences ≡ s.prefill_sequences
    → s'.decode_sequences ≡ s.decode_sequences
    → s'.next_seq_id ≡ s.next_seq_id
    → Valid s
    → Valid s'
Valid-resp s s' e c k p d n v = record {
  unique = λ i. omega (arith, e i, v.unique i);
  fresh = λ i h. omega (arith, e i, v.fresh i (omega arith));
  tables = λ i. rw (k, d, p) (v.tables i);
  prefill_named = λ i. rw p (v.prefill_named i);
  decode_named = λ i. rw d (v.decode_named i);
  prefill_map = rw p v.prefill_map;
  decode_map = rw d v.decode_map;
  kv = rw k v.kv;
  num_blocks = rw (k, c) v.num_blocks;
  block_size = rw (k, c) v.block_size;
}
