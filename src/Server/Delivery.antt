-- ===== src/Server/Delivery.antt =====
-- src/server.rs: how often a channel is written to, and by which part of a round.
use hetero_paged_infer.Types.Request.{CompletedRequest}
use hetero_paged_infer.Engine.Collection.{StepChunk}
use hetero_paged_infer.Server.Waiters.{Sent, dispatch_completed, send_chunks}
use hetero_paged_infer.SeqMap.{lookup, remove, insert, SeqMap}
use hetero_paged_infer.Prelude.{
  ℕ, ◌+◌, ◌≤◌, ◌≡◌, refl, Bool, some, List, [], ◌∷◌, ◌++◌, arith, inl, inr,
}
use hetero_paged_infer.Server.Streams.{chunk, done}
use hetero_paged_infer.Prelude.Tests.{◌==◌, if◌then◌else◌, Option-cases, Bool-cases}

-- The senders of a channel that are kept.
unfoldable pub holders : ℕ → SeqMap ℕ → ℕ
holders channel [] = 0
holders channel ((k, c) ∷ m) = (if c == channel then 1 else 0) + holders channel m

unfoldable pub events_to : ℕ → Sent → ℕ
events_to channel [] = 0
events_to channel ((c, e) ∷ s) = (if c == channel then 1 else 0) + events_to channel s

unfoldable pub dones_to : ℕ → Sent → ℕ
dones_to channel [] = 0
dones_to channel ((c, chunk t lp) ∷ s) = dones_to channel s
dones_to channel ((c, done r) ∷ s) = (if c == channel then 1 else 0) + dones_to channel s

-- Nothing is sent to the channel after a result.
unfoldable pub SilentAfterDone : ℕ → Sent → Type 0
SilentAfterDone channel [] = Unit {0}
SilentAfterDone channel ((c, chunk t lp) ∷ s) = SilentAfterDone channel s
SilentAfterDone channel ((c, done r) ∷ s) =
    (c ≡ channel → events_to channel s ≡ 0) × SilentAfterDone channel s

-- From the senders `w` to `w'`, with `n` submissions of the channel in between.
pub record Bounded (channel n : ℕ) (w : SeqMap ℕ) (sent : Sent) (w' : SeqMap ℕ) : Type 0 where
  pub dones : dones_to channel sent + holders channel w' ≤ holders channel w + n
  pub silent : holders channel w + n ≡ 0 → events_to channel sent ≡ 0
  pub last : holders channel w + n ≤ 1 → SilentAfterDone channel sent

module _ (channel : ℕ) where
  events_to-append :
      (s t : Sent) → events_to channel (s ++ t) ≡ events_to channel s + events_to channel t
  unfolding events_to
  events_to-append [] t = omega arith
  events_to-append ((c, e) ∷ s) t = omega (arith, events_to-append s t)

  pub dones_to-append :
      (s t : Sent) → dones_to channel (s ++ t) ≡ dones_to channel s + dones_to channel t
  unfolding dones_to
  dones_to-append [] t = omega arith
  dones_to-append ((c, chunk x lp) ∷ s) t = dones_to-append s t
  dones_to-append ((c, done r) ∷ s) t = omega (arith, dones_to-append s t)

  SilentAfterDone-append :
      (s t : Sent)
      → SilentAfterDone channel s
      → SilentAfterDone channel t
      → (1 ≤ dones_to channel s → events_to channel t ≡ 0)
      → SilentAfterDone channel (s ++ t)
  unfolding SilentAfterDone dones_to
  SilentAfterDone-append [] t h k q = k
  SilentAfterDone-append ((c, chunk x lp) ∷ s) t h k q = SilentAfterDone-append s t h k q
  SilentAfterDone-append ((c, done r) ∷ s) t (f, h) k q = (
    λ e. ground (arith, events_to-append s t, f e, q),
    SilentAfterDone-append s t h k (λ g. q (ground arith)),
  )

  pub Bounded-append :
      (n1 n2 : ℕ) (w w1 w2 : SeqMap ℕ) (s t : Sent)
      → Bounded channel n1 w s w1
      → Bounded channel n2 w1 t w2
      → Bounded channel (n1 + n2) w (s ++ t) w2
  Bounded-append n1 n2 w w1 w2 s t a b = record {
    dones = omega (arith, a.dones, b.dones, dones_to-append s t);
    silent = λ h. ground (arith, a.dones, a.silent, b.silent, events_to-append s t);
    last = λ h.
        SilentAfterDone-append s t (a.last (omega (arith, h))) (b.last (omega (arith, h, a.dones)))
          (λ d. b.silent (omega (arith, h, d, a.dones)));
  }

  pub Bounded-refl : (w : SeqMap ℕ) → Bounded channel 0 w [] w
  unfolding dones_to events_to SilentAfterDone
  Bounded-refl w = record { dones = omega arith; silent = λ h. refl; last = λ h. tt }

  pub holders-insert :
      (k c : ℕ) (m : SeqMap ℕ)
      → holders channel (insert k c m) ≤ holders channel m + (if c == channel then 1 else 0)
  unfolding holders insert
  holders-insert k c [] = ground arith
  holders-insert k c ((j, d) ∷ m) = ground (arith, holders-insert k c m)

  pub holders-remove : (k : ℕ) (m : SeqMap ℕ) → holders channel (remove k m) ≤ holders channel m
  unfolding holders remove
  holders-remove k [] = omega arith
  holders-remove k ((j, d) ∷ m) = ground (arith, holders-remove k m)

  -- The removal of a sender that was found.
  holders-remove_found :
      (k c : ℕ) (m : SeqMap ℕ)
      → lookup k m ≡ some c
      → holders channel (remove k m) + (if c == channel then 1 else 0) ≤ holders channel m
  unfolding holders remove lookup
  holders-remove_found k c [] h = cc
  holders-remove_found k c ((j, d) ∷ m) h =
      ground (arith, holders-remove_found k c m, holders-remove k m)

  holders-lookup :
      (k c : ℕ) (m : SeqMap ℕ)
      → lookup k m ≡ some c
      → (if c == channel then 1 else 0) ≤ holders channel m
  holders-lookup k c m h = omega (arith, holders-remove_found k c m h)

  pub send_chunks-silent :
      (is_open : ℕ → Bool) (w : SeqMap ℕ) (i : ℕ) (cs : List StepChunk)
      → let sent = (send_chunks is_open w i cs).1 in
        (dones_to channel sent ≡ 0)
        × (holders channel w ≡ 0 → events_to channel sent ≡ 0)
        × SilentAfterDone channel sent
  unfolding send_chunks events_to dones_to SilentAfterDone
  send_chunks-silent is_open w i [] = (refl, (λ h. refl), tt)
  send_chunks-silent is_open w i ((k, s, lp) ∷ cs) =
      let ih = send_chunks-silent is_open w (i + 1) cs in
      elim (Option-cases (lookup k w)) [
        | inl e ↦ rw e ih
        | inr (c, e) ↦ elim (Bool-cases (is_open i)) [
          | inl o ↦ rw (e, o) (ih.0, (λ h. ground (arith, ih.1 h, holders-lookup k c w e)), ih.2)
          | inr o ↦ rw (e, o) ih
        ]
      ]

  pub removed : (w : SeqMap ℕ) (k : ℕ) → Bounded channel 0 w [] (remove k w)
  unfolding dones_to events_to SilentAfterDone
  removed w k = record {
    dones = omega (arith, holders-remove k w);
    silent = λ h. refl;
    last = λ h. tt;
  }

  found :
      (w : SeqMap ℕ) (c : CompletedRequest) (d : ℕ)
      → lookup c.request_id w ≡ some d
      → Bounded channel 0 w ((d, done c) ∷ []) (remove c.request_id w)
  unfolding dones_to events_to SilentAfterDone
  found w c d e = record {
    dones = omega (arith, holders-remove_found c.request_id d w e);
    silent = λ h. omega (arith, h, holders-lookup c.request_id d w e);
    last = λ h. ((λ q. refl), tt);
  }

  pub dispatch-Bounded :
      (w : SeqMap ℕ) (cs : List CompletedRequest)
      → let x = dispatch_completed w cs in Bounded channel 0 w x.0 x.1
  unfolding dispatch_completed
  dispatch-Bounded w [] = Bounded-refl w
  dispatch-Bounded w (c ∷ cs) =
      let w1 = remove c.request_id w in
      elim (Option-cases (lookup c.request_id w)) [
        | inl e ↦
            rw e (Bounded-append 0 0 w w1 _ [] _ (removed w c.request_id) (dispatch-Bounded w1 cs))
        | inr (d, e) ↦ rw e (
            Bounded-append 0 0 w w1 _ ((d, done c) ∷ []) _ (found w c d e) (dispatch-Bounded w1 cs))
      ]

  pub inserted :
      (w : SeqMap ℕ) (k c : ℕ) → Bounded channel (if c == channel then 1 else 0) w [] (insert k c w)
  unfolding dones_to events_to SilentAfterDone
  inserted w k c = record {
    dones = omega (arith, holders-insert k c w);
    silent = λ h. refl;
    last = λ h. tt;
  }

  -- A submission that was not admitted.
  pub more_submissions : (w : SeqMap ℕ) (n : ℕ) → Bounded channel n w [] w
  unfolding dones_to events_to SilentAfterDone
  more_submissions w n = record { dones = omega arith; silent = λ h. refl; last = λ h. tt }

  -- Chunks, and the removal of the senders whose client is gone.
  pub chunks_then :
      (w w' : SeqMap ℕ) (sent : Sent)
      → (dones_to channel sent ≡ 0)
        × (holders channel w ≡ 0 → events_to channel sent ≡ 0)
        × SilentAfterDone channel sent
      → Bounded channel 0 w [] w'
      → Bounded channel 0 w sent w'
  unfolding dones_to
  chunks_then w w' sent h b = record {
    dones = omega (arith, h.0, b.dones);
    silent = λ e. h.1 (omega (arith, e));
    last = λ e. h.2;
  }

  pub Bounded-weaken :
      (m n : ℕ) (w : SeqMap ℕ) (sent : Sent) (w' : SeqMap ℕ)
      → m ≤ n
      → Bounded channel m w sent w'
      → Bounded channel n w sent w'
  Bounded-weaken m n w sent w' h b = record {
    dones = omega (arith, h, b.dones);
    silent = λ e. b.silent (omega (arith, h, e));
    last = λ e. b.last (omega (arith, h, e));
  }
