-- ===== src/Server/Waiters.antt =====
-- src/server.rs: the senders that the engine's loop keeps for the requests it has admitted. A sender
-- is the number of its channel. Whether a send finds the channel open is given from outside.
use hetero_paged_infer.Prelude.{ℕ, ◌+◌, Bool, Option, none, some, List, [], ◌∷◌, ◌++◌}
use hetero_paged_infer.Prelude.Tests.{if◌then◌else◌}
use hetero_paged_infer.SeqMap.{SeqMap, lookup, remove}
use hetero_paged_infer.Types.Request.{CompletedRequest}
use hetero_paged_infer.Engine.Collection.{StepChunk}
use hetero_paged_infer.Server.Streams.{RequestEvent, chunk, done}

-- The events that are sent, each with its channel.
abbrev pub Sent : Type 0
Sent = List (ℕ × RequestEvent)

-- One chunk: the request if its client is gone, and what is sent.
abbrev pub send_chunk : Bool → StepChunk → Option ℕ → List ℕ × Sent
send_chunk is_open (request_id, s, lp) none = ([], [])
send_chunk is_open (request_id, s, lp) (some channel) =
    if is_open then ([], (channel, chunk s lp) ∷ []) else (request_id ∷ [], [])

-- The loop over `events.chunks`: `disconnected`, and what is sent. `is_open i` is the state of the
-- channel at the chunk of index `i`.
unfoldable pub send_chunks : (ℕ → Bool) → SeqMap ℕ → ℕ → List StepChunk → List ℕ × Sent
send_chunks is_open waiters i [] = ([], [])
send_chunks is_open waiters i (c ∷ cs) =
    let (gone, sent) = send_chunk (is_open i) c (lookup c.0 waiters) in
    let (more_gone, more_sent) = send_chunks is_open waiters (i + 1) cs in
    (gone ++ more_gone, sent ++ more_sent)

-- `tx.send(RequestEvent::Done(completed))`, whose failure is ignored
abbrev pub send_done : CompletedRequest → Option ℕ → Sent
send_done c none = []
send_done c (some channel) = (channel, done c) ∷ []

unfoldable pub dispatch_completed : SeqMap ℕ → List CompletedRequest → Sent × SeqMap ℕ
dispatch_completed waiters [] = ([], waiters)
dispatch_completed waiters (c ∷ cs) =
    let (sent, waiters') = dispatch_completed (remove c.request_id waiters) cs in
    (send_done c (lookup c.request_id waiters) ++ sent, waiters')
