-- ===== src/Metrics/Stream.antt =====
-- The bus stream behind the consumer: apps/api/metrics-endpoint/internal/consumer/busstream.go. What
-- PollFetches returns in turn is a list; the commit of offsets, whose error the code drops, is left out.
use openllm_metrics.Prelude.{
  ℕ, zero, suc, ◌+◌, ◌≤◌, ◌≡◌, refl, ap, ◌∙◌, Bool, Option, none, some, List, [], ◌∷◌, ◌++◌, Text,
  Text-discrete, text, ite, if◌then◌else◌, length, arith,
}
use openllm_metrics.Metrics.Consumer.{BusEvent, Next, event, ended, broken}

pub record Record : Type 0 where
  pub topic : Text
  pub headers : List (Text × Text)
  pub value : Text

-- `closed` is IsClientClosed, `context_error` whether ctx.Err is not nil after the poll.
pub record Fetches : Type 0 where
  pub closed : Bool
  pub context_error : Bool
  pub errors : List Text
  pub records : List Record

abbrev pub header_event_id : Text
header_event_id = text "x-event-id"

-- The value of the first header with the name.
unfoldable pub event_id_of : List (Text × Text) → Text
event_id_of [] = []
event_id_of ((k, v) ∷ hs) = ite (Text-discrete k header_event_id) v (event_id_of hs)

unfoldable pub record_to_event : Record → BusEvent
record_to_event rec = record {
  topic = rec.topic;
  event_id = event_id_of rec.headers;
  payload = rec.value;
}

-- What a call of Next returns, with the queue and the polls that are left; `none` is a call that
-- waits for ever.
abbrev pub Answer : Type 0
Answer = Option Next × List Record × List Fetches

unfoldable pub first_error : List Text → Option Text
first_error [] = none
first_error (e ∷ es) = some e

answer_of : Fetches → List Fetches → Answer → Answer
answer_of f fs again = elim (first_error f.errors) [
  | some e ↦ (some (broken e), [], fs)
  | none ↦ elim (f.records) [ [] ↦ again | r ∷ rs ↦ (some (event (record_to_event r)), rs, fs) ]
]

unfoldable pub poll : List Fetches → Answer
unfolding answer_of
poll [] = (none, [], [])
poll (f ∷ fs) =
    let again = poll fs in
    if f.closed
    then (some ended, [], fs)
    else if f.context_error
    then (some ended, [], fs)
    else answer_of f fs again

-- Next
unfoldable pub next : List Record → List Fetches → Answer
next (r ∷ rs) fs = (some (event (record_to_event r)), rs, fs)
next [] fs = poll fs

-- The events of the records and the polls, in order, up to the end of the stream.
unfoldable pub events_of : List Record → List Next
events_of [] = []
events_of (r ∷ rs) = event (record_to_event r) ∷ events_of rs

unfoldable pub poll_events : Fetches → List Next → List Next
poll_events f rest =
    if f.closed
    then ended ∷ []
    else if f.context_error
    then ended ∷ []
    else elim (first_error f.errors) [ some e ↦ broken e ∷ [] | none ↦ events_of f.records ++ rest ]

unfoldable pub stream_of : List Fetches → List Next
unfolding poll_events
stream_of [] = []
stream_of (f ∷ fs) = poll_events f (stream_of fs)

-- What is got by calling Next up to n times, until it reports an end.
unfoldable pub gather : Option Next → List Next → List Next
gather none rest = []
gather (some (event e)) rest = event e ∷ rest
gather (some ended) rest = ended ∷ []
gather (some (broken e)) rest = broken e ∷ []

unfoldable pub calls : ℕ → List Record → List Fetches → List Next
unfolding gather
calls zero rs fs = []
calls (suc n) rs fs = let (answer, rs', fs') = next rs fs in gather answer (calls n rs' fs')

unfoldable pub record_count : List Fetches → ℕ
record_count [] = 0
record_count (f ∷ fs) = length f.records + record_count fs

poll-stream :
    (fs : List Fetches)
    → gather (poll fs).0 (events_of (poll fs).1 ++ stream_of (poll fs).2) ≡ stream_of fs
unfolding gather poll answer_of stream_of poll_events events_of
poll-stream [] = refl
poll-stream (f ∷ fs) = ground (arith, poll-stream fs)

poll-size :
    (fs : List Fetches) (e : BusEvent)
    → (poll fs).0 ≡ some (event e)
    → suc (length (poll fs).1 + record_count (poll fs).2) ≤ record_count fs
unfolding poll answer_of record_count
poll-size [] e h = cc
poll-size (f ∷ fs) e h = ground (arith, poll-size fs e)

gather-same :
    (a : Option Next) (x y : List Next)
    → ((e : BusEvent) → a ≡ some (event e) → x ≡ y)
    → gather a x ≡ gather a y
unfolding gather
gather-same none x y f = refl
gather-same (some (event e)) x y f = ap (◌∷◌ (event e)) (f e refl)
gather-same (some ended) x y f = refl
gather-same (some (broken e)) x y f = refl

-- Calling Next once more often than there are records left yields every record that was polled before
-- the stream's end, in order and once each, and then the end, if it has one.
pub calls-stream :
    (n : ℕ) (rs : List Record) (fs : List Fetches)
    → suc (length rs + record_count fs) ≤ n
    → calls n rs fs ≡ events_of rs ++ stream_of fs
unfolding calls next gather events_of
calls-stream zero rs fs l = absurd (omega (arith, l))
calls-stream (suc n) (r ∷ rs) fs l =
    ap (◌∷◌ (event (record_to_event r))) (calls-stream n rs fs (omega (arith, l)))
calls-stream (suc n) [] fs l =
    gather-same (poll fs).0 (calls n (poll fs).1 (poll fs).2)
      (events_of (poll fs).1 ++ stream_of (poll fs).2)
      (λ e h. calls-stream n (poll fs).1 (poll fs).2 (omega (arith, l, poll-size fs e h)))
    ∙ poll-stream fs
