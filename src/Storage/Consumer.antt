-- ===== src/Storage/Consumer.antt =====
-- `_process_message` with its retry, and `run_consumer`, of module4-storage/app/consumer.py, over the
-- tables, policies and triggers of Storage/Api. The validation issues are left out: no decision of
-- the consumer reads them, and a failure to store them is one of the session.
pub mod Laws
pub mod Attempt
pub mod Loop
use Prim.Native.String
use prompt_flow_ai.Prelude.{
  ℕ, ◌+◌, String, Bool, true, false, not, Option, none, some, List, [], ◌∷◌, any, if◌then◌else◌,
}
use prompt_flow_ai.Prelude.Text.{Text, codes, text_eq}
use prompt_flow_ai.Redis.{Redis, exists, setex}
use prompt_flow_ai.Storage.Schemas.{get, KafkaPayload, PaperCreate}
use prompt_flow_ai.Storage.Build.{Tools, build_paper_create}
use prompt_flow_ai.Storage.Api.Tables.{Row, Database, Session}
use prompt_flow_ai.Storage.Api.Context.{World as Clock}
use prompt_flow_ai.Storage.Api.Papers.{one_or_none, with_key, create}

pub record State : Type 0 where
  pub redis : Redis
  pub db : Database

-- What one attempt meets: whether Redis answers the check and the mark, whether the session works up
-- to the lookup, the clock with the new identifier and whether the commit works, and the builder's
-- tools.
pub record World : Type 0 where
  pub redis_answers_check : Bool
  pub redis_answers_mark : Bool
  pub session_works : Bool
  pub clock : Clock
  pub tools : Tools

abbrev pub ttl_seconds : ℕ
ttl_seconds = 604800

abbrev pub processed_key : String → String
processed_key key = String.◌++◌ "m4:processed:" key

-- `set_rls_context` of the consumer; a null department sets the empty text.
abbrev text_or_empty : Option Text → Text
text_or_empty none = []
text_or_empty (some t) = t

unfoldable pub session_of : KafkaPayload → Session
session_of p = record {
  department_code = text_or_empty (get (codes "UNKNOWN") p.department_code);
  role = codes "system";
  user_id = codes "kafka-consumer";
  actor_type = codes "system";
  change_reason = codes "kafka_ingestion";
  trace_id = p.trace_id;
}

-- An attempt returns or raises.
pub data Ending : Type 0 where
  returned raised : Ending

-- `mark_processed`
unfoldable pub mark_processed : World → String → State → Ending × State
mark_processed w key s =
    if w.redis_answers_mark
    then (returned, record s { redis = setex w.clock.now (processed_key key) ttl_seconds s.redis })
    else (raised, s)

-- The end of an attempt, by what the insertion gave: the commit, then the mark.
unfoldable pub after_create :
    World → KafkaPayload → State → Option (Row × Database) → Ending × State
unfolding mark_processed
after_create w p s none = (raised, s)
after_create w p s (some (row, db)) =
    if w.clock.commits
    then mark_processed w p.idempotency_key (record s { db = db })
    else (raised, s)

unfoldable pub insert : World → KafkaPayload → State → Option PaperCreate → Ending × State
unfolding create after_create session_of
insert w p s none = (raised, s)
insert w p s (some paper) = after_create w p s (create (session_of p) w.clock paper s.db)

-- What follows both fences.
unfoldable pub store : World → KafkaPayload → (topic : String) → State → Ending × State
unfolding insert build_paper_create
store w p topic s = insert w p s (build_paper_create w.tools p topic)

-- The second fence, by what `get_by_idempotency_key` gave; several rows raise.
unfoldable pub fenced :
    World → KafkaPayload → (topic : String) → State → Option (Option Row) → Ending × State
unfolding store mark_processed
fenced w p topic s none = (raised, s)
fenced w p topic s (some none) = store w p topic s
fenced w p topic s (some (some row)) = mark_processed w p.idempotency_key s

-- The rows with the payload's key that its session sees.
unfoldable pub found_rows : KafkaPayload → State → List Row
unfolding with_key session_of
found_rows p s = with_key (session_of p) (codes p.idempotency_key) s.db.papers

-- One attempt; `none` is a value that does not parse.
unfoldable pub attempt : World → Option KafkaPayload → (topic : String) → State → Ending × State
unfolding fenced one_or_none found_rows
attempt w none topic s = (raised, s)
attempt w (some p) topic s =
    if not w.redis_answers_check
    then (raised, s)
    else if exists w.clock.now (processed_key p.idempotency_key) s.redis
    then (returned, s)
    else if not w.session_works
    then (raised, s)
    else fenced w p topic s (one_or_none (found_rows p s))

-- `@retry(stop=stop_after_attempt(3), reraise=True)`: the attempts in order, each in its world.
unfoldable pub retry : List World → Option KafkaPayload → (topic : String) → State → Ending × State
unfolding attempt
retry [] value topic s = (raised, s)
retry (w ∷ worlds) value topic s =
    let (end, s') = attempt w value topic s in
    let again = retry worlds value topic s' in
    elim end [ returned ↦ (returned, s') | raised ↦ again ]

unfoldable pub process_message :
    (first second third : World) → Option KafkaPayload → (topic : String) → State → Ending × State
unfolding retry
process_message first second third value topic s = retry (first ∷ second ∷ third ∷ []) value topic s

-- What the consumer polls.
pub data Poll : Type 0 where
  nothing : Poll
  poll_error : Poll
  message :
      (first second third : World)
      → Option KafkaPayload
      → (topic : String) → (commit_works : Bool) → Poll

-- The consumer's position is the number of messages that it has polled; `commit` commits it.
pub record Consumer : Type 0 where
  pub state : State
  pub position : ℕ
  pub committed : ℕ

-- The end of a round, by how the processing and the commit of the offset ended; both kinds of
-- exception are logged only.
unfoldable pub after_message : (commit_works : Bool) → Consumer → Ending × State → Consumer
after_message commit_works k (returned, s) = record {
  state = s;
  position = k.position + 1;
  committed = if commit_works then k.position + 1 else k.committed;
}
after_message commit_works k (raised, s) = record {
  state = s;
  position = k.position + 1;
  committed = k.committed;
}

unfoldable pub round : Poll → Consumer → Consumer
unfolding process_message after_message
round nothing k = k
round poll_error k = k
round (message first second third value topic commit_works) k =
    after_message commit_works k (process_message first second third value topic k.state)

unfoldable pub run_consumer : List Poll → Consumer → Consumer
unfolding round
run_consumer [] k = k
run_consumer (poll ∷ polls) k = run_consumer polls (round poll k)
