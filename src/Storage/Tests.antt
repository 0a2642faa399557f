-- ===== src/Storage/Tests.antt =====
-- Concrete runs of module 4, and its theorems at them.
use Prim.Native.String
use prompt_flow_ai.Prelude.{
  ℕ, zero, suc, ◌≡◌, refl, String, true, false, none, some, List, [], ◌∷◌, length,
}
use prompt_flow_ai.Prelude.Text.{Text, codes, text_eq}
use prompt_flow_ai.Redis.{empty, exists, setex, exists-empty}
use prompt_flow_ai.Redis.Memory.{memory}
use prompt_flow_ai.Storage.Schemas.{
  null, present, RawAuthors, KafkaPayload, published, PaperCreate, valid_paper,
}
use prompt_flow_ai.Storage.Build.{Tools, stored_key, build_paper_create}
use prompt_flow_ai.Prelude.{inl}
use prompt_flow_ai.Storage.Build.Nulls.{null_fields_rejected}
use prompt_flow_ai.Storage.Build.Laws.{IsBuilt, build_paper_create-IsBuilt}
use prompt_flow_ai.Storage.Consumer.{
  State, World, processed_key, returned, raised, process_message, found_rows, nothing, message,
  Consumer, round, run_consumer,
}
use prompt_flow_ai.Storage.Consumer.Laws.{IsConsistent}
use prompt_flow_ai.Storage.Consumer.Attempt.{IsSound}
use prompt_flow_ai.Storage.Consumer.Loop.{
  process_message-IsSound, stored_once, run_consumer-IsConsistent,
}

-- What the definitions compute through.
storage : Unit {0}
unfolding process_message found_rows round build_paper_create exists setex valid_paper stored_key
    text_eq
storage = tt

abbrev digits : Text
digits = codes "0123456789abcdef0123456789abcdef0123456789abcdef0123456789abcdef"

abbrev payload : KafkaPayload
payload = record {
  extraction_id = codes "e1";
  idempotency_key = "0123456789abcdef0123456789abcdef0123456789abcdef0123456789abcdef";
  trace_id = 7;
  final_action = present "AUTO_SAVE";
  overall_confidence = present 9000;
  title = present (codes "Proof Checking in Practice");
  authors = RawAuthors.entries (
      record { name = present (codes "Ada Lovelace"); affiliation = null; order = present 1 } ∷ []);
  venue = null;
  journal = present (codes "Journal of Proofs");
  year = present 2021;
  doi = present (codes "10.1000/xyz");
  paper_type = present (codes "journal");
  faculty_id = present (codes "f1");
  faculty_email = present (codes "ada@srmap.edu.in");
  department_code = present (codes "CSE");
  raw_text_hash = present digits;
  attachments = [];
}

abbrev zero_vector : ℕ → List ℕ
zero_vector zero = []
zero_vector (suc n) = 0 ∷ zero_vector n

abbrev tools : Tools
tools = record {
  parse_uuid = λ t. some t;
  uuid4 = codes "random";
  generate_embedding = λ title venue. some (zero_vector 768);
  current_year = 2026;
}

abbrev good : World
good = record {
  redis_answers_check = true;
  redis_answers_mark = true;
  session_works = true;
  clock = record {
    allow_missing_auth_headers = false;
    now = 10;
    current_year = 2026;
    new_id = 1;
    trace_id = 7;
    commits = true;
  };
  tools = tools;
}

-- The next attempt, with the time and the identifier of its own.
abbrev later : World
later = record good {
  clock = record {
    allow_missing_auth_headers = false;
    now = 11;
    current_year = 2026;
    new_id = 2;
    trace_id = 8;
    commits = true;
  };
}

abbrev no_session : World
no_session = record good { session_works = false }

abbrev start : State
start = record {
  redis = empty memory;
  db = record { papers = []; versions = []; issues = []; audit_log = [] };
}

start-IsConsistent : IsConsistent start
start-IsConsistent = λ t key h. absurd (unmarked t key h)
  where
    unmarked :
        (t : ℕ) (key : String)
        → exists t (String.◌++◌ "m4:processed:" key) (empty memory) ≡ true
        → ⊥
    unmarked t key h = cc (h, exists-empty memory t (String.◌++◌ "m4:processed:" key))

-- The second attempt stores the paper.
is_stored :
    (process_message no_session good good (some payload) "papers.validated" start).0 ≡ returned
unfolding storage
is_stored = refl

process_message-IsSound_example :
    IsSound
      (no_session ∷ good ∷ good ∷ [])
      payload
      "papers.validated"
      start
      (process_message no_session good good (some payload) "papers.validated" start)
process_message-IsSound_example =
    process_message-IsSound no_session good good payload "papers.validated" start refl

stored_once_example :
    let s' = (process_message no_session good good (some payload) "papers.validated" start).1 in
    (process_message good good good (some payload) "papers.review" s').1.db.papers ≡ s'.db.papers
stored_once_example =
    stored_once no_session good good good good good payload "papers.validated" "papers.review" start
      refl (λ t. exists-empty memory t (processed_key payload.idempotency_key)) is_stored

abbrev consumer : Consumer
consumer = record { state = start; position = 5; committed = 5 }

run_consumer-IsConsistent_example :
    IsConsistent
      (run_consumer
        (nothing ∷ message no_session good good (some payload) "papers.validated" true ∷ [])
        consumer).state
run_consumer-IsConsistent_example =
    run_consumer-IsConsistent
      (nothing ∷ message no_session good good (some payload) "papers.validated" true ∷ []) consumer
      start-IsConsistent

fails_once : (process_message good good good none "papers.validated" start).0 ≡ raised
unfolding storage
fails_once = refl

-- The offset behind a message that failed is committed with the next one.
failed_is_committed :
    (run_consumer
      (message good good good none "papers.validated" true
        ∷ message good good good (some payload) "papers.validated" true
        ∷ [])
      consumer).committed
    ≡ 7
unfolding storage run_consumer
failed_is_committed = refl

abbrev no_mark : World
no_mark = record good { redis_answers_mark = false }

-- A key that is not of 64 characters, whose mark fails at first: the fence looks for the key as it
-- came, and the retry stores a second row.
abbrev retried : State
retried =
    (process_message no_mark later good (some (record payload { idempotency_key = "short" }))
      "papers.validated" start).1

two_rows : length retried.db.papers ≡ 2
unfolding storage
two_rows = refl

abbrev paper : PaperCreate
paper = record {
  ingestion_idempotency_key = digits;
  extraction_id = codes "e1";
  title = codes "Proof Checking in Practice";
  authors = record { name = codes "Ada Lovelace"; affiliation = none; order = 1 } ∷ [];
  venue = some (codes "Journal of Proofs");
  year = 2021;
  doi = some (codes "10.1000/xyz");
  paper_type = codes "journal";
  faculty_id = codes "f1";
  faculty_email = codes "ada@srmap.edu.in";
  department_code = codes "CSE";
  status = published;
  overall_confidence = 9000;
  raw_text_hash = digits;
  attachment_uris = [];
  embedding = some (zero_vector 768);
}

is_built : build_paper_create tools payload "papers.validated" ≡ some paper
unfolding storage
is_built = refl

build_paper_create-IsBuilt_example : IsBuilt tools payload "papers.validated" paper
build_paper_create-IsBuilt_example =
    build_paper_create-IsBuilt tools payload "papers.validated" paper is_built

null_fields_rejected_example :
    build_paper_create tools (record payload { title = null }) "papers.review" ≡ none
null_fields_rejected_example =
    null_fields_rejected tools (record payload { title = null }) "papers.review" (inl refl)
