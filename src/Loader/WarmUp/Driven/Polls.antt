-- ===== src/Loader/WarmUp/Driven/Polls.antt =====
-- internal/driver/consumer.go: the turns that the polls of an open consumer make of what the Kafka
-- client returns.
use easykafka_config_go.Prelude.{ℕ, ◌≡◌, refl, ap, ◌∙◌, false, List, [], ◌∷◌, any, arith}
use easykafka_config_go.Detect.Laws.{is_end_of, ended}
use easykafka_config_go.Driver.Consumer.{
  Consumer, KafkaEvent, poll, dispatch, classify_error, note_error, note_connected, log_throttled,
}
use easykafka_config_go.Loader.WarmUp.Laws.{events}
use easykafka_config_go.Loader.WarmUp.Records.{records}
use easykafka_config_go.Loader.WarmUp.Driven.{Round, turns_of, reports_end, messages}

-- A poll keeps an open consumer open, with its configuration.
dispatch-kept :
    (now : ℕ) (event : KafkaEvent) (c : Consumer)
    → ((dispatch now event c).0.closed ≡ c.closed) × ((dispatch now event c).0.cfg ≡ c.cfg)
unfolding dispatch note_connected classify_error note_error log_throttled
dispatch-kept now event c = ground arith

pub poll-kept :
    (now : ℕ) (event : KafkaEvent) (c : Consumer)
    → c.closed ≡ false
    → ((poll now event c).0.closed ≡ false) × ((poll now event c).0.cfg ≡ c.cfg)
unfolding poll
poll-kept now event c h = ground (arith, dispatch-kept now event c)

pub is_end_of-poll :
    (p now : ℕ) (r : Round) (c : Consumer)
    → c.closed ≡ false
    → is_end_of p (poll now r.kafka c).1 ≡ reports_end p r
unfolding poll dispatch classify_error
is_end_of-poll p now r c h = ground arith

pub ended-turns_of :
    (p : ℕ) (rs : List Round) (c : Consumer)
    → c.closed ≡ false
    → ended p (events (turns_of rs c)) ≡ any (reports_end p) rs
unfolding turns_of
ended-turns_of p [] c h = refl
ended-turns_of p (r ∷ rs) c h = ground (
  arith,
  is_end_of-poll p r.polled_at r c h,
  ended-turns_of p rs (poll r.polled_at r.kafka c).0 (poll-kept r.polled_at r.kafka c h).0,
)

pub records-turns_of :
    (rs : List Round) (c : Consumer)
    → c.closed ≡ false
    → records (turns_of rs c) ≡ messages c.cfg.topic rs
unfolding turns_of poll dispatch classify_error
records-turns_of [] c h = refl
records-turns_of (r ∷ rs) c h =
    let (kept, same) = poll-kept r.polled_at r.kafka c h in
    let rest =
      records-turns_of rs (poll r.polled_at r.kafka c).0 kept
      ∙ ap (λ cfg. messages cfg.topic rs) same in
    ground (arith, rest)
