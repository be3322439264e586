-- ===== src/Worker/Order.antt =====
-- The order in which the worker handles the messages of a poll.
use async_job_processing_pip.Prelude.{
  ℕ, ◌≤◌, ◌≡◌, ap, ◌∙◌, false, String, Option, none, some, [], arith, ◌==◌, nat_eq, string_eq,
}
use async_job_processing_pip.Prelude.Dict.{Dict, put, get-put_self, get-put_ne}
use async_job_processing_pip.Core.Config.{Settings}
use async_job_processing_pip.Queue.{topic_for_priority}
use async_job_processing_pip.Worker.{topic_rank}

-- The topics that jobs are submitted to, and the retry topic, are four different ones.
pub record AreDistinct (settings : Settings) : Type 0 where
  pub default_high :
      (settings.kafka_submitted_default_topic == settings.kafka_submitted_high_topic) ≡ false
  pub retry_high : (settings.kafka_retry_topic == settings.kafka_submitted_high_topic) ≡ false
  pub low_high : (settings.kafka_submitted_low_topic == settings.kafka_submitted_high_topic) ≡ false
  pub retry_default : (settings.kafka_retry_topic == settings.kafka_submitted_default_topic) ≡ false
  pub low_default :
      (settings.kafka_submitted_low_topic == settings.kafka_submitted_default_topic) ≡ false
  pub low_retry : (settings.kafka_submitted_low_topic == settings.kafka_retry_topic) ≡ false

abbrev rank_of : Option ℕ → ℕ
rank_of none = 99
rank_of (some rank) = rank

module _ (settings : Settings) (distinct : AreDistinct settings) where
  abbrev high_default_retry : Dict String ℕ
  high_default_retry =
      put settings.kafka_retry_topic 2 (
        put settings.kafka_submitted_default_topic 1 (put settings.kafka_submitted_high_topic 0 []))

  -- The ranks of the topics.
  pub topic_ranks :
      (topic_rank settings settings.kafka_submitted_high_topic ≡ 0)
      × (topic_rank settings settings.kafka_submitted_default_topic ≡ 1)
      × (topic_rank settings settings.kafka_retry_topic ≡ 2)
      × (topic_rank settings settings.kafka_submitted_low_topic ≡ 3)
  unfolding topic_rank
  topic_ranks = (
    ap rank_of (
        get-put_ne settings.kafka_submitted_low_topic _ 3 high_default_retry distinct.low_high
        ∙ get-put_ne settings.kafka_retry_topic _ 2 _ distinct.retry_high
        ∙ get-put_ne settings.kafka_submitted_default_topic _ 1 _ distinct.default_high
        ∙ get-put_self settings.kafka_submitted_high_topic 0 []),
    ap rank_of (
        get-put_ne settings.kafka_submitted_low_topic _ 3 high_default_retry distinct.low_default
        ∙ get-put_ne settings.kafka_retry_topic _ 2 _ distinct.retry_default
        ∙ get-put_self settings.kafka_submitted_default_topic 1 _),
    ap rank_of (
        get-put_ne settings.kafka_submitted_low_topic _ 3 high_default_retry distinct.low_retry
        ∙ get-put_self settings.kafka_retry_topic 2 _),
    ap rank_of (get-put_self settings.kafka_submitted_low_topic 3 high_default_retry),
  )

  -- Where the four topics are different, a job of a higher priority never goes to a topic that is handled
  -- after that of a lower one.
  pub topic_rank-priority :
      (low high : ℕ)
      → low ≤ high
      → topic_rank settings (topic_for_priority settings high)
        ≤ topic_rank settings (topic_for_priority settings low)
  unfolding topic_for_priority
  topic_rank-priority low high h = let (a, b, _, d) = topic_ranks in ground (arith, a, b, d)
