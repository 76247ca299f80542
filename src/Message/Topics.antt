-- ===== src/Message/Topics.antt =====
-- How pkg/message/topic.go, event.go, task.go and subscriber.go build the names of topics and of
-- subscribers. `ToKebabCase`, which is that of a library, is a parameter.
use Prim.Native.String.{◌++◌}
use go_service_template.Common.{String, string_eq, List, [], ◌∷◌, map, if◌then◌else◌, ◌==◌}
use go_service_template.Message.{Topic}
use go_service_template.Message.BusListener.{Subscriber}
use mathlib.Core.List.{◌++◌ as append}

pub record TopicBuilder : Type 0 where
  pub base_name : String
  pub domain : String
  pub aggregate : String
  pub message_type : String
  pub custom_tags : List String

abbrev pub TopicBuilderOption : Type 0
TopicBuilderOption = TopicBuilder → TopicBuilder

-- `addTagIfNotEmpty`, on what has been written.
pub add_tag_if_not_empty : String → String → String
add_tag_if_not_empty tag sb = if tag == "" then sb else sb ++ ("." ++ tag)

pub add_tags : List String → String → String
unfolding add_tag_if_not_empty
add_tags [] sb = sb
add_tags (tag ∷ tags) sb = add_tags tags (add_tag_if_not_empty tag sb)

-- `Build`.
unfoldable pub build : TopicBuilder → Topic
unfolding add_tag_if_not_empty add_tags
build b = add_tags b.custom_tags (
    add_tag_if_not_empty b.message_type
      (add_tag_if_not_empty b.aggregate (add_tag_if_not_empty b.domain b.base_name)))

pub apply_options : List TopicBuilderOption → TopicBuilder → TopicBuilder
apply_options [] b = b
apply_options (opt ∷ opts) b = apply_options opts (opt b)

module _ (to_kebab_case : String → String) where
  unfoldable pub with_topic_domain_name : String → TopicBuilderOption
  with_topic_domain_name name b = record b { domain = to_kebab_case name ++ "-domain" }

  unfoldable pub with_topic_aggregate_name : String → TopicBuilderOption
  with_topic_aggregate_name name b = record b { aggregate = to_kebab_case name ++ "-aggregate" }

  unfoldable pub with_topic_message_type : String → TopicBuilderOption
  with_topic_message_type msg_type b = record b { message_type = to_kebab_case msg_type ++ "-type" }

  unfoldable pub with_topic_custom_tags : List String → TopicBuilderOption
  with_topic_custom_tags tags b = record b {
    custom_tags = append b.custom_tags (map to_kebab_case tags);
  }

  -- `NewTopic`.
  unfoldable pub new_topic : String → List TopicBuilderOption → Topic
  unfolding build apply_options
  new_topic base_name opts = build (
      apply_options opts (record {
        base_name = to_kebab_case base_name;
        domain = "";
        aggregate = "";
        message_type = "";
        custom_tags = [];
      }))

  unfoldable pub new_topic_domain_event : String → String → List String → Topic
  unfolding new_topic with_topic_domain_name with_topic_aggregate_name with_topic_custom_tags
  new_topic_domain_event domain_name aggregate_name custom_tags = new_topic "domain-event" (
      with_topic_domain_name domain_name
      ∷ with_topic_aggregate_name aggregate_name
      ∷ with_topic_custom_tags custom_tags
      ∷ [])

  unfoldable pub new_topic_task_queue : String → String → List String → Topic
  unfolding new_topic with_topic_domain_name with_topic_message_type with_topic_custom_tags
  new_topic_task_queue domain_name task_type custom_tags = new_topic "task-queue" (
      with_topic_domain_name domain_name
      ∷ with_topic_message_type task_type
      ∷ with_topic_custom_tags custom_tags
      ∷ [])

  unfoldable pub new_subscriber : String → Subscriber
  new_subscriber name = to_kebab_case name

  unfoldable pub new_subscriber_custom : String → String → Subscriber
  unfolding new_subscriber
  new_subscriber_custom name custom = new_subscriber (name ++ ("-" ++ custom))

  unfoldable pub new_subscriber_service : String → Subscriber
  unfolding new_subscriber_custom
  new_subscriber_service name = new_subscriber_custom name "service"
