-- ===== src/Export/Tests.antt =====
-- The theorem on exports at concrete inputs.
use discord_stoat_ferry.Prelude.{String, true, some, [], ◌∷◌, refl}
use discord_stoat_ferry.Prelude.Dict
use discord_stoat_ferry.Prelude.Dict.{Dict}
use discord_stoat_ferry.Delivery.Receipt.{ordinary, codes}
use discord_stoat_ferry.Messages.Merging.{FailedMessage}
use discord_stoat_ferry.Export.{
  SourceInventory, int_from, int_of, is_snowflake, has_repeats, marker_values, all_retries,
  add_retry, group_failures, failed_ids_of, decide_with, select_export_decision,
}
use discord_stoat_ferry.Export.Coverage.{Covers, select_export_decision-Covers}

abbrev two_channels : SourceInventory
two_channels = record { ids = "11" ∷ "12" ∷ []; complete = true }

abbrev marks : Dict String
marks = ("11", "500") ∷ ("12", "700") ∷ []

abbrev a_failure : FailedMessage
a_failure = record {
  discord_msg_id = "450";
  stoat_channel_id = "01";
  error = "";
  retry_count = 0;
  content_preview = "";
  delivery_ref = some (record {
    source_channel_id = "11";
    source_message_id = "450";
    destination_channel_id = "01";
    family = ordinary;
    generation = "base";
  });
}

select_export_decision-Covers_example :
    Covers two_channels marks
      (a_failure ∷ [])
      true
      (select_export_decision two_channels marks (failed_ids_of (a_failure ∷ [])) true)
unfolding select_export_decision decide_with failed_ids_of group_failures add_retry all_retries
    has_repeats is_snowflake int_of int_from codes Dict.get marker_values
select_export_decision-Covers_example =
    select_export_decision-Covers two_channels marks (a_failure ∷ []) true refl
