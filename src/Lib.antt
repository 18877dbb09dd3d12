-- ===== src/Lib.antt =====
-- Verification of Discord Ferry, which moves a Discord server to Stoat.
--
-- Six parts of the program are modelled. Paths are those of the repository, below src/discord_ferry.
--
-- Permissions (core/permissions.py, discord/permissions.py). A Discord permission of a channel is
-- compiled to a `BitPredicate` over sets of roles, and that to one override for each role of a Stoat
-- channel. A set of roles is a number read by its bits (Bits). `Permission.Predicate` has the
-- predicate, `evaluate_source_bit` and `constant_result`; `Permission.Synthesis` has
-- `synthesize_bit` and `_encoding_matches`, with the query as an argument that may raise;
-- `Permission.Conjunction` has `_predicate_terms`, `_conjunction_possible` and
-- `_visible_bit_query`; `Permission.Source` has `_form_source_bit` and `_source_role_changes_bit`;
-- `Permission.Translation` has the tables and `translate_permissions`; `Permission.Compile` has the loops
-- of `compile_supported_bits` for one channel, over any table, where no role is managed, and how
-- `_matches_source_access` reads cells. What a Stoat server makes of
-- overrides is `target_result` (Permission.Synthesis.Meaning), and what Discord makes of roles and
-- overwrites is `discord_has` (Permission.Source.Meaning): both are descriptions, not code. The loop
-- over role masks in `_predicate_terms` runs on the mask itself as fuel, which falls in each round.
--
-- Delivery (migrator/delivery.py, state.py, migrator/api.py). `deliver_part` sends one part of a
-- message at most once, with a receipt file that is written before the request. `Delivery.Receipt`
-- has the records and their validation; `Delivery.Keys` the keys and the receipt names;
-- `Delivery.Files` the reading and writing of receipts; `Delivery.History` the search of the message
-- history and the media of a message; `Delivery.Legacy` the search under the keys of older versions;
-- `Delivery.Send` what `_api_request` makes of the replies to a message; `Delivery.Parts` and
-- `Delivery.Deliver` the call itself; `Delivery.Retry` the context of a retry, and `Delivery.Retire`
-- the removal of consumed receipts by `save_state`. Code that may raise and that changes the state is an `Exec`
-- (Delivery.Exec) over a `World`: the receipt files, the keys that this session prepared
-- (`_fresh_parts`), a record of the calls made of the transport and the permission runtime, and the
-- disk operations that will fail. What a raise leaves behind is in the state. A `Run`
-- (Delivery.Safety.Run) is a sequence of calls with any answers, with new sessions in between.
--
-- Messages (migrator/messages.py). `Messages.Split` has `_split_message` over lists of code points;
-- `Messages.Outcomes` the counts of `DeliveryOutcomes`; `Messages.Merging` `_merge_channel_result`;
-- `Messages.Reactions` `_build_reaction_text`.
--
-- Export (exporter/inventory.py, core/engine.py). `Export` has `select_export_decision`, and `_failed_ids`
-- of the engine, which groups for it the failures of the last run.
--
-- Repair (core/engine.py). `Repair` has `_clear_channel_state`, `begin_delivery_replacement` and
-- `_retry_message_candidates`. `save_state` and the identifier that `uuid4` gives are arguments here.
--
-- Feedback (feedback_service/store.py). `Feedback.Quota` has the claims of `_claim_quota_sync` over
-- the table of rate events, a list here; `Feedback.Receipts` has `_claim_receipt_sync` and
-- `_transition_sync` over the table of receipts, by request id; `Feedback.Store` joins the three tables
-- and has the admission, the expiry, the marks and the contacts. Its operations on one table are
-- the others'. A store is `Reached` by any operations at any times (Feedback.Store.Runs).
--
-- Parameters. The SHA-256 hashes are functions of a `Setup`; the theorems on runs assume that no two
-- identities have the same well-formed key, as is relied on where such a hash is used. The answers
-- of the server are arguments: the pages of the history, of which a missing one is a failed request,
-- and the outcome of the message request, which `Delivery.Send` derives from the replies. The
-- permission runtime's refusal is an argument. A JSON number is a natural number.
--
-- Bounds and fuel. Numbers are unbounded in Python and here. `api_request` makes three attempts, as
-- `MAX_API_RETRIES` says, and three more after a cooldown. `find_messages` takes one page of its list
-- for each request; `split_for` looks for the number of parts in as many rounds as the content has
-- characters, which is shown to be enough; the decimal text of a number takes the number as its fuel.
--
-- Not modelled: the text of receipts and JSON decoding (a record stands for its file, so that its
-- members have their types), the namespace's creation, symbolic links, the asyncio lock (the calls of
-- one delivery follow each other), pacing and the circuit breaker, the check that a URL may carry
-- credentials, and the rest of the program, which the manifest lists part by part.
pub mod Prelude
pub mod Bits
pub mod Permission
pub mod Delivery
pub mod Feedback
pub mod Export
pub mod Repair
pub mod Messages
